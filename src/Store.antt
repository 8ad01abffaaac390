-- ===== src/Store.antt =====
-- .trellis/scripts/common/task_store.py: the commands that create, link, rename and archive tasks.
pub mod Slugs
pub mod State
pub mod Links
pub mod LinkLaws
pub mod UnlinkLaws
pub mod FieldLaws
pub mod Unlinking
pub mod Archiving
pub mod RestoreLaws
pub mod UnlinkingLaws
pub mod OrphanLaws
pub mod ArchiveLaws
pub mod ArchivedLaws
pub mod Rewriting
pub mod RewriteLaws
pub mod Renaming
pub mod Drafts
pub mod Creating
pub mod SlugLaws
pub mod NameLaws
pub mod BackrefLaws
pub mod ShapeLaws
pub mod PlanLaws
pub mod IdentityLaws
pub mod LineLaws
pub mod ContextLaws
pub mod RenameLaws
pub mod RenamedLaws
pub mod MadeLaws
pub mod CreateLaws
pub mod RmdirLaws
pub mod CreatedLaws
pub mod OutcomeLaws
