-- ===== src/Workspace.antt =====
-- .trellis/scripts/common/paths.py: the repository root, the developer and the journal files.
pub mod Identity
pub mod Journal
