-- ===== src/Store/ArchiveLaws.antt =====
-- .trellis/scripts/common/task_store.py: which refusals of an archive change nothing, and what an archive
-- that is done has written.
use taihu.Base.{
  suc, ◌≡◌, refl, inl, inr, ◌⊎◌, arith, Bool-cases, Option, none, some, List, [], Text, is_empty,
}
use taihu.Json.{Json, Fields}
use taihu.Files.Tree.{FilePath, is_dir, exists}
use taihu.Tasks.Info.{Read, Checked, read, failed, read_json_checked}
use taihu.Tasks.Dirs.{resolve_task_dir, is_within_tasks_dir}
use taihu.Tasks.Archive.{archive_destination_for, archive_task_dir}
use taihu.Store.State.{
  Store, Host, disk_of, doc_at, put_doc, write_json, Problem, Exit, refused, child_not_unlinked,
  not_moved, not_committed,
}
use taihu.Store.Unlinking.{child_names, Ended, finished, stopped, failed_on_type}
use taihu.Store.Archiving.{
  ArchiveRun, cmd_archive, archive_resolved, archive_doc, archive_checked, archive_marked,
  archive_children, archive_unlinked, archive_move, commit_moved, completed,
  validate_branch_metadata,
}

-- The refusals that come after the first change.
abbrev pub IsLate : Problem → Type 0
IsLate e = (e ≡ child_not_unlinked) ⊎ ((e ≡ not_moved) ⊎ (e ≡ not_committed))

module _ (host : Host) (repo : FilePath) (run : ArchiveRun) where
  -- A result whose early refusals leave the store as it was.
  abbrev Keeps : Exit × Store → Store → Type 0
  Keeps x s =
      (e : Problem)
      → x.0 ≡ refused e
      → ¬ IsLate e
      → (x.1.tree ≡ s.tree) × (x.1.sessions ≡ s.sessions)

  -- A result that is no early refusal.
  abbrev Late : Exit × Store → Type 0
  Late x = (e : Problem) → x.0 ≡ refused e → IsLate e

  commit_moved-Late :
      (task : FilePath) (modified : List Text) (dest : Option FilePath) (s : Store)
      → Late (commit_moved host repo run task modified dest s)
  commit_moved-Late task modified none s e h = inr (inl (cc))
  commit_moved-Late task modified (some d) s e h = inr (inr (ground arith))

  archive_move-Late :
      (task : FilePath) (modified : List Text) (s : Store)
      → Late (archive_move host repo run task modified s)
  unfolding archive_move
  archive_move-Late task modified s =
      commit_moved-Late task modified (archive_task_dir run.year_month task s.tree).0 _

  archive_unlinked-Late :
      (task : FilePath) (x : Ended) → Late (archive_unlinked host repo run task x)
  archive_unlinked-Late task (finished modified s) = archive_move-Late task modified s
  archive_unlinked-Late task (stopped links s) = λ e h. inl (cc)
  archive_unlinked-Late task (failed_on_type s) = λ e h. cc

  archive_children-Late :
      (task : FilePath) (o : Option (List Json)) (s : Store)
      → Late (archive_children host repo run task o s)
  archive_children-Late task none s = λ e h. cc
  archive_children-Late task (some names) s = archive_unlinked-Late task _

  Late-Keeps : (x : Exit × Store) (s : Store) → Late x → Keeps x s
  Late-Keeps x s late e h n = absurd (n (late e h))

  archive_marked-Keeps :
      (task : FilePath) (d : Fields) (s : Store)
      → Keeps (archive_marked host repo run task d (write_json host task d s)) s
  unfolding write_json
  archive_marked-Keeps task d s = elim (Bool-cases (host.lands s.writes)) [
    | inl b ↦
        let after : Store = record s { tree = put_doc task d s.tree; writes = suc s.writes } in
        rw b (
          Late-Keeps (archive_children host repo run task (child_names d) after) s
            (archive_children-Late task (child_names d) after))
    | inr b ↦ rw b (λ e h n. (refl, refl))
  ]

  archive_checked-Keeps :
      (task : FilePath) (c : Checked) (s : Store) → Keeps (archive_checked host repo run task c s) s
  archive_checked-Keeps task (failed r) s =
      Late-Keeps (archive_move host repo run task [] s) s (archive_move-Late task [] s)
  archive_checked-Keeps task (read d) s =
      elim (Bool-cases (validate_branch_metadata d run.skip_branch_validation run.has_remote)) [
        | inl b ↦ rw b (archive_marked-Keeps task (completed run.today d) s)
        | inr b ↦ rw b (λ e h n. (refl, refl))
      ]

  archive_doc-Keeps :
      (task : FilePath) (o : Option Read) (s : Store) → Keeps (archive_doc host repo run task o s) s
  archive_doc-Keeps task none s =
      Late-Keeps (archive_move host repo run task [] s) s (archive_move-Late task [] s)
  archive_doc-Keeps task (some r) s = archive_checked-Keeps task (read_json_checked r) s

  archive_resolved-Keeps :
      (o : Option FilePath) (s : Store) → Keeps (archive_resolved host repo run o s) s
  unfolding archive_resolved
  archive_resolved-Keeps none s e h n = (refl, refl)
  archive_resolved-Keeps (some task) s e h n = elim (Bool-cases (is_dir s.tree task)) [
    | inr a ↦ rw a (refl, refl)
    | inl a ↦ elim (Bool-cases (is_within_tasks_dir (disk_of host s.tree) task repo)) [
      | inr b ↦ rw (a, b) (refl, refl)
      | inl b ↦ elim (Bool-cases (exists s.tree (archive_destination_for run.year_month task))) [
        | inl c ↦ rw (a, b, c) (refl, refl)
        | inr c ↦
            rw (a, b, c) (archive_doc-Keeps task (doc_at task s.tree) s e (rw (a, b, c) at h) n)
      ]
    ]
  ]

  -- An archive that is refused before its first change leaves every file and every session as it was:
  -- only the refusals for a child that cannot be unlinked, a move or a commit that fails come later.
  pub cmd_archive-Keeps :
      (s : Store) (e : Problem)
      → (cmd_archive host repo run s).0 ≡ refused e
      → ¬ IsLate e
      → ((cmd_archive host repo run s).1.tree ≡ s.tree)
        × ((cmd_archive host repo run s).1.sessions ≡ s.sessions)
  unfolding cmd_archive
  cmd_archive-Keeps s e h n = elim (Bool-cases (is_empty run.name)) [
    | inl a ↦ rw a (refl, refl)
    | inr a ↦ rw a (
        archive_resolved-Keeps (resolve_task_dir (disk_of host s.tree) run.name repo) s e
          (rw a at h) n)
  ]
