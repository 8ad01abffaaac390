-- ===== src/Store/RenamedLaws.antt =====
-- .trellis/scripts/common/task_store.py: the whole rename command, from its arguments on.
use taihu.Base.{
  ◌≡◌, refl, true, Bool-cases, inl, inr, Option, none, some, [], ◌∷◌, ◌++◌, Text, ◌==◌,
}
use taihu.Json.{Fields}
use taihu.Files.Tree.{FilePath, is_dir, exists, parent}
use taihu.Tasks.Info.{Read, Checked, read, failed, read_json_checked}
use taihu.Tasks.Dirs.{get_tasks_dir, path_name, resolve_task_dir, is_within_tasks_dir}
use taihu.Store.State.{Store, Host, disk_of, doc_at}
use taihu.Store.Slugs.{split_date_prefix, validate_rename_slug}
use taihu.Store.Renaming.{
  RenameRun, find_archived_task, prefixed, rename_checked, rename_doc, rename_free, rename_to,
  rename_slug, rename_resolved, cmd_rename,
}
use taihu.Store.RenameLaws.{Renamed}

module _ (host : Host) (repo : FilePath) (run : RenameRun) where
  rename_checked-dry_run :
      (task new_dir : FilePath) (slug : Text) (c : Checked) (s : Store)
      → run.dry_run ≡ true
      → (rename_checked host repo run task new_dir slug c s).1 ≡ s
  rename_checked-dry_run task new_dir slug (failed reason) s h = refl
  rename_checked-dry_run task new_dir slug (read d) s h = rw h refl

  rename_doc-dry_run :
      (task new_dir : FilePath) (slug : Text) (o : Option Read) (s : Store)
      → run.dry_run ≡ true
      → (rename_doc host repo run task new_dir slug o s).1 ≡ s
  rename_doc-dry_run task new_dir slug none s h = refl
  rename_doc-dry_run task new_dir slug (some r) s h =
      rename_checked-dry_run task new_dir slug (read_json_checked r) s h

  rename_free-dry_run :
      (task new_dir : FilePath) (slug : Text) (o : Option FilePath) (s : Store)
      → run.dry_run ≡ true
      → (rename_free host repo run task new_dir slug o s).1 ≡ s
  rename_free-dry_run task new_dir slug (some archived) s h = refl
  rename_free-dry_run task new_dir slug none s h =
      rename_doc-dry_run task new_dir slug (doc_at task s.tree) s h

  rename_to-dry_run :
      (task : FilePath) (slug new_name : Text) (s : Store)
      → run.dry_run ≡ true
      → (rename_to host repo run task slug new_name s).1 ≡ s
  rename_to-dry_run task slug new_name s h = elim (Bool-cases (new_name == path_name task)) [
    | inl e ↦ rw e refl
    | inr e ↦ elim (Bool-cases (exists s.tree (parent task ++ (new_name ∷ [])))) [
      | inl f ↦ rw (e, f) refl
      | inr f ↦
          rw (e, f)
            (rename_free-dry_run task (parent task ++ (new_name ∷ [])) slug
              (find_archived_task s.tree (get_tasks_dir repo) new_name) s h)
    ]
  ]

  rename_slug-dry_run :
      (task : FilePath) (date : Text) (o : Option Text) (s : Store)
      → run.dry_run ≡ true
      → (rename_slug host repo run task date o s).1 ≡ s
  rename_slug-dry_run task date none s h = refl
  rename_slug-dry_run task date (some slug) s h =
      rename_to-dry_run task slug (prefixed date slug) s h

  rename_resolved-dry_run :
      (o : Option FilePath) (s : Store)
      → run.dry_run ≡ true
      → (rename_resolved host repo run o s).1 ≡ s
  unfolding rename_resolved
  rename_resolved-dry_run none s h = refl
  rename_resolved-dry_run (some task) s h = elim (Bool-cases (is_dir s.tree task)) [
    | inr a ↦ rw a refl
    | inl a ↦ elim (Bool-cases (is_within_tasks_dir (disk_of host s.tree) task repo)) [
      | inr b ↦ rw (a, b) refl
      | inl b ↦
          let date = (split_date_prefix run.wide (path_name task)).0 in
          rw (a, b)
            (rename_slug-dry_run task date (validate_rename_slug run.wide run.new_slug date) s h)
    ]
  ]

  -- A dry run changes neither a file nor a session.
  pub cmd_rename-dry_run : (s : Store) → run.dry_run ≡ true → (cmd_rename host repo run s).1 ≡ s
  unfolding cmd_rename
  cmd_rename-dry_run s h =
      rename_resolved-dry_run (resolve_task_dir (disk_of host s.tree) run.name repo) s h

  module _ (task : FilePath) (d : Fields) (s : Store) where
    -- The rename of the task has come to a slug and a directory, and has gone through.
    abbrev pub RenamedTo : Store → Type 0
    RenamedTo u =
        let date = (split_date_prefix run.wide (path_name task)).0 in
        (slug : Text) × (validate_rename_slug run.wide run.new_slug date ≡ some slug)
        × Renamed host repo task (parent task ++ (prefixed date slug ∷ [])) slug d s run.io_after u
