-- ===== src/Commit/Paths.antt =====
-- .trellis/scripts/common/safe_commit.py: the paths to stage, and staging them.
use taihu.Base.{
  ℕ, Bool, true, false, not, ◌&&◌, Option, none, some, List, [], ◌∷◌, ◌++◌, eqb, if◌then◌else◌,
  Text, lit, ◌==◌, is_empty, starts_with, ends_with, lower,
}
use taihu.Files.Tree.{FilePath}
use taihu.Tasks.Refs.{Disk, dir_workflow, dir_tasks}
use taihu.Commit.Git.{GitRun, contains, run_git_retry_index_lock}

abbrev pub workspace_prefix : Text → Text
workspace_prefix developer = lit ".trellis/workspace/" ++ (developer ++ lit "/")

abbrev pub tasks_path : Text → Text
tasks_path name = lit ".trellis/tasks/" ++ name

abbrev pub archive_path : Text
archive_path = lit ".trellis/tasks/archive"

module _ (disk : Disk) (is_file : FilePath → Bool) (repo_root : FilePath) where
  -- The journal files of a directory.
  unfoldable pub journal_paths : Text → FilePath → List Text → List Text
  journal_paths developer ws [] = []
  journal_paths developer ws (name ∷ names) =
      let rest = journal_paths developer ws names in
      if starts_with name (lit "journal-")
        && ends_with name (lit ".md")
        && is_file (ws ++ (name ∷ []))
      then (workspace_prefix developer ++ name) ∷ rest
      else rest

  abbrev workspace_dir : Text → FilePath
  workspace_dir developer = repo_root ++ (dir_workflow ∷ lit "workspace" ∷ developer ∷ [])

  abbrev pub index_paths : Text → List Text
  index_paths developer =
      if is_file (workspace_dir developer ++ (lit "index.md" ∷ []))
      then (workspace_prefix developer ++ lit "index.md") ∷ []
      else []

  unfoldable pub paths_in : Text → List Text
  paths_in developer =
      let ws = workspace_dir developer in
      if disk.is_dir ws
      then journal_paths developer ws (disk.names ws) ++ index_paths developer
      else []

  unfoldable pub workspace_paths : Option Text → List Text
  workspace_paths none = []
  workspace_paths (some []) = []
  workspace_paths (some (c ∷ developer)) = paths_in (c ∷ developer)

  abbrev tasks_dir : FilePath
  tasks_dir = repo_root ++ (dir_workflow ∷ dir_tasks ∷ [])

  abbrev pub if_dir : FilePath → Text → List Text
  if_dir p t = if disk.is_dir p then t ∷ [] else []

  -- The task, where it is and where it is archived.
  unfoldable pub narrow_paths : Text → List Text
  narrow_paths name =
      if_dir (tasks_dir ++ (name ∷ [])) (tasks_path name)
      ++ if_dir (tasks_dir ++ (lit "archive" ∷ name ∷ [])) (lit ".trellis/tasks/archive/" ++ name)

  -- All directories of tasks but the archive.
  unfoldable pub wide_paths : List Text → List Text
  wide_paths [] = []
  wide_paths (name ∷ names) =
      let rest = wide_paths names in
      if disk.is_dir (tasks_dir ++ (name ∷ [])) && not (name == lit "archive")
      then tasks_path name ∷ rest
      else rest

  abbrev task_paths : Option Text → List Text
  task_paths (some name) = narrow_paths name
  task_paths none =
      wide_paths (disk.names tasks_dir) ++ if_dir (tasks_dir ++ (lit "archive" ∷ [])) archive_path

  unfoldable pub safe_trellis_paths_to_add : Option Text → Option Text → List Text
  safe_trellis_paths_to_add developer task_name =
      workspace_paths developer ++ (if disk.is_dir tasks_dir then task_paths task_name else [])

  abbrev child_paths : List Text → List Text
  child_paths [] = []
  child_paths (c ∷ cs) = tasks_path c ∷ child_paths cs

  abbrev archive_paths : Option Text → List Text → List Text
  archive_paths (some name) children =
      if_dir (tasks_dir ++ (lit "archive" ∷ [])) archive_path ++ child_paths children
  archive_paths none children =
      if_dir (tasks_dir ++ (lit "archive" ∷ [])) archive_path ++ wide_paths (disk.names tasks_dir)

  unfoldable pub safe_archive_paths_to_add : Option Text → List Text → List Text
  safe_archive_paths_to_add task_name children =
      if disk.is_dir tasks_dir then archive_paths task_name children else []

unfoldable pub stderr_indicates_ignored : Text → Bool
stderr_indicates_ignored stderr =
    not (is_empty stderr) && contains (lower stderr) (lit "ignored by")

abbrev added : GitRun → Bool × Bool × Text
added r = if eqb r.returncode 0 then (true, false, []) else (false, false, r.stderr)

-- `safe_git_add`, where `runs i` is what the attempt `i` to add the paths returns.
unfoldable pub safe_git_add : List Text → Bool → (ℕ → GitRun) → Bool × Bool × Text
safe_git_add [] retry_on_index_lock runs = (true, false, [])
safe_git_add (p ∷ paths) true runs = added (run_git_retry_index_lock runs).0
safe_git_add (p ∷ paths) false runs = added (runs 0)
