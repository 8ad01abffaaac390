-- ===== src/Store/Archiving.antt =====
-- .trellis/scripts/common/task_store.py: `cmd_archive`, with its commit.
use taihu.Base.{
  ℕ, Bool, true, false, not, ◌&&◌, ◌||◌, Option, none, some, List, [], ◌∷◌, eqb, if◌then◌else◌,
  Text, lit, ◌==◌, is_empty, is_space, strip, join,
}
use taihu.Json.{Json, str, Fields, get, assign}
use taihu.Files.Tree.{FilePath, TreeOf, is_dir, exists}
use taihu.Tasks.Info.{Read, Checked, read, failed, read_json_checked}
use taihu.Tasks.Dirs.{get_tasks_dir, path_name, resolve_task_dir, is_within_tasks_dir}
use taihu.Tasks.Archive.{archive_destination_for, archive_task_dir}
use taihu.Active.Sessions.{Io}
use taihu.Active.Pointer.{clear_task_from_sessions}
use taihu.Commit.Git.{GitRun, stderr_indicates_index_lock, run_git_retry_index_lock}
use taihu.Commit.Paths.{safe_archive_paths_to_add, safe_git_add}
use taihu.Store.State.{
  Content, Store, Host, disk_of, doc_at, write_json, Exit, done, refused, crashed, missing_argument,
  outside, not_a_task, already_there, bad_branch, not_written, child_not_unlinked, not_moved,
  not_committed,
}
use taihu.Store.Slugs.{strip_blank}
use taihu.Store.Unlinking.{
  look_up, child_names, Ended, finished, stopped, failed_on_type, unlink_children,
  restore_child_links,
}

abbrev text_or_none : Option Json → Option Text
text_or_none (some (str s)) = some s
text_or_none _ = none

-- `_task_branch_field`
unfoldable pub task_branch_field : Text → Fields → Text
task_branch_field key d = strip_blank (text_or_none (get key d))

-- `_validate_branch_metadata`, given whether the repository has a remote; a branch that is gone is
-- a warning and nothing else.
unfoldable pub validate_branch_metadata : Fields → Bool → Bool → Bool
validate_branch_metadata d skip has_remote =
    let branch = task_branch_field (lit "branch") d in
    let base = task_branch_field (lit "base_branch") d in
    if skip
    then true
    else if not (is_empty branch) && not (is_empty base) && branch == base
    then false
    else not (is_empty branch && not (is_empty base) && has_remote)

-- What git answers while an archive is committed: `ls-files`, the attempts of `add`, of `rm --cached`
-- and of `commit`, and `diff --cached --quiet`.
pub record GitRuns : Type 0 where
  pub ls_files : GitRun
  pub add : ℕ → GitRun
  pub rm : ℕ → GitRun
  pub diff : GitRun
  pub commit : ℕ → GitRun

-- `rc == 0 and bool(out.strip())`
unfoldable pub source_was_tracked : GitRun → Bool
source_was_tracked r = eqb r.returncode 0 && not (is_empty (strip is_space r.stdout))

abbrev committed : GitRuns → Bool
committed runs =
    if eqb runs.diff.returncode 0
    then true
    else if eqb (run_git_retry_index_lock runs.commit).0.returncode 0
    then true
    else not (source_was_tracked runs.ls_files)

abbrev removed : GitRuns → GitRun → Bool
removed runs r =
    if not (eqb r.returncode 0) && stderr_indicates_index_lock r.stderr
    then not (source_was_tracked runs.ls_files)
    else committed runs

abbrev staged : GitRuns → Bool × Bool × Text → Bool
staged runs (false, _, err) = not (source_was_tracked runs.ls_files)
staged runs (true, _, err) = removed runs (run_git_retry_index_lock runs.rm).0

-- `_auto_commit_archive`
unfoldable pub auto_commit_archive : Bool → List Text → GitRuns → Bool
auto_commit_archive enabled [] runs = true
auto_commit_archive false (p ∷ paths) runs = true
auto_commit_archive true (p ∷ paths) runs = staged runs (safe_git_add (p ∷ paths) true runs.add)

-- The arguments of the command, the clock, the sessions' file system, the setting, whether there is a
-- remote, and git.
pub record ArchiveRun : Type 0 where
  pub name : Text
  pub skip_branch_validation : Bool
  pub no_commit : Bool
  pub today : Text
  pub year_month : Text
  pub io : Io
  pub session_auto_commit : Bool
  pub has_remote : Bool
  pub git : GitRuns

unfoldable pub completed : Text → Fields → Fields
completed today d =
    assign (lit "completedAt") (str today) (assign (lit "status") (str (lit "completed")) d)

-- `str(path)`
abbrev pub path_text : FilePath → Text
path_text p = b'/' ∷ join (lit "/") p

module _ (host : Host) (repo : FilePath) (run : ArchiveRun) where
  -- The move was made, and the commit is left.
  abbrev pub commit_moved : FilePath → List Text → Option FilePath → Store → Exit × Store
  commit_moved task modified none s = (refused not_moved, s)
  commit_moved task modified (some dest) s =
      let paths =
        safe_archive_paths_to_add (disk_of host s.tree) (λ p. false) repo (some (path_name task))
          modified in
      if run.no_commit || auto_commit_archive run.session_auto_commit paths run.git
      then (done, s)
      else (refused not_committed, s)

  abbrev pub moved : FilePath → List Text → Store → Option FilePath × TreeOf Content → Exit × Store
  moved task modified s (dest, tree) = commit_moved task modified dest (record s { tree = tree })

  -- The sessions that point at the task are cleared, and the directory is moved.
  unfoldable pub archive_move : FilePath → List Text → Store → Exit × Store
  archive_move task modified s =
      let sessions = (clear_task_from_sessions run.io repo (path_text task) s.sessions).1 in
      moved task modified (record s { sessions = sessions })
        (archive_task_dir run.year_month task s.tree)

  abbrev pub archive_unlinked : FilePath → Ended → Exit × Store
  archive_unlinked task (finished modified s) = archive_move task modified s
  archive_unlinked task (stopped links s) =
      (refused child_not_unlinked, restore_child_links host links s)
  archive_unlinked task (failed_on_type s) = (crashed, s)

  abbrev pub archive_children : FilePath → Option (List Json) → Store → Exit × Store
  archive_children task none s = (crashed, s)
  archive_children task (some names) s = archive_unlinked task (
      unlink_children host (λ v. look_up (disk_of host s.tree) v (get_tasks_dir repo)) names [] []
        s)

  abbrev pub archive_marked : FilePath → Fields → Bool × Store → Exit × Store
  archive_marked task d (false, s) = (refused not_written, s)
  archive_marked task d (true, s) = archive_children task (child_names d) s

  abbrev pub archive_checked : FilePath → Checked → Store → Exit × Store
  archive_checked task (failed reason) s = archive_move task [] s
  archive_checked task (read d) s =
      if validate_branch_metadata d run.skip_branch_validation run.has_remote
      then archive_marked task (completed run.today d)
          (write_json host task (completed run.today d) s)
      else (refused bad_branch, s)

  abbrev pub archive_doc : FilePath → Option Read → Store → Exit × Store
  archive_doc task none s = archive_move task [] s
  archive_doc task (some r) s = archive_checked task (read_json_checked r) s

  unfoldable pub archive_resolved : Option FilePath → Store → Exit × Store
  archive_resolved none s = (refused outside, s)
  archive_resolved (some task) s =
      if not (is_dir s.tree task)
      then (refused not_a_task, s)
      else if not (is_within_tasks_dir (disk_of host s.tree) task repo)
      then (refused outside, s)
      else if exists s.tree (archive_destination_for run.year_month task)
      then (refused already_there, s)
      else archive_doc task (doc_at task s.tree) s

  unfoldable pub cmd_archive : Store → Exit × Store
  cmd_archive s =
      if is_empty run.name
      then (refused missing_argument, s)
      else archive_resolved (resolve_task_dir (disk_of host s.tree) run.name repo) s
