-- ===== src/Store/Renaming.antt =====
-- .trellis/scripts/common/task_store.py: `cmd_rename` and `_apply_rename`.
use taihu.Base.{
  ℕ, suc, Bool, true, false, not, ◌&&◌, Option, none, some, List, [], ◌∷◌, ◌++◌, if◌then◌else◌,
  Text, lit, ◌==◌, is_empty,
}
use taihu.Json.{null, str, Fields, get, assign, or_default}
use taihu.Files.Tree.{
  FilePath, file, TreeOf, is_dir, exists, parent, set_node, relative_to, list_dir,
}
use taihu.Files.Move.{move_tree}
use taihu.Tasks.Info.{Read, Checked, read, failed, read_json_checked}
use taihu.Tasks.Queue.{is_text}
use taihu.Tasks.Dirs.{get_tasks_dir, path_name, resolve_task_dir, is_within_tasks_dir}
use taihu.Active.Sessions.{Io, as_posix}
use taihu.Active.Pointer.{repoint_task_in_sessions}
use taihu.Store.State.{
  Content, text, Store, Host, disk_of, doc_at, write_json, Exit, done, refused, unresolved,
  not_a_task, outside, bad_slug, same_name, already_there, already_archived, no_task_json, unread,
  not_written, interrupted, not_moved,
}
use taihu.Store.Slugs.{split_date_prefix, validate_rename_slug}
use taihu.Store.Archiving.{path_text}
use taihu.Store.Rewriting.{Change, plan_backrefs, plan_jsonl_rewrites}

-- The first month of the archive with a directory of that name.
unfoldable pub find_in_months : TreeOf Content → FilePath → Text → List Text → Option FilePath
find_in_months tree archive name [] = none
find_in_months tree archive name (month ∷ months) =
    let rest = find_in_months tree archive name months in
    if is_dir tree (archive ++ (month ∷ [])) && is_dir tree (archive ++ (month ∷ name ∷ []))
    then some (archive ++ (month ∷ name ∷ []))
    else rest

-- `_find_archived_task_by_dir_name`
unfoldable pub find_archived_task : TreeOf Content → FilePath → Text → Option FilePath
find_archived_task tree tasks name =
    let archive = tasks ++ (lit "archive" ∷ []) in
    if is_dir tree archive then find_in_months tree archive name (list_dir archive tree) else none

abbrev posix_or_text : FilePath → Option FilePath → Text
posix_or_text p none = path_text p
posix_or_text p (some rel) = as_posix rel

-- `_repo_relative_path`
unfoldable pub repo_relative_path : FilePath → FilePath → Text
repo_relative_path p repo = posix_or_text p (relative_to repo p)

-- `_RenamePlan`, without what is only reported.
pub record RenamePlan : Type 0 where
  pub task_dir : FilePath
  pub new_dir : FilePath
  pub task_data : Fields
  pub identity : List Text
  pub slug : Text
  pub jsonl : List (FilePath × List ℕ × Text)
  pub backrefs : List Change

-- The identity fields that differ from the slug.
unfoldable pub changed_fields : Text → Fields → List Text → List Text
changed_fields slug d [] = []
changed_fields slug d (key ∷ keys) =
    let rest = changed_fields slug d keys in
    if is_text slug (or_default null (get key d)) then rest else key ∷ rest

abbrev pub rename_identity_fields : List Text
rename_identity_fields = lit "id" ∷ lit "name" ∷ []

unfoldable pub with_identity : Text → List Text → Fields → Fields
with_identity slug [] d = d
with_identity slug (key ∷ keys) d = with_identity slug keys (assign key (str slug) d)

-- Each step goes on with the store if its write comes through.
abbrev pub and_then : (Store → Bool × Store) → Bool × Store → Bool × Store
and_then next (false, s) = (false, s)
and_then next (true, s) = next s

module _ (host : Host) where
  -- `write_text`, whose failure is an OSError.
  unfoldable pub write_text : FilePath → Text → Store → Bool × Store
  write_text p s store =
      if host.lands store.writes
      then (
        true,
        record store {
          tree = set_node p (file (text (some s))) store.tree;
          writes = suc store.writes;
        },
      )
      else (false, record store { writes = suc store.writes })

  unfoldable pub write_files : List (FilePath × List ℕ × Text) → Store → Bool × Store
  write_files [] s = (true, s)
  write_files ((p, numbers, new) ∷ files) s = and_then (write_files files) (write_text p new s)

  unfoldable pub write_changes : List Change → Store → Bool × Store
  write_changes [] s = (true, s)
  write_changes ((p, d, labels) ∷ changes) s =
      and_then (write_changes changes) (write_json host p d s)

  unfoldable pub write_identity : RenamePlan → Store → Bool × Store
  write_identity plan s =
      if is_empty plan.identity
      then (true, s)
      else write_json host plan.task_dir (with_identity plan.slug plan.identity plan.task_data) s

  -- The move of the directory, which counts as a write, and then the sessions.
  abbrev pub move_dir : Io → FilePath → RenamePlan → Store → Exit × Store
  move_dir io repo plan s =
      if host.lands s.writes
      then (
        done,
        record s {
          tree = move_tree plan.task_dir plan.new_dir s.tree;
          sessions =
              (repoint_task_in_sessions io repo (path_text plan.task_dir) (path_text plan.new_dir)
                s.sessions).1;
          writes = suc s.writes;
        },
      )
      else (refused not_moved, record s { writes = suc s.writes })

  abbrev pub changes_written : Io → FilePath → RenamePlan → Bool × Store → Exit × Store
  changes_written io repo plan (false, s) = (refused interrupted, s)
  changes_written io repo plan (true, s) = move_dir io repo plan s

  abbrev pub identity_written : Io → FilePath → RenamePlan → Bool × Store → Exit × Store
  identity_written io repo plan (false, s) = (refused not_written, s)
  identity_written io repo plan (true, s) =
      changes_written io repo plan
        (and_then (write_changes plan.backrefs) (write_files plan.jsonl s))

  -- `_apply_rename`; `io` is the file system that the sessions see after the move.
  unfoldable pub apply_rename : Io → FilePath → RenamePlan → Store → Exit × Store
  apply_rename io repo plan s = identity_written io repo plan (write_identity plan s)

-- The arguments of the command, the file system after the move, and the decimal digits beyond ASCII.
pub record RenameRun : Type 0 where
  pub name : Text
  pub new_slug : Text
  pub dry_run : Bool
  pub io_after : Io
  pub wide : ℕ → Option ℕ

abbrev pub prefixed : Text → Text → Text
prefixed [] slug = slug
prefixed (c ∷ date) slug = (c ∷ date) ++ (b'-' ∷ slug)

-- What the command plans.
abbrev pub plan_rename : FilePath → FilePath → FilePath → Text → Fields → Store → RenamePlan
plan_rename repo task new_dir slug d s = record {
  task_dir = task;
  new_dir = new_dir;
  task_data = d;
  identity = changed_fields slug d rename_identity_fields;
  slug = slug;
  jsonl =
      plan_jsonl_rewrites (repo_relative_path task repo) (repo_relative_path new_dir repo) task
        s.tree;
  backrefs =
      (plan_backrefs s.tree (get_tasks_dir repo) task (path_name task) (path_name new_dir)).0;
}

module _ (host : Host) (repo : FilePath) (run : RenameRun) where
  abbrev pub rename_checked : FilePath → FilePath → Text → Checked → Store → Exit × Store
  rename_checked task new_dir slug (failed reason) s = (refused (unread reason), s)
  rename_checked task new_dir slug (read d) s =
      if run.dry_run
      then (done, s)
      else apply_rename host run.io_after repo (plan_rename repo task new_dir slug d s) s

  abbrev pub rename_doc : FilePath → FilePath → Text → Option Read → Store → Exit × Store
  rename_doc task new_dir slug none s = (refused no_task_json, s)
  rename_doc task new_dir slug (some r) s = rename_checked task new_dir slug (read_json_checked r) s

  abbrev pub rename_free : FilePath → FilePath → Text → Option FilePath → Store → Exit × Store
  rename_free task new_dir slug (some archived) s = (refused already_archived, s)
  rename_free task new_dir slug none s = rename_doc task new_dir slug (doc_at task s.tree) s

  abbrev pub rename_to : FilePath → Text → Text → Store → Exit × Store
  rename_to task slug new_name s =
      let new_dir = parent task ++ (new_name ∷ []) in
      if new_name == path_name task
      then (refused same_name, s)
      else if exists s.tree new_dir
      then (refused already_there, s)
      else rename_free task new_dir slug (find_archived_task s.tree (get_tasks_dir repo) new_name) s

  abbrev pub rename_slug : FilePath → Text → Option Text → Store → Exit × Store
  rename_slug task date none s = (refused bad_slug, s)
  rename_slug task date (some slug) s = rename_to task slug (prefixed date slug) s

  unfoldable pub rename_resolved : Option FilePath → Store → Exit × Store
  rename_resolved none s = (refused unresolved, s)
  rename_resolved (some task) s =
      if not (is_dir s.tree task)
      then (refused not_a_task, s)
      else if not (is_within_tasks_dir (disk_of host s.tree) task repo)
      then (refused outside, s)
      else (let date = (split_date_prefix run.wide (path_name task)).0 in
          rename_slug task date (validate_rename_slug run.wide run.new_slug date) s)

  unfoldable pub cmd_rename : Store → Exit × Store
  cmd_rename s = rename_resolved (resolve_task_dir (disk_of host s.tree) run.name repo) s
