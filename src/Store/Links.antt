-- ===== src/Store/Links.antt =====
-- .trellis/scripts/common/task_store.py: `cmd_add_subtask`, `cmd_remove_subtask` and the commands that
-- set one field.
use taihu.Base.{Bool, true, false, Option, none, some, if◌then◌else◌, Text, lit, is_empty}
use taihu.Json.{
  Json, null, str, arr, obj, Items, nil, cons, Fields, end, get, assign, is_true, or_default,
}
use taihu.Files.Tree.{FilePath}
use taihu.Tasks.Info.{Read, Checked, read, failed, read_json_checked}
use taihu.Tasks.Queue.{is_text}
use taihu.Tasks.Dirs.{path_name, resolve_task_dir}
use taihu.Store.State.{
  Store, Host, disk_of, doc_at, write_json, Exit, done, refused, unresolved, missing_argument,
  no_task_json, already_a_child, not_written, half_written, unread,
}

-- The children that are a list, and those of a task.json where they are none.
abbrev pub list_or_nil : Option Json → Items
list_or_nil (some (arr items)) = items
list_or_nil _ = nil

abbrev pub repaired : Option Json → Fields → Fields
repaired (some (arr items)) d = d
repaired _ d = assign (lit "children") (arr nil) d

-- `_ensure_children_list`: the document that it leaves.
unfoldable pub ensure_children_list : Fields → Fields
ensure_children_list d = repaired (get (lit "children") d) d

abbrev pub children_of : Fields → Items
children_of d = list_or_nil (get (lit "children") d)

-- `name in items`, `items.append(name)` and `items.remove(name)`.
unfoldable pub lists : Text → Items → Bool
lists name nil = false
lists name (cons v items) = if is_text name v then true else lists name items

unfoldable pub append : Text → Items → Items
append name nil = cons (str name) nil
append name (cons v items) = cons v (append name items)

unfoldable pub remove_first : Text → Items → Items
remove_first name nil = nil
remove_first name (cons v items) =
    if is_text name v then items else cons v (remove_first name items)

unfoldable pub add_child : Text → Fields → Fields
add_child name d =
    if lists name (children_of d)
    then ensure_children_list d
    else assign (lit "children") (arr (append name (children_of d))) (ensure_children_list d)

unfoldable pub drop_child : Text → Fields → Fields
drop_child name d =
    if lists name (children_of d)
    then assign (lit "children") (arr (remove_first name (children_of d))) (ensure_children_list d)
    else ensure_children_list d

abbrev pub dict_or_end : Option Json → Fields
dict_or_end (some (obj d)) = d
dict_or_end _ = end

unfoldable pub with_meta : Text → Text → Fields → Fields
with_meta key value d =
    assign (lit "meta") (obj (assign key (str value) (dict_or_end (get (lit "meta") d)))) d

module _ (host : Host) where
  -- The child's task.json is written if the parent's was.
  abbrev pub write_child : FilePath → Fields → Bool × Store → Exit × Store
  write_child c cd (false, s) = (refused not_written, s)
  write_child c cd (true, s) =
      let (landed, after) = write_json host c cd s in
      if landed then (done, after) else (refused half_written, after)

  unfoldable pub write_both : FilePath → Fields → FilePath → Fields → Store → Exit × Store
  write_both p pd c cd s = write_child c cd (write_json host p pd s)

  -- What a command does with two tasks whose task.json it can read.
  abbrev pub Pair : Type 0
  Pair = FilePath → Fields → FilePath → Fields → Store → Exit × Store

  abbrev pub with_checked : Pair → FilePath → FilePath → Checked → Checked → Store → Exit × Store
  with_checked act p c (failed reason) cr s = (refused (unread reason), s)
  with_checked act p c (read pd) (failed reason) s = (refused (unread reason), s)
  with_checked act p c (read pd) (read cd) s = act p pd c cd s

  abbrev pub with_reads :
      Pair → FilePath → FilePath → Option Read → Option Read → Store → Exit × Store
  with_reads act p c (some pr) (some cr) s =
      with_checked act p c (read_json_checked pr) (read_json_checked cr) s
  with_reads act p c _ _ s = (refused no_task_json, s)

  abbrev pub with_pair : Pair → Option FilePath → Option FilePath → Store → Exit × Store
  with_pair act (some p) (some c) s = with_reads act p c (doc_at p s.tree) (doc_at c s.tree) s
  with_pair act _ _ s = (refused unresolved, s)

  unfoldable pub link : Pair
  link p pd c cd s =
      if is_true (or_default null (get (lit "parent") cd))
      then (refused already_a_child, s)
      else write_both p (add_child (path_name c) pd) c
          (assign (lit "parent") (str (path_name p)) cd) s

  unfoldable pub unlink : Pair
  unlink p pd c cd s =
      write_both p (drop_child (path_name c) pd) c (assign (lit "parent") null cd) s

  unfoldable pub cmd_add_subtask : FilePath → Text → Text → Store → Exit × Store
  cmd_add_subtask repo parent_arg child_arg s =
      let find_dir = λ (arg : Text). resolve_task_dir (disk_of host s.tree) arg repo in
      with_pair link (find_dir parent_arg) (find_dir child_arg) s

  unfoldable pub cmd_remove_subtask : FilePath → Text → Text → Store → Exit × Store
  cmd_remove_subtask repo parent_arg child_arg s =
      let find_dir = λ (arg : Text). resolve_task_dir (disk_of host s.tree) arg repo in
      with_pair unlink (find_dir parent_arg) (find_dir child_arg) s

  -- The commands that change one task.json.
  abbrev pub set_written : Bool × Store → Exit × Store
  set_written (true, s) = (done, s)
  set_written (false, s) = (refused not_written, s)

  abbrev pub set_checked : (Fields → Fields) → FilePath → Checked → Store → Exit × Store
  set_checked change p (failed reason) s = (refused (unread reason), s)
  set_checked change p (read d) s = set_written (write_json host p (change d) s)

  abbrev pub set_read : (Fields → Fields) → FilePath → Option Read → Store → Exit × Store
  set_read change p none s = (refused no_task_json, s)
  set_read change p (some r) s = set_checked change p (read_json_checked r) s

  -- The directory is resolved first, and then the argument is tested.
  unfoldable pub change_task : (Fields → Fields) → Text → Option FilePath → Store → Exit × Store
  change_task change given none s = (refused unresolved, s)
  change_task change given (some p) s =
      if is_empty given
      then (refused missing_argument, s)
      else set_read change p (doc_at p s.tree) s

  unfoldable pub set_text : Text → FilePath → Text → Text → Store → Exit × Store
  set_text key repo arg value s =
      change_task (assign key (str value)) value (resolve_task_dir (disk_of host s.tree) arg repo) s

  abbrev pub cmd_set_branch : FilePath → Text → Text → Store → Exit × Store
  cmd_set_branch = set_text (lit "branch")

  abbrev pub cmd_set_base_branch : FilePath → Text → Text → Store → Exit × Store
  cmd_set_base_branch = set_text (lit "base_branch")

  abbrev pub cmd_set_scope : FilePath → Text → Text → Store → Exit × Store
  cmd_set_scope = set_text (lit "scope")

  unfoldable pub cmd_set_meta : FilePath → Text → Text → Text → Store → Exit × Store
  cmd_set_meta repo arg key value s =
      change_task (with_meta key value) key (resolve_task_dir (disk_of host s.tree) arg repo) s
