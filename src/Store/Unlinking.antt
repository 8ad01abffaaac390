-- ===== src/Store/Unlinking.antt =====
-- .trellis/scripts/common/task_store.py: the part of `cmd_archive` that takes the parent away from the
-- children, and `_restore_child_links`.
use taihu.Base.{
  Bool, true, false, not, ◌||◌, Option, none, some, List, [], ◌∷◌, ◌++◌, if◌then◌else◌, Text, lit,
}
use taihu.Json.{Json, null, str, arr, obj, nil, Fields, get, assign, is_true, or_default}
use taihu.Files.Tree.{FilePath, same_path, is_some}
use taihu.Tasks.Refs.{Disk}
use taihu.Tasks.Info.{Read, Checked, read, failed, read_json_checked, tuple}
use taihu.Tasks.Dirs.{path_name, find_task_by_name}
use taihu.Store.State.{Store, Host, doc_at, write_json}
use taihu.Store.Links.{lists}

-- `data.get("children", [])`, if it is true: its elements, or `none` for the TypeError of what has none.
abbrev elements : Json → Option (List Json)
elements v = if is_true v then tuple v else some []

unfoldable pub child_names : Fields → Option (List Json)
child_names d = elements (or_default (arr nil) (get (lit "children") d))

-- What looking a child up comes to. A name that is no text raises a TypeError, if it does not hold a
-- separator as an element.
pub data Found : Type 0 where
  nothing type_error : Found
  child : FilePath → Found

abbrev found_at : Option FilePath → Found
found_at none = nothing
found_at (some p) = child p

unfoldable pub look_up : Disk → Json → FilePath → Found
look_up disk (str s) tasks = found_at (find_task_by_name disk s tasks)
look_up disk (arr items) tasks =
    if not (is_true (arr items)) || not (disk.is_dir tasks)
    then nothing
    else if lists (lit "/") items || lists (lit "\\") items
    then nothing
    else type_error
look_up disk (obj d) tasks =
    if not (is_true (obj d)) || not (disk.is_dir tasks)
    then nothing
    else if is_some (get (lit "/") d) || is_some (get (lit "\\") d)
    then nothing
    else type_error
look_up disk v tasks = if not (is_true v) || not (disk.is_dir tasks) then nothing else type_error

-- The parents that were taken away, with the directories of the children, in the order of the visits.
abbrev pub Taken : Type 0
Taken = List (FilePath × Json)

unfoldable pub taken_at : FilePath → Taken → Option Json
taken_at q [] = none
taken_at q ((p, v) ∷ links) = if same_path p q then some v else taken_at q links

-- Only the first visit records the parent.
abbrev pub remember_new : Option Json → FilePath → Json → Taken → Taken
remember_new none p v links = links ++ ((p, v) ∷ [])
remember_new (some w) p v links = links

unfoldable pub remember : FilePath → Json → Taken → Taken
remember p v links = remember_new (taken_at p links) p v links

-- What the visit of one name comes to: the child has no task.json that can be read, the parent that
-- it had is taken away, or the write fails.
pub data Visit : Type 0 where
  skipped raised : Visit
  cleared : FilePath → Json → Store → Visit
  blocked : Store → Visit

-- How the loop ends.
pub data Ended : Type 0 where
  finished : List Text → Store → Ended
  stopped : Taken → Store → Ended
  failed_on_type : Store → Ended

abbrev pub parent_of : Fields → Json
parent_of d = or_default null (get (lit "parent") d)

module _ (host : Host) where
  abbrev pub visit_written : FilePath → Json → Bool × Store → Visit
  visit_written p v (true, s) = cleared p v s
  visit_written p v (false, s) = blocked s

  abbrev pub visit_checked : FilePath → Checked → Store → Visit
  visit_checked p (failed reason) s = skipped
  visit_checked p (read d) s =
      visit_written p (parent_of d) (write_json host p (assign (lit "parent") null d) s)

  abbrev pub visit_doc : FilePath → Option Read → Store → Visit
  visit_doc p none s = skipped
  visit_doc p (some r) s = visit_checked p (read_json_checked r) s

  unfoldable pub visit : Found → Store → Visit
  visit nothing s = skipped
  visit type_error s = raised
  visit (child p) s = visit_doc p (doc_at p s.tree) s

  -- The loop over the names, with the links and the directory names gathered so far; `find` looks a
  -- name up in directories that the loop does not change.
  unfoldable pub unlink_children : (Json → Found) → List Json → Taken → List Text → Store → Ended
  unlink_children find [] links modified s = finished modified s
  unlink_children find (v ∷ vs) links modified s = elim (visit (find v) s) [
    | skipped ↦ unlink_children find vs links modified s
    | raised ↦ failed_on_type s
    | blocked after ↦ stopped links after
    | cleared p w after ↦
        unlink_children find vs (remember p w links) (modified ++ (path_name p ∷ [])) after
  ]

  abbrev pub restore_checked : FilePath → Json → Checked → Store → Store
  restore_checked p v (failed reason) s = s
  restore_checked p v (read d) s = (write_json host p (assign (lit "parent") v d) s).1

  abbrev pub restore_doc : FilePath → Json → Option Read → Store → Store
  restore_doc p v none s = s
  restore_doc p v (some r) s = restore_checked p v (read_json_checked r) s

  -- `_restore_child_links`
  unfoldable pub restore_child_links : Taken → Store → Store
  restore_child_links [] s = s
  restore_child_links ((p, v) ∷ links) s =
      restore_child_links links (restore_doc p v (doc_at p s.tree) s)
