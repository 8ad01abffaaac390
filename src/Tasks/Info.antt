-- ===== src/Tasks/Info.antt =====
-- .trellis/scripts/common/types.py, io.py and tasks.py: the loaded tasks.
use taihu.Base.{
  ℕ, suc, Bool, true, false, not, ◌||◌, Option, none, some, List, [], ◌∷◌, ◌++◌, map, if◌then◌else◌,
  Text, lit, ◌==◌, length, show_nat,
}
use taihu.Json.{
  Json, null, str, arr, obj, Items, nil, cons, Fields, end, field, get, is_true, or_default,
}

-- What `read_json_checked` finds at a path.
pub data Read : Type 0 where
  missing undecodable unreadable invalid : Read
  parsed : Json → Read

-- Its reasons.
pub data Reason : Type 0 where
  missing_file undecodable_file unreadable_file invalid_json not_object empty_object : Reason

pub data Checked : Type 0 where
  read : Fields → Checked
  failed : Reason → Checked

unfoldable pub read_json_checked : Read → Checked
read_json_checked missing = failed missing_file
read_json_checked undecodable = failed undecodable_file
read_json_checked unreadable = failed unreadable_file
read_json_checked invalid = failed invalid_json
read_json_checked (parsed (obj end)) = failed empty_object
read_json_checked (parsed (obj (field k v d))) = read (field k v d)
read_json_checked (parsed _) = failed not_object

pub record TaskInfo : Type 0 where
  pub dir_name : Text
  pub title : Json
  pub status : Json
  pub assignee : Json
  pub priority : Json
  pub children : List Json
  pub parent : Json
  pub raw_package : Json
  pub raw : Fields

-- The first value that is true, or the last one: `a or b or c`.
abbrev pub either : Json → Json → Json
either a b = if is_true a then a else b

-- `TaskInfo.name`
unfoldable pub name : TaskInfo → Json
name t =
    either (or_default null (get (lit "name") t.raw))
      (either (or_default null (get (lit "id") t.raw)) (str t.dir_name))

abbrev items_list : Items → List Json
items_list nil = []
items_list (cons v items) = v ∷ items_list items

abbrev keys : Fields → List Json
keys end = []
keys (field k v d) = str k ∷ keys d

-- `tuple(value)`, which raises a TypeError (`none`) on what has no elements.
unfoldable pub tuple : Json → Option (List Json)
tuple (arr items) = some (items_list items)
tuple (str s) = some (map (λ c. str (c ∷ [])) s)
tuple (obj d) = some (keys d)
tuple _ = none

-- What loading a directory comes to: no task, a task.json that is announced and skipped, a task, or a
-- TypeError.
pub data Loaded : Type 0 where
  no_task : Loaded
  skipped : Reason → Loaded
  task : TaskInfo → Loaded
  type_error : Loaded

abbrev info_of : Text → Fields → List Json → TaskInfo
info_of dir doc children = record {
  dir_name = dir;
  title =
      either (or_default null (get (lit "title") doc))
        (either (or_default null (get (lit "name") doc)) (str (lit "unknown")));
  status = or_default (str (lit "unknown")) (get (lit "status") doc);
  assignee = or_default (str []) (get (lit "assignee") doc);
  priority = or_default (str (lit "P2")) (get (lit "priority") doc);
  children = children;
  parent = or_default null (get (lit "parent") doc);
  raw_package = or_default null (get (lit "package") doc);
  raw = doc;
}

abbrev task_or_error : Text → Fields → Option (List Json) → Loaded
task_or_error dir doc none = type_error
task_or_error dir doc (some children) = task (info_of dir doc children)

unfoldable pub load_checked : Text → Checked → Loaded
load_checked dir (failed reason) = skipped reason
load_checked dir (read doc) =
    task_or_error dir doc (tuple (or_default (arr nil) (get (lit "children") doc)))

-- An entry of the tasks directory: its name, whether it is a directory, and its task.json, if that is
-- a file.
pub record Entry : Type 0 where
  pub entry_name : Text
  pub is_directory : Bool
  pub task_json : Option Read

abbrev load_read : Text → Option Read → Loaded
load_read dir none = no_task
load_read dir (some r) = load_checked dir (read_json_checked r)

-- `load_task`
unfoldable pub load_task : Entry → Loaded
load_task e = load_read e.entry_name e.task_json

-- What an entry adds to the tasks behind it.
abbrev pub add_loaded : Loaded → Option (List TaskInfo) → Option (List TaskInfo)
add_loaded no_task rest = rest
add_loaded (skipped reason) rest = rest
add_loaded type_error rest = none
add_loaded (task t) none = none
add_loaded (task t) (some ts) = some (t ∷ ts)

-- `iter_active_tasks` on the sorted entries, all of it: the tasks in order, or `none` where a TypeError
-- ends the iteration.
unfoldable pub iter_active_tasks : List Entry → Option (List TaskInfo)
iter_active_tasks [] = some []
iter_active_tasks (e ∷ es) =
    let rest = iter_active_tasks es in
    if not e.is_directory || e.entry_name == lit "archive"
    then rest
    else add_loaded (load_task e) rest

-- `{t.dir_name: t.status for t in ...}`
unfoldable pub statuses : List TaskInfo → Fields
statuses [] = end
statuses (t ∷ ts) = field t.dir_name t.status (statuses ts)

abbrev is_finished : Option Json → Bool
is_finished none = true
is_finished (some (str s)) = s == lit "completed" || s == lit "done"
is_finished (some _) = false

-- The number of children that count as done.
unfoldable pub done_of : List Text → Fields → ℕ
done_of [] all = 0
done_of (c ∷ children) all =
    let rest = done_of children all in if is_finished (get c all) then suc rest else rest

unfoldable pub children_progress : List Text → Fields → Text
children_progress [] all = []
children_progress (c ∷ children) all =
    lit " ["
    ++ (show_nat (done_of (c ∷ children) all)
        ++ (lit "/" ++ (show_nat (length (c ∷ children)) ++ lit " done]")))
