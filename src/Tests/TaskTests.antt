-- ===== src/Tests/TaskTests.antt =====
-- .trellis/scripts/common: tasks.py, task_queue.py and task_utils.py at concrete directories.
use taihu.Base.{
  none, All, if◌then◌else◌, arith, ◌≡◌, refl, sym, ◌∙◌, true, not, some, [], ◌∷◌, ◌++◌, Text, lit,
  ◌==◌, starts_with, ends_with, has, is_abs, split_slash,
}
use taihu.Json.{null, str, arr, obj, nil, Fields, end, field, get, is_true}
use taihu.Files.Tree.{FilePath, same_path}
use taihu.Tasks.Info.{
  TaskInfo, parsed, Entry, task, type_error, load_task, load_checked, read_json_checked, tuple,
}
use taihu.Tasks.Queue.{Stats, count_tasks, count_priority, is_hashable, get_task_stats, no_tasks}
use taihu.Tasks.QueueLaws.{
  CountedAll, get_task_stats-CountedAll, is_candidate, Loads, Listing, iter_active_tasks-Listed,
}
use taihu.Tasks.Plain.{is_plain}
use taihu.Tasks.Refs.{Disk, join_at, path_parts}
use taihu.Tasks.Dirs.{
  find_task_by_name, Found, IsName, suffix_matches, is_invalid_name, find_task_by_name-Found,
}

abbrev document : Fields
document =
    field (lit "title") (str (lit "First"))
      (field (lit "priority") (str (lit "P1")) (field (lit "children") (arr nil) end))

abbrev entry_a : Entry
entry_a = record {
  entry_name = lit "01-02-a";
  is_directory = true;
  task_json = some (parsed (obj document));
}

abbrev task_a : TaskInfo
task_a = record {
  dir_name = lit "01-02-a";
  title = str (lit "First");
  status = str (lit "unknown");
  assignee = str [];
  priority = str (lit "P1");
  children = [];
  parent = null;
  raw_package = null;
  raw = document;
}

abbrev entry_null : Entry
entry_null = record {
  entry_name = lit "01-03-b";
  is_directory = true;
  task_json = some (parsed (obj (field (lit "children") null end)));
}

a_counts : is_candidate entry_a ≡ true
unfolding ◌==◌
a_counts = refl

null_counts : is_candidate entry_null ≡ true
unfolding ◌==◌
null_counts = refl

a_loaded : load_task entry_a ≡ task task_a
unfolding load_task load_checked read_json_checked get ◌==◌ tuple is_true
a_loaded = refl

null_crashes : load_task entry_null ≡ type_error
unfolding load_task load_checked read_json_checked get ◌==◌ tuple is_true
null_crashes = refl

a_no_error : Loads entry_a
a_no_error c e = let f : task task_a ≡ type_error = sym a_loaded ∙ e in ground arith

iter_active_tasks-Listed_example : Listing (entry_a ∷ [])
iter_active_tasks-Listed_example = iter_active_tasks-Listed (entry_a ∷ []) (a_no_error, tt)

abbrev total_task : TaskInfo
total_task = record task_a { priority = str (lit "Total") }

abbrev three : Stats
three = record no_tasks { p1 = 1; total = 3 }

stats_run : get_task_stats (task_a ∷ total_task ∷ []) ≡ some three
unfolding get_task_stats count_tasks count_priority is_hashable ◌==◌
stats_run = refl

get_task_stats-CountedAll_example : CountedAll no_tasks (task_a ∷ total_task ∷ []) three
get_task_stats-CountedAll_example =
    get_task_stats-CountedAll (task_a ∷ total_task ∷ []) three stats_run

-- A disk without links, on which every path is a directory; a path with a part `..` is refused.
abbrev disk : Disk
disk = record {
  resolve = λ p. if is_plain p then some p else none;
  is_dir = λ p. true;
  names = λ p. lit "01-02-a" ∷ lit "01-03-b" ∷ [];
}

abbrev repo : FilePath
repo = lit "work" ∷ []

abbrev task_path : FilePath
task_path = lit "work" ∷ lit ".trellis" ∷ lit "tasks" ∷ lit "01-02-a" ∷ []

abbrev tasks : FilePath
tasks = lit "work" ∷ lit ".trellis" ∷ lit "tasks" ∷ []

-- The same disk without a task named `a` in full.
abbrev dated : Disk
dated = record disk { is_dir = λ p. not (same_path p (tasks ++ (lit "a" ∷ []))) }

dated_names : All (IsName dated) (dated.names tasks)
unfolding has ◌==◌
dated_names = (
  record { segment = record { no_slash = refl; kept = refl }; not_up = refl },
  (record { segment = record { no_slash = refl; kept = refl }; not_up = refl }, tt),
)

found_run : find_task_by_name dated (lit "a") tasks ≡ some task_path
unfolding find_task_by_name is_invalid_name suffix_matches same_path has ends_with starts_with ◌==◌
    join_at is_abs path_parts split_slash
found_run = refl

find_task_by_name-Found_example :
    (d : Text) × (task_path ≡ tasks ++ (d ∷ []))
    × (dated.is_dir task_path ≡ true)
    × Found dated (lit "a") tasks d
    × IsName dated d
find_task_by_name-Found_example =
    find_task_by_name-Found dated (lit "a") tasks task_path dated_names found_run
