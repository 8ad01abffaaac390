-- ===== src/Tasks/Queue.antt =====
-- .trellis/scripts/common/task_queue.py: the lists of tasks and their counts by priority.
use taihu.Base.{
  ℕ, suc, Bool, true, false, not, ◌||◌, Option, none, some, List, [], ◌∷◌, ◌++◌, if◌then◌else◌,
  Text, lit, ◌==◌, show_nat, is_empty,
}
use taihu.Json.{Json, str, arr, obj, Items, nil, cons, Fields, end, field, get, or_default}
use taihu.Tasks.Info.{TaskInfo, either}

abbrev items_of : List Json → Items
items_of [] = nil
items_of (v ∷ vs) = cons v (items_of vs)

unfoldable pub task_to_dict : TaskInfo → Fields
task_to_dict t = field (lit "priority") t.priority (
    field (lit "id") (or_default (str []) (get (lit "id") t.raw)) (
      field (lit "title") t.title (
        field (lit "status") t.status (
          field (lit "assignee") (either t.assignee (str (lit "-"))) (
            field (lit "dir") (str t.dir_name) (
              field (lit "children") (arr (items_of t.children))
                (field (lit "parent") t.parent end)))))))

-- `v == s` for a text `s`.
abbrev pub is_text : Text → Json → Bool
is_text s (str t) = t == s
is_text s _ = false

-- The test of a status filter, which `None` and the empty text pass.
unfoldable pub passes : Option Text → TaskInfo → Bool
passes none t = true
passes (some s) t = is_empty s || is_text s t.status

-- The loop over the tasks, which are those of `iter_active_tasks`.
unfoldable pub list_tasks_by_status : Option Text → List TaskInfo → List Fields
list_tasks_by_status status [] = []
list_tasks_by_status status (t ∷ ts) =
    let rest = list_tasks_by_status status ts in
    if passes status t then task_to_dict t ∷ rest else rest

unfoldable pub list_pending_tasks : List TaskInfo → List Fields
list_pending_tasks ts = list_tasks_by_status (some (lit "planning")) ts

unfoldable pub list_tasks_by_assignee : Text → Option Text → List TaskInfo → List Fields
list_tasks_by_assignee assignee status [] = []
list_tasks_by_assignee assignee status (t ∷ ts) =
    let rest = list_tasks_by_assignee assignee status ts in
    if not (is_text assignee (either t.assignee (str (lit "-"))))
    then rest
    else if not (passes status t)
    then rest
    else task_to_dict t ∷ rest

-- `none` is the ValueError of a checkout without a developer.
unfoldable pub list_my_tasks : Option Text → Option Text → List TaskInfo → Option (List Fields)
list_my_tasks none status ts = none
list_my_tasks (some []) status ts = none
list_my_tasks (some (c ∷ developer)) status ts =
    some (list_tasks_by_assignee (c ∷ developer) status ts)

pub record Stats : Type 0 where
  pub p0 : ℕ
  pub p1 : ℕ
  pub p2 : ℕ
  pub p3 : ℕ
  pub total : ℕ

-- `stats[priority] += 1` for a priority that is a key; "Total" is one too.
unfoldable pub count_priority : Json → Stats → Stats
count_priority (str p) s =
    if p == lit "P0"
    then record s { p0 = suc s.p0 }
    else if p == lit "P1"
    then record s { p1 = suc s.p1 }
    else if p == lit "P2"
    then record s { p2 = suc s.p2 }
    else if p == lit "P3"
    then record s { p3 = suc s.p3 }
    else if p == lit "Total"
    then record s { total = suc s.total }
    else s
count_priority _ s = s

-- Lists and dicts have no hash: the test for the key raises a TypeError.
unfoldable pub is_hashable : Json → Bool
is_hashable (arr items) = false
is_hashable (obj d) = false
is_hashable _ = true

-- The loop, with the counts so far.
unfoldable pub count_tasks : Stats → List TaskInfo → Option Stats
count_tasks s [] = some s
count_tasks s (t ∷ ts) = elim (is_hashable t.priority) [
  | false ↦ none
  | true ↦
      let counted = count_priority t.priority s in
      count_tasks (record counted { total = suc counted.total }) ts
]

abbrev pub no_tasks : Stats
no_tasks = record { p0 = 0; p1 = 0; p2 = 0; p3 = 0; total = 0 }

unfoldable pub get_task_stats : List TaskInfo → Option Stats
get_task_stats ts = count_tasks no_tasks ts

unfoldable pub format_task_stats : Stats → Text
format_task_stats s =
    lit "P0:"
    ++ (show_nat s.p0
        ++ (lit " P1:"
            ++ (show_nat s.p1
                ++ (lit " P2:"
                    ++ (show_nat s.p2
                        ++ (lit " P3:"
                            ++ (show_nat s.p3 ++ (lit " Total:" ++ show_nat s.total))))))))
