-- ===== src/Tests/StoreTests.antt =====
-- .trellis/scripts/common/task_store.py: the commands on two concrete tasks.
use taihu.Base.{
  ℕ, ◌≡◌, ◌≢◌, refl, inl, inr, ◌⊎◌, arith, true, false, none, some, [], ◌∷◌, ◌++◌, Text, lit, ◌==◌,
  eqb, has, starts_with, split_slash,
}
use taihu.Json.{null, str, arr, obj, nil, cons, Fields, end, field, get, assign, is_true}
use taihu.Files.Tree
use taihu.Files.Tree.{
  FilePath, same_path, NodeOf, dir, file, TreeOf, is_dir, exists, node_at, parent, set_node,
  relative_to, make_dirs, make_dirs_below, enter_dir, write_file, list_dir,
}
use taihu.Tasks.Refs.{path_parts, drop_dots, forward, join_at}
use taihu.Tasks.Info.{parsed, read_json_checked}
use taihu.Tasks.Dirs.{
  get_tasks_dir, path_name, resolve_task_dir, task_candidate, is_within_tasks_dir,
}
use taihu.Store.State.{
  Content, json, Store, Host, disk_of, doc_at, put_doc, write_json, Exit, done, refused, unresolved,
}
use taihu.Store.Links.{
  lists, append, remove_first, add_child, drop_child, ensure_children_list, write_both, link,
  unlink, cmd_add_subtask, cmd_remove_subtask,
}
use taihu.Store.LinkLaws.{Lists, Records, OthersSame, cmd_add_subtask-Linked}
use taihu.Store.Links.{children_of}
use taihu.Store.UnlinkLaws.{
  SameChildren, doc_eq, cmd_remove_subtask-cmd_add_subtask, subtask-refused, cmd_add_subtask_self,
}
use taihu.Store.Slugs.{validate_rename_slug}
use taihu.Store.NameLaws.{IsPlainName, validate_rename_slug-IsPlainName}
use taihu.Store.Rewriting.{rename_refs}
use taihu.Store.RewriteLaws.{RefsRenamed, rename_refs-RefsRenamed}

abbrev pub repo : FilePath
repo = lit "r" ∷ []

abbrev pub tasks : FilePath
tasks = lit "r" ∷ lit ".trellis" ∷ lit "tasks" ∷ []

abbrev pub task_a : FilePath
task_a = tasks ++ (lit "a" ∷ [])

abbrev pub task_b : FilePath
task_b = tasks ++ (lit "b" ∷ [])

abbrev pub doc_a : Fields
doc_a = field (lit "name") (str (lit "a")) (field (lit "children") (arr nil) end)

abbrev pub doc_b : Fields
doc_b = field (lit "name") (str (lit "b")) (field (lit "parent") null end)

abbrev pub dirs : TreeOf Content
dirs =
    (lit "r" ∷ [], dir)
    ∷ (lit "r" ∷ lit ".trellis" ∷ [], dir)
    ∷ (tasks, dir)
    ∷ (task_a, dir)
    ∷ (task_b, dir)
    ∷ []

abbrev pub tree : TreeOf Content
tree =
    dirs
    ++ ((task_a ++ (lit "task.json" ∷ []), file (json (parsed (obj doc_a))))
        ∷ (task_b ++ (lit "task.json" ∷ []), file (json (parsed (obj doc_b))))
        ∷ [])

abbrev pub host : Host
host = record { resolve = some; lands = λ n. true }

abbrev pub store : Store
store = record { tree = tree; sessions = []; writes = 0 }

pub a_run : resolve_task_dir (disk_of host tree) (lit "/r/.trellis/tasks/a") repo ≡ some task_a
unfolding resolve_task_dir task_candidate join_at get_tasks_dir path_parts drop_dots forward
    relative_to ◌==◌ has starts_with split_slash taihu.Base.is_abs
a_run = refl

b_run : resolve_task_dir (disk_of host tree) (lit "/r/.trellis/tasks/b") repo ≡ some task_b
unfolding resolve_task_dir task_candidate join_at get_tasks_dir path_parts drop_dots forward
    relative_to ◌==◌ has starts_with split_slash taihu.Base.is_abs
b_run = refl

apart : same_path task_b task_a ≡ false
unfolding same_path ◌==◌
apart = refl

abbrev pub arg_a : Text
arg_a = lit "/r/.trellis/tasks/a"

abbrev arg_b : Text
arg_b = lit "/r/.trellis/tasks/b"

abbrev linked : Exit × Store
linked = cmd_add_subtask host repo arg_a arg_b store

link_run : linked.0 ≡ done
unfolding cmd_add_subtask resolve_task_dir task_candidate join_at get_tasks_dir path_parts drop_dots
    forward relative_to ◌==◌ has starts_with split_slash doc_at Tree.find same_path
    read_json_checked link write_both write_json put_doc get is_true taihu.Base.is_abs
link_run = refl

cmd_add_subtask-Linked_example :
    Lists task_a (path_name task_b) linked.1.tree
    × Records task_b (str (path_name task_a)) linked.1.tree
    × OthersSame task_a task_b tree linked.1.tree
cmd_add_subtask-Linked_example =
    cmd_add_subtask-Linked host repo arg_a arg_b task_a task_b store a_run b_run apart link_run

abbrev unlinked : Exit × Store
unlinked = cmd_remove_subtask host repo arg_a arg_b linked.1

linked_pair : linked ≡ (done, linked.1)
unfolding cmd_add_subtask resolve_task_dir task_candidate taihu.Base.is_abs relative_to
    get_tasks_dir path_parts split_slash ◌==◌ doc_at Tree.find same_path read_json_checked link
    is_true get write_both taihu.Base.ends_with has starts_with Tree.child_name Tree.insert_sorted
    is_dir list_dir node_at set_node Tree.text_le assign add_child append ensure_children_list lists
    put_doc write_json taihu.Tasks.Dirs.find_task_by_name taihu.Tasks.Dirs.is_invalid_name join_at
    path_name taihu.Tasks.Dirs.suffix_matches drop_dots forward taihu.Tasks.Refs.parts
linked_pair = refl

unlinked_pair : unlinked ≡ (done, unlinked.1)
unfolding cmd_remove_subtask resolve_task_dir task_candidate taihu.Base.is_abs relative_to
    get_tasks_dir path_parts split_slash ◌==◌ doc_at Tree.find cmd_add_subtask same_path
    read_json_checked link is_true get taihu.Base.ends_with has starts_with Tree.child_name
    Tree.insert_sorted is_dir list_dir node_at set_node Tree.text_le assign add_child append
    drop_child ensure_children_list lists remove_first unlink write_both put_doc write_json
    taihu.Tasks.Dirs.find_task_by_name taihu.Tasks.Dirs.is_invalid_name join_at path_name
    taihu.Tasks.Dirs.suffix_matches drop_dots forward taihu.Tasks.Refs.parts
unlinked_pair = refl

a_again : resolve_task_dir (disk_of host linked.1.tree) arg_a repo ≡ some task_a
unfolding resolve_task_dir task_candidate taihu.Base.is_abs relative_to get_tasks_dir path_parts
    split_slash ◌==◌
a_again = refl

b_again : resolve_task_dir (disk_of host linked.1.tree) arg_b repo ≡ some task_b
unfolding resolve_task_dir task_candidate taihu.Base.is_abs relative_to get_tasks_dir path_parts
    split_slash ◌==◌
b_again = refl

pub a_doc : doc_at task_a tree ≡ some (parsed (obj doc_a))
unfolding doc_at Tree.find same_path ◌==◌
a_doc = refl

no_children : lists (path_name task_b) (children_of doc_a) ≡ false
unfolding lists get ◌==◌
no_children = refl

fresh :
    (d : Fields)
    → doc_at task_a tree ≡ some (parsed (obj d))
    → lists (path_name task_b) (children_of d) ≡ false
fresh d h =
    let same : d ≡ doc_a = doc_eq (doc_at task_a tree) d doc_a h a_doc in rw same no_children

cmd_remove_subtask-cmd_add_subtask_example :
    SameChildren task_a tree unlinked.1.tree
    × Records task_b null unlinked.1.tree
    × OthersSame task_a task_b tree unlinked.1.tree
cmd_remove_subtask-cmd_add_subtask_example =
    cmd_remove_subtask-cmd_add_subtask host repo arg_a arg_b task_a task_b store linked.1 unlinked.1
      a_run b_run a_again b_again apart linked_pair unlinked_pair fresh

subtask-refused_example :
    ((cmd_add_subtask host repo (lit "/x") arg_b store).0 ≡ refused unresolved
      → (cmd_add_subtask host repo (lit "/x") arg_b store).1.tree ≡ tree)
    × ((cmd_remove_subtask host repo (lit "/x") arg_b store).0 ≡ refused unresolved
        → (cmd_remove_subtask host repo (lit "/x") arg_b store).1.tree ≡ tree)
subtask-refused_example =
    subtask-refused host repo (lit "/x") arg_b store unresolved (λ h. ground arith)

refused_run : (cmd_add_subtask host repo (lit "/x") arg_b store).0 ≡ refused unresolved
unfolding cmd_add_subtask resolve_task_dir task_candidate taihu.Base.is_abs relative_to
    get_tasks_dir path_parts split_slash ◌==◌
refused_run = refl

self_run : (cmd_add_subtask host repo arg_a arg_a store).0 ≡ done
unfolding cmd_add_subtask resolve_task_dir task_candidate taihu.Base.is_abs relative_to
    get_tasks_dir path_parts split_slash ◌==◌ doc_at Tree.find same_path read_json_checked link
    is_true get write_both taihu.Base.ends_with has starts_with Tree.child_name Tree.insert_sorted
    is_dir list_dir node_at set_node Tree.text_le assign add_child append ensure_children_list lists
    put_doc write_json taihu.Tasks.Dirs.find_task_by_name taihu.Tasks.Dirs.is_invalid_name join_at
    path_name taihu.Tasks.Dirs.suffix_matches drop_dots forward taihu.Tasks.Refs.parts
self_run = refl

cmd_add_subtask_self_example :
    Records task_a (str (path_name task_a)) (cmd_add_subtask host repo arg_a arg_a store).1.tree
    × SameChildren task_a tree (cmd_add_subtask host repo arg_a arg_a store).1.tree
cmd_add_subtask_self_example =
    cmd_add_subtask_self host repo arg_a arg_a task_a store a_run a_run self_run

slug_run : validate_rename_slug (λ c. none) (lit "05-06-new") (lit "05-06") ≡ some (lit "new")
unfolding validate_rename_slug taihu.Store.Slugs.escapes has taihu.Commit.Git.contains starts_with
    taihu.Store.Slugs.split_date_prefix taihu.Store.Slugs.digit_value taihu.Store.Slugs.body_of
    taihu.Base.partition ◌==◌
slug_run = refl

validate_rename_slug-IsPlainName_example : IsPlainName (lit "new")
validate_rename_slug-IsPlainName_example =
    validate_rename_slug-IsPlainName (λ c. none) (lit "05-06-new") (lit "05-06") (lit "new")
      slug_run

abbrev doc_c : Fields
doc_c =
    field (lit "parent") (str (lit "a"))
      (field (lit "children") (arr (cons (str (lit "x")) (cons (str (lit "a")) nil))) end)

rename_refs-RefsRenamed_example :
    RefsRenamed (lit "a") (lit "new") doc_c (rename_refs (lit "a") (lit "new") doc_c)
rename_refs-RefsRenamed_example = rename_refs-RefsRenamed (lit "a") (lit "new") doc_c

rename_refs_run : rename_refs (lit "a") (lit "new") doc_c ≡ (
  field
      (lit "parent")
      (str (lit "new"))
      (field (lit "children") (arr (cons (str (lit "x")) (cons (str (lit "new")) nil))) end),
  lit "parent" ∷ lit "children[1]" ∷ [],
)
unfolding rename_refs taihu.Store.Rewriting.rename_list taihu.Store.Rewriting.rename_parent
    taihu.Store.Rewriting.places get ◌==◌ assign taihu.Store.Rewriting.rename_items
    taihu.Base.show_nat
rename_refs_run = refl
