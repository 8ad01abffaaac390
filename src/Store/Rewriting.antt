-- ===== src/Store/Rewriting.antt =====
-- .trellis/scripts/common/task_store.py: the references to a renamed task, in other tasks and in the lines
-- of its own context files.
use taihu.Base.{
  ℕ, zero, suc, ◌-◌, Bool, true, false, not, ◌&&◌, Option, none, some, List, [], ◌∷◌, ◌++◌, eqb,
  if◌then◌else◌, Text, lit, ◌==◌, is_empty, starts_with, reverse, show_nat, length, is_break,
}
use mathlib.Core.List.{map}
use taihu.Json.{Json, str, arr, Items, nil, cons, Fields, get, assign}
use taihu.Files.Tree.{FilePath, same_path, NodeOf, file, TreeOf, find, is_dir, list_dir}
use taihu.Tasks.Info.{Read, Checked, read, failed, read_json_checked}
use taihu.Tasks.Queue.{is_text}
use taihu.Commit.Git.{contains}
use taihu.Store.State.{Content, text, doc_at}
use taihu.Store.Links.{list_or_nil}

-- The elements that are the old name, by their index, and the list with the new name in their places.
unfoldable pub rename_items : Text → Text → Items → Items
rename_items old new nil = nil
rename_items old new (cons v items) =
    cons (if is_text old v then str new else v) (rename_items old new items)

unfoldable pub places : Text → ℕ → Items → List ℕ
places old i nil = []
places old i (cons v items) =
    let rest = places old (suc i) items in if is_text old v then i ∷ rest else rest

-- `f"{list_field}[{index}]"`
abbrev pub label : Text → ℕ → Text
label key i = key ++ (b'[' ∷ (show_nat i ++ lit "]"))

-- One list of references, which is left alone where it is no list.
unfoldable pub rename_list : Text → Text → Text → Fields → Fields × List Text
rename_list old new key d =
    let items = list_or_nil (get key d) in
    let labels = map (label key) (places old 0 items) in
    if is_empty labels then (d, []) else (assign key (arr (rename_items old new items)) d, labels)

abbrev pub is_value : Text → Option Json → Bool
is_value old none = false
is_value old (some v) = is_text old v

unfoldable pub rename_parent : Text → Text → Fields → Fields × List Text
rename_parent old new d =
    if is_value old (get (lit "parent") d)
    then (assign (lit "parent") (str new) d, lit "parent" ∷ [])
    else (d, [])

-- What the loop of `_plan_backrefs` makes of one document, and the labels of what has changed.
unfoldable pub rename_refs : Text → Text → Fields → Fields × List Text
rename_refs old new d =
    let (d1, parent) = rename_parent old new d in
    let (d2, children) = rename_list old new (lit "children") d1 in
    let (d3, subtasks) = rename_list old new (lit "subtasks") d2 in
    (d3, parent ++ (children ++ subtasks))

-- A file to be written, its new document and the labels.
abbrev pub Change : Type 0
Change = FilePath × Fields × List Text

abbrev pub add_change :
    FilePath → Fields × List Text → List Change × List FilePath → List Change × List FilePath
add_change c (d, []) plan = plan
add_change c (d, l ∷ labels) (changes, unreadable) = ((c, d, l ∷ labels) ∷ changes, unreadable)

module _ (old new : Text) where
  abbrev pub plan_checked :
      FilePath → Checked → List Change × List FilePath → List Change × List FilePath
  plan_checked c (failed reason) (changes, unreadable) = (changes, c ∷ unreadable)
  plan_checked c (read d) plan = add_change c (rename_refs old new d) plan

  abbrev pub plan_doc :
      FilePath → Option Read → List Change × List FilePath → List Change × List FilePath
  plan_doc c none plan = plan
  plan_doc c (some r) plan = plan_checked c (read_json_checked r) plan

module _ (tree : TreeOf Content) (tasks task : FilePath) where
  -- The other active tasks.
  abbrev pub is_other : Text → Bool
  is_other name =
      is_dir tree (tasks ++ (name ∷ []))
      && (not (name == lit "archive") && not (same_path (tasks ++ (name ∷ [])) task))

module _ (tree : TreeOf Content) (tasks task : FilePath) (old new : Text) where
  unfoldable pub plan_names : List Text → List Change × List FilePath
  plan_names [] = ([], [])
  plan_names (name ∷ names) =
      let rest = plan_names names in
      if is_other tree tasks task name
      then plan_doc old new (tasks ++ (name ∷ [])) (doc_at (tasks ++ (name ∷ [])) tree) rest
      else rest

  -- `_plan_backrefs`
  unfoldable pub plan_backrefs : List Change × List FilePath
  plan_backrefs = plan_names (list_dir tasks tree)

-- `line.replace(needle, replacement)` for a needle that is not empty; the number counts the characters
-- to be left out.
unfoldable pub replace_from : Text → Text → ℕ → Text → Text
replace_from needle new k [] = []
replace_from needle new (suc k) (c ∷ s) = replace_from needle new k s
replace_from needle new zero (c ∷ s) = elim (starts_with (c ∷ s) needle) [
  | true ↦ new ++ replace_from needle new (length needle - 1) s
  | false ↦ c ∷ replace_from needle new 0 s
]

-- `splitlines(keepends=True)`: `line` is the line being read, reversed.
unfoldable pub split_keep : Text → Text → List Text
split_keep line [] = if is_empty line then [] else reverse line ∷ []
split_keep line (c ∷ s) = elim (is_break c && not (eqb c 13 && starts_with s (lit "\n"))) [
  | true ↦ reverse (c ∷ line) ∷ split_keep [] s
  | false ↦ split_keep (c ∷ line) s
]

unfoldable pub rewrite_lines : Text → Text → ℕ → List Text → List ℕ × Text
rewrite_lines needle new i [] = ([], [])
rewrite_lines needle new i (line ∷ lines) =
    let (changed, rest) = rewrite_lines needle new (suc i) lines in
    if contains line needle
    then (suc i ∷ changed, replace_from needle new 0 line ++ rest)
    else (changed, line ++ rest)

-- The line numbers that change in a file, and its new text, if any does.
abbrev pub if_changed :
    FilePath → List ℕ × Text → List (FilePath × List ℕ × Text) → List (FilePath × List ℕ × Text)
if_changed p ([], new) rest = rest
if_changed p (n ∷ numbers, new) rest = (p, n ∷ numbers, new) ∷ rest

abbrev pub plan_node :
    Text
    → Text
    → FilePath
    → Option (NodeOf Content)
    → List (FilePath × List ℕ × Text)
    → List (FilePath × List ℕ × Text)
plan_node needle new p (some (file (text (some s)))) rest =
    if_changed p (rewrite_lines needle new 0 (split_keep [] s)) rest
plan_node needle new p _ rest = rest

unfoldable pub plan_files :
    Text → Text → FilePath → TreeOf Content → List Text → List (FilePath × List ℕ × Text)
plan_files needle new task tree [] = []
plan_files needle new task tree (name ∷ names) =
    plan_node needle new (task ++ (name ∷ [])) (find (task ++ (name ∷ [])) tree)
      (plan_files needle new task tree names)

-- `_plan_jsonl_rewrites`
unfoldable pub plan_jsonl_rewrites :
    Text → Text → FilePath → TreeOf Content → List (FilePath × List ℕ × Text)
plan_jsonl_rewrites old_rel new_rel task tree =
    plan_files (old_rel ++ lit "/") (new_rel ++ lit "/") task tree
      (lit "implement.jsonl" ∷ lit "check.jsonl" ∷ [])
