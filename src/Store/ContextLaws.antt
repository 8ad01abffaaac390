-- ===== src/Store/ContextLaws.antt =====
-- .trellis/scripts/common/task_store.py: what the writes of a rename make of the files that are no
-- task.json: the lines of the context files, and everything else.
use taihu.Base.{
  ℕ, suc, ◌≡◌, refl, ap, sym, ◌∙◌, Bool, true, false, Bool-cases, ◌||◌, inl, inr, Option, none,
  some, List, [], ◌∷◌, ◌++◌, if◌then◌else◌, Text, lit, ◌==◌, ==_refl,
}
use taihu.Json.{Fields, obj}
use taihu.Files.Tree.{FilePath, NodeOf, dir, file, TreeOf, find, relative_to, same_path}
use taihu.Files.Move.{relative_to-append}
use taihu.Files.Laws.{find-set_node, same_path_iff}
use taihu.Tasks.Info.{parsed}
use taihu.Tasks.Dirs.{path_name}
use taihu.Store.State.{Content, json, text, Store, Host, file_task_json, put_doc, write_json}
use taihu.Store.Rewriting.{
  Change, split_keep, rewrite_lines, if_changed, plan_node, plan_files, plan_jsonl_rewrites,
}
use taihu.Store.LineLaws.{
  replaced_text, joined-split_keep, rewrite_lines-replaced, rewrite_lines-absent,
}
use taihu.Store.Renaming.{write_text, write_files, write_changes}
use taihu.Store.ShapeLaws.{Wrote, and_then-Wrote, write_json-Wrote, write_text-Wrote}

abbrev pub replaced_node : Text → Text → Option (NodeOf Content) → Option (NodeOf Content)
replaced_node needle new (some (file (text (some s)))) =
    some (file (text (some (replaced_text needle new s))))
replaced_node needle new o = o

-- The path is that of a task.json.
abbrev pub is_document : FilePath → Bool
is_document q = path_name q == file_task_json

path_name-last : (p : FilePath) (a : Text) → path_name (p ++ (a ∷ [])) ≡ a
unfolding path_name
path_name-last [] a = refl
path_name-last (b ∷ []) a = refl
path_name-last (b ∷ c ∷ p) a = path_name-last (c ∷ p) a

document_apart :
    (p q : FilePath) → is_document q ≡ false → same_path (p ++ (file_task_json ∷ [])) q ≡ false
document_apart p q h = elim (Bool-cases (same_path (p ++ (file_task_json ∷ [])) q)) [
  | inr e ↦ e
  | inl e ↦
      let path : p ++ (file_task_json ∷ []) ≡ q =
        (same_path_iff (p ++ (file_task_json ∷ [])) q).0 e in
      let k : true ≡ false =
        sym (==_refl file_task_json) ∙ rw (sym path, path_name-last p file_task_json) at h in
      cc
]

-- The nodes that are no task.json, by their paths.
abbrev pub NodesAre : (FilePath → Option (NodeOf Content)) → Store → Type 0
NodesAre e u = (q : FilePath) → is_document q ≡ false → find q u.tree ≡ e q

pub put_doc-NodesAre :
    (p : FilePath) (d : Fields) (s : Store)
    → NodesAre (λ q. find q s.tree) (record s { tree = put_doc p d s.tree; writes = suc s.writes })
unfolding put_doc
put_doc-NodesAre p d s q n =
    rw
      (
        find-set_node (p ++ (file_task_json ∷ [])) q (file (json (parsed (obj d)))) s.tree,
        document_apart p q n,
      )
      refl

module _ (host : Host) (e : FilePath → Option (NodeOf Content)) where
  write_json-NodesAre :
      (p : FilePath) (d : Fields) (s : Store)
      → NodesAre e s
      → Wrote (NodesAre e) (write_json host p d s)
  write_json-NodesAre p d s h =
      write_json-Wrote host (NodesAre e) p d s (λ q n. put_doc-NodesAre p d s q n ∙ h q n)

  pub write_changes-NodesAre :
      (changes : List Change) (s : Store)
      → NodesAre e s
      → Wrote (NodesAre e) (write_changes host changes s)
  unfolding write_changes
  write_changes-NodesAre [] s h = λ w. h
  write_changes-NodesAre ((p, d, labels) ∷ changes) s h =
      and_then-Wrote (NodesAre e) (NodesAre e) (write_changes host changes) (write_json host p d s)
        (write_json-NodesAre p d s h) (λ u k. write_changes-NodesAre changes u k)

if_same : {A : Type 0} (b : Bool) (x y : A) → x ≡ y → (if b then x else y) ≡ y
if_same true x y h = h
if_same false x y h = refl

module _ (needle new : Text) (task : FilePath) (t : TreeOf Content) where
  abbrev pub in_files : List Text → FilePath → Bool
  in_files [] q = false
  in_files (name ∷ names) q = same_path (task ++ (name ∷ [])) q || in_files names q

  -- The files of these names in the task's directory have their lines replaced, and all else is as it
  -- was.
  abbrev pub with_replaced : List Text → FilePath → Option (NodeOf Content)
  with_replaced names q = if in_files names q then replaced_node needle new (find q t) else find q t

  untouched :
      (name : Text) (names : List Text) (u : Store)
      → replaced_node needle new (find (task ++ (name ∷ [])) t) ≡ find (task ++ (name ∷ [])) t
      → NodesAre (with_replaced names) u
      → NodesAre (with_replaced (name ∷ names)) u
  untouched name names u same h q n = elim (Bool-cases (same_path (task ++ (name ∷ [])) q)) [
    | inr far ↦ rw far (h q n)
    | inl near ↦
        let path : task ++ (name ∷ []) ≡ q = (same_path_iff (task ++ (name ∷ [])) q).0 near in
        let here : replaced_node needle new (find q t) ≡ find q t = rw path at same in
        rw near (
          h q n
          ∙ (if_same (in_files names q) (replaced_node needle new (find q t)) (find q t) here
              ∙ sym here))
  ]

module _ (host : Host) (needle new : Text) (task : FilePath) (t : TreeOf Content) where
  written :
      (name : Text) (names : List Text) (s new_text : Text) (u : Store)
      → find (task ++ (name ∷ [])) t ≡ some (file (text (some s)))
      → new_text ≡ replaced_text needle new s
      → NodesAre (with_replaced needle new task t names) u
      → Wrote
          (NodesAre (with_replaced needle new task t (name ∷ names)))
          (write_text host (task ++ (name ∷ [])) new_text u)
  written name names s new_text u f c h =
      write_text-Wrote host (NodesAre (with_replaced needle new task t (name ∷ names)))
        (task ++ (name ∷ [])) new_text u
        (λ q n. elim (Bool-cases (same_path (task ++ (name ∷ [])) q)) [
          | inr far ↦
              rw (find-set_node (task ++ (name ∷ [])) q (file (text (some new_text))) u.tree, far)
                (h q n)
          | inl near ↦
              let path : task ++ (name ∷ []) ≡ q = (same_path_iff (task ++ (name ∷ [])) q).0 near in
              let here : find q t ≡ some (file (text (some s))) = rw path at f in
              rw
                (
                  find-set_node (task ++ (name ∷ [])) q (file (text (some new_text))) u.tree,
                  near,
                  here,
                  c,
                )
                refl
        ])

  module _ (R : Store → Type 0) (name : Text) (names : List Text)
      (rest : List (FilePath × List ℕ × Text))
      (next : (v : Store)
        → NodesAre (with_replaced needle new task t (name ∷ names)) v
        → Wrote R (write_files host rest v)) where
    if_changed-Wrote :
        (s : Text) (x : List ℕ × Text) (u : Store)
        → find (task ++ (name ∷ [])) t ≡ some (file (text (some s)))
        → rewrite_lines needle new 0 (split_keep [] s) ≡ x
        → NodesAre (with_replaced needle new task t names) u
        → Wrote R (write_files host (if_changed (task ++ (name ∷ [])) x rest) u)
    unfolding write_files
    if_changed-Wrote s ([], new_text) u f x h =
        let lines = split_keep [] s in
        let none_changed : (rewrite_lines needle new 0 lines).0 ≡ [] = ap (λ y. y.0) x in
        let same : replaced_text needle new s ≡ s =
          sym (rewrite_lines-replaced needle new 0 lines)
          ∙ (rewrite_lines-absent needle new 0 lines none_changed ∙ joined-split_keep [] s) in
        next u (
          untouched needle new task t name names u
            (rw f (ap (λ r. some (file (text (some r)))) same)) h)
    if_changed-Wrote s (i ∷ numbers, new_text) u f x h =
        and_then-Wrote (NodesAre (with_replaced needle new task t (name ∷ names))) R
          (write_files host rest) (write_text host (task ++ (name ∷ [])) new_text u)
          (written name names s new_text u f
            (sym (ap (λ y. y.1) x) ∙ rewrite_lines-replaced needle new 0 (split_keep [] s)) h)
          next

    plan_node-Wrote :
        (o : Option (NodeOf Content)) (u : Store)
        → find (task ++ (name ∷ [])) t ≡ o
        → NodesAre (with_replaced needle new task t names) u
        → Wrote R (write_files host (plan_node needle new (task ++ (name ∷ [])) o rest) u)
    plan_node-Wrote none u f h = next u (untouched needle new task t name names u (rw f refl) h)
    plan_node-Wrote (some dir) u f h =
        next u (untouched needle new task t name names u (rw f refl) h)
    plan_node-Wrote (some (file (json r))) u f h =
        next u (untouched needle new task t name names u (rw f refl) h)
    plan_node-Wrote (some (file (text none))) u f h =
        next u (untouched needle new task t name names u (rw f refl) h)
    plan_node-Wrote (some (file (text (some s)))) u f h =
        if_changed-Wrote s (rewrite_lines needle new 0 (split_keep [] s)) u f refl h

in_files-elsewhere :
    (needle new : Text) (task : FilePath) (t : TreeOf Content) (names : List Text) (q : FilePath)
    → relative_to task q ≡ none
    → in_files needle new task t names q ≡ false
in_files-elsewhere needle new task t [] q h = refl
in_files-elsewhere needle new task t (name ∷ names) q h =
    elim (Bool-cases (same_path (task ++ (name ∷ [])) q)) [
      | inr far ↦ rw far (in_files-elsewhere needle new task t names q h)
      | inl near ↦
          let path : task ++ (name ∷ []) ≡ q = (same_path_iff (task ++ (name ∷ [])) q).0 near in
          let k : none ≡ some (name ∷ []) =
            sym (rw (sym path) at h) ∙ relative_to-append task (name ∷ []) in
          cc
    ]

pub with_replaced-elsewhere :
    (needle new : Text) (task : FilePath) (t : TreeOf Content) (names : List Text) (q : FilePath)
    → relative_to task q ≡ none
    → with_replaced needle new task t names q ≡ find q t
with_replaced-elsewhere needle new task t names q h =
    rw (in_files-elsewhere needle new task t names q h) refl

abbrev pub context_files : List Text
context_files = lit "check.jsonl" ∷ lit "implement.jsonl" ∷ []

-- After the context files are written their lines are replaced, and all else that is no task.json is
-- as it was.
pub write_files-NodesAre :
    (host : Host) (old_rel new_rel : Text) (task : FilePath) (t : TreeOf Content) (u : Store)
    → NodesAre (λ q. find q t) u
    → Wrote
        (NodesAre (with_replaced (old_rel ++ lit "/") (new_rel ++ lit "/") task t context_files))
        (write_files host (plan_jsonl_rewrites old_rel new_rel task t) u)
unfolding plan_jsonl_rewrites plan_files write_files
write_files-NodesAre host old_rel new_rel task t u h =
    let needle = old_rel ++ lit "/" in
    let new = new_rel ++ lit "/" in
    let P = NodesAre (with_replaced needle new task t context_files) in
    plan_node-Wrote host needle new task t P (lit "implement.jsonl") [] _
      (λ v i.
        plan_node-Wrote host needle new task t P (lit "check.jsonl") (lit "implement.jsonl" ∷ []) []
          (λ w j e. j) (find (task ++ (lit "check.jsonl" ∷ [])) t) v refl i)
      (find (task ++ (lit "implement.jsonl" ∷ [])) t) u refl h
