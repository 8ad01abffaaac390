-- ===== src/Store/PlanLaws.antt =====
-- .trellis/scripts/common/task_store.py: a plan to rename a task names files that are there, and the files
-- of references that it writes are no task.json.
use taihu.Base.{
  ℕ, ◌≡◌, refl, ap, ◌∙◌, arith, false, Bool-cases, inl, inr, Option, none, some, List, [], ◌∷◌,
  ◌++◌, Text, lit, ◌==◌,
}
use taihu.Json.{Fields}
use taihu.Files.Tree.{FilePath, same_path, NodeOf, dir, file, TreeOf, find, set_node, list_dir}
use taihu.Files.Laws.{find-set_node}
use taihu.Tasks.Info.{Read, Checked, read, failed, read_json_checked}
use taihu.Store.State.{write_json, Content, json, text, Store, Host, file_task_json, doc_of, doc_at}
use taihu.Store.Rewriting.{
  Change, add_change, plan_checked, plan_doc, is_other, plan_names, plan_backrefs, rename_refs,
  if_changed, plan_node, plan_files, plan_jsonl_rewrites, rewrite_lines, split_keep,
}
use taihu.Store.Renaming.{write_changes, write_text, write_files}
use taihu.Store.ShapeLaws.{
  write_json-Wrote, kind, IsFile, Present, none_left, present, change_files, text_files, Wrote,
  and_then-Wrote, write_text-Wrote,
}

doc_of-file : (o : Option (NodeOf Content)) (r : Read) → doc_of o ≡ some r → kind o ≡ some false
doc_of-file none r h = cc
doc_of-file (some dir) r h = cc
doc_of-file (some (file c)) r h = refl

-- A document is that of a file.
pub doc_at-IsFile :
    (p : FilePath) (r : Read) (t : TreeOf Content)
    → doc_at p t ≡ some r
    → IsFile (p ++ (file_task_json ∷ [])) t
unfolding doc_at
doc_at-IsFile p r t h = doc_of-file (find (p ++ (file_task_json ∷ [])) t) r h

module _ (t : TreeOf Content) (tasks task : FilePath) (old new : Text) where
  add_change-Present :
      (c : FilePath) (x : Fields × List Text) (plan : List Change × List FilePath)
      → IsFile (c ++ (file_task_json ∷ [])) t
      → Present t (change_files plan.0)
      → Present t (change_files (add_change c x plan).0)
  add_change-Present c (d, []) plan f h = h
  add_change-Present c (d, l ∷ labels) (changes, unreadable) f h = present f h

  plan_checked-Present :
      (c : FilePath) (r : Checked) (plan : List Change × List FilePath)
      → IsFile (c ++ (file_task_json ∷ [])) t
      → Present t (change_files plan.0)
      → Present t (change_files (plan_checked old new c r plan).0)
  plan_checked-Present c (failed reason) (changes, unreadable) f h = h
  plan_checked-Present c (read d) plan f h = add_change-Present c (rename_refs old new d) plan f h

  plan_doc-Present :
      (c : FilePath) (o : Option Read) (plan : List Change × List FilePath)
      → doc_at c t ≡ o
      → Present t (change_files plan.0)
      → Present t (change_files (plan_doc old new c o plan).0)
  plan_doc-Present c none plan e h = h
  plan_doc-Present c (some r) plan e h =
      plan_checked-Present c (read_json_checked r) plan (doc_at-IsFile c r t e) h

  plan_names-Present :
      (names : List Text) → Present t (change_files (plan_names t tasks task old new names).0)
  unfolding plan_names
  plan_names-Present [] = none_left
  plan_names-Present (name ∷ names) = elim (Bool-cases (is_other t tasks task name)) [
    | inl e ↦
        let c = tasks ++ (name ∷ []) in
        rw (plan_names, e)
          (plan_doc-Present c (doc_at c t) (plan_names t tasks task old new names) refl
            (plan_names-Present names))
    | inr e ↦ rw e (plan_names-Present names)
  ]

  -- The task.json files that the plan changes are there.
  pub plan_backrefs-Present : Present t (change_files (plan_backrefs t tasks task old new).0)
  unfolding plan_backrefs
  plan_backrefs-Present = plan_names-Present (list_dir tasks t)

-- Two paths that end in different names.
pub same_path-last :
    (p q : FilePath) (a b : Text)
    → (a == b) ≡ false
    → same_path (p ++ (a ∷ [])) (q ++ (b ∷ [])) ≡ false
unfolding same_path
same_path-last [] [] a b h = rw h refl
same_path-last [] (c ∷ []) a b h = ground arith
same_path-last [] (c ∷ d ∷ q) a b h = ground arith
same_path-last (c ∷ []) [] a b h = ground arith
same_path-last (c ∷ d ∷ p) [] a b h = ground arith
same_path-last (c ∷ p) (d ∷ q) a b h = ground (arith, same_path-last p q a b h)

-- The files stand in the directory, and none of them is a task.json.
abbrev pub Beside : FilePath → List (FilePath × List ℕ × Text) → Type 0
Beside task [] = Unit
Beside task ((p, numbers, new) ∷ files) =
    ((name : Text) × (p ≡ task ++ (name ∷ [])) × ((name == file_task_json) ≡ false))
    × Beside task files

-- A plan of files that are there and are no task.json.
abbrev pub Sound : FilePath → TreeOf Content → List (FilePath × List ℕ × Text) → Type 0
Sound task t files = Present t (text_files files) × Beside task files

module _ (needle new : Text) (task : FilePath) (t : TreeOf Content) where
  if_changed-Sound :
      (name : Text) (x : List ℕ × Text) (rest : List (FilePath × List ℕ × Text))
      → IsFile (task ++ (name ∷ [])) t
      → (name == file_task_json) ≡ false
      → Sound task t rest
      → Sound task t (if_changed (task ++ (name ∷ [])) x rest)
  if_changed-Sound name ([], s) rest f n h = h
  if_changed-Sound name (i ∷ numbers, s) rest f n (h, k) = (present f h, ((name, refl, n), k))

  plan_node-Sound :
      (name : Text) (o : Option (NodeOf Content)) (rest : List (FilePath × List ℕ × Text))
      → find (task ++ (name ∷ [])) t ≡ o
      → (name == file_task_json) ≡ false
      → Sound task t rest
      → Sound task t (plan_node needle new (task ++ (name ∷ [])) o rest)
  plan_node-Sound name none rest e n h = h
  plan_node-Sound name (some dir) rest e n h = h
  plan_node-Sound name (some (file (json r))) rest e n h = h
  plan_node-Sound name (some (file (text none))) rest e n h = h
  plan_node-Sound name (some (file (text (some s)))) rest e n h =
      if_changed-Sound name (rewrite_lines needle new 0 (split_keep [] s)) rest (ap kind e) n h

  plan_files-Sound :
      Sound task t (plan_files needle new task t (lit "implement.jsonl" ∷ lit "check.jsonl" ∷ []))
  unfolding plan_files ◌==◌
  plan_files-Sound =
      plan_node-Sound (lit "implement.jsonl") (find (task ++ (lit "implement.jsonl" ∷ [])) t) _ refl
        refl
        (plan_node-Sound (lit "check.jsonl") (find (task ++ (lit "check.jsonl" ∷ [])) t) [] refl
          refl (none_left, tt))

pub plan_jsonl_rewrites-Sound :
    (old_rel new_rel : Text) (task : FilePath) (t : TreeOf Content)
    → Sound task t (plan_jsonl_rewrites old_rel new_rel task t)
unfolding plan_jsonl_rewrites
plan_jsonl_rewrites-Sound old_rel new_rel task t =
    plan_files-Sound (old_rel ++ lit "/") (new_rel ++ lit "/") task t

pub doc_at-set_text :
    (p q : FilePath) (name : Text) (c : Content) (t : TreeOf Content)
    → (name == file_task_json) ≡ false
    → doc_at q (set_node (p ++ (name ∷ [])) (file c) t) ≡ doc_at q t
unfolding doc_at
doc_at-set_text p q name c t n =
    rw
      (
        find-set_node (p ++ (name ∷ [])) (q ++ (file_task_json ∷ [])) (file c) t,
        same_path-last p q name file_task_json n,
      )
      refl

-- Writing files that are no task.json changes no task.json.
pub write_files-doc :
    (host : Host) (task q : FilePath) (files : List (FilePath × List ℕ × Text)) (s : Store)
    → Beside task files
    → Wrote (λ u. doc_at q u.tree ≡ doc_at q s.tree) (write_files host files s)
unfolding write_files
write_files-doc host task q [] s b = λ e. refl
write_files-doc host task q ((p, numbers, new) ∷ files) s ((name, path, n), b) =
    let P = λ (u : Store). doc_at q u.tree ≡ doc_at q s.tree in
    and_then-Wrote P P (write_files host files) (write_text host p new s)
      (write_text-Wrote host P p new s
        (rw path (doc_at-set_text task q name (text (some new)) s.tree n)))
      (λ u h e. write_files-doc host task q files u b e ∙ h)

pub write_changes-sessions :
    (host : Host) (changes : List Change) (s : Store)
    → Wrote (λ u. u.sessions ≡ s.sessions) (write_changes host changes s)
unfolding write_changes
write_changes-sessions host [] s = λ e. refl
write_changes-sessions host ((p, d, labels) ∷ changes) s =
    let P = λ (u : Store). u.sessions ≡ s.sessions in
    and_then-Wrote P P (write_changes host changes) (write_json host p d s)
      (write_json-Wrote host P p d s refl) (λ u h e. write_changes-sessions host changes u e ∙ h)

pub write_files-sessions :
    (host : Host) (files : List (FilePath × List ℕ × Text)) (s : Store)
    → Wrote (λ u. u.sessions ≡ s.sessions) (write_files host files s)
unfolding write_files
write_files-sessions host [] s = λ e. refl
write_files-sessions host ((p, numbers, new) ∷ files) s =
    let P = λ (u : Store). u.sessions ≡ s.sessions in
    and_then-Wrote P P (write_files host files) (write_text host p new s)
      (write_text-Wrote host P p new s refl) (λ u h e. write_files-sessions host files u e ∙ h)
