-- ===== src/Store/BackrefLaws.antt =====
-- .trellis/scripts/common/task_store.py: what writing the planned references makes of the other tasks.
use taihu.Base.{
  suc, ◌≡◌, refl, ap, sym, ◌∙◌, inl, inr, arith, Bool, true, false, ◌&&◌, ◌||◌, Bool-cases, Option,
  none, some, List, [], ◌∷◌, ◌++◌, if◌then◌else◌, Text, lit, is_empty,
}
use mathlib.Core.List.{map}
use taihu.Json.{obj, Fields, get}
use taihu.Files.Tree.{FilePath, same_path, TreeOf, list_dir}
use taihu.Files.Laws.{same_path_iff}
use taihu.Tasks.Info.{Read, parsed, Checked, read, failed, read_json_checked}
use taihu.Store.State.{Content, Store, Host, doc_at, put_doc, doc_at-put_doc, write_json}
use taihu.Store.Links.{list_or_nil}
use taihu.Store.Rewriting.{
  Change, add_change, plan_checked, plan_doc, is_other, plan_names, plan_backrefs, rename_refs,
  rename_list, rename_parent, places, label,
}
use taihu.Store.Renaming.{write_changes}

-- The document of a directory after the changes have been written, one after the other.
unfoldable pub overlay : FilePath → List Change → Option Read → Option Read
overlay q [] o = o
overlay q ((p, d, labels) ∷ changes) o =
    overlay q changes (if same_path p q then some (parsed (obj d)) else o)

pub write_changes-doc :
    (host : Host) (q : FilePath) (changes : List Change) (s : Store)
    → (write_changes host changes s).0 ≡ true
    → doc_at q (write_changes host changes s).1.tree ≡ overlay q changes (doc_at q s.tree)
unfolding write_changes write_json overlay
write_changes-doc host q [] s h = refl
write_changes-doc host q ((p, d, labels) ∷ changes) s h = elim (Bool-cases (host.lands s.writes)) [
  | inr l ↦ let k : false ≡ true = rw l at h in cc
  | inl l ↦
      let next : Store = record s { tree = put_doc p d s.tree; writes = suc s.writes } in
      rw l (
        write_changes-doc host q changes next (rw l at h)
        ∙ ap (overlay q changes) (doc_at-put_doc p q d s.tree))
]

module _ (tree : TreeOf Content) (tasks task q : FilePath) where
  -- One of the names is that of the directory, and it is another active task.
  unfoldable pub among : List Text → Bool
  among [] = false
  among (name ∷ names) =
      (is_other tree tasks task name && same_path (tasks ++ (name ∷ [])) q) || among names

module _ (old new : Text) where
  -- A document that is written anew if it refers to the task.
  abbrev relabel : Option Read → Fields × List Text → Option Read
  relabel o (d, []) = o
  relabel o (d, l ∷ labels) = some (parsed (obj d))

  abbrev effect_checked : Checked → Option Read → Option Read
  effect_checked (failed reason) o = o
  effect_checked (read d) o = relabel o (rename_refs old new d)

  abbrev effect : Option Read → Option Read → Option Read
  effect none o = o
  effect (some r) o = effect_checked (read_json_checked r) o

  effect-effect : (D o : Option Read) → effect D (effect D o) ≡ effect D o
  effect-effect none o = refl
  effect-effect (some r) o = again (read_json_checked r)
    where
      again : (c : Checked) → effect_checked c (effect_checked c o) ≡ effect_checked c o
      again (failed reason) = refl
      again (read d) = labelled (rename_refs old new d)
        where
          labelled : (x : Fields × List Text) → relabel (relabel o x) x ≡ relabel o x
          labelled (e, []) = refl
          labelled (e, l ∷ labels) = refl

  module _ (tree : TreeOf Content) (tasks task q : FilePath) where
    overlay-add_change :
        (c : FilePath) (x : Fields × List Text) (plan : List Change × List FilePath)
        (o : Option Read)
        → overlay q (add_change c x plan).0 o
          ≡ overlay q plan.0 (if same_path c q then relabel o x else o)
    unfolding overlay
    overlay-add_change c (d, []) plan o = ground arith
    overlay-add_change c (d, l ∷ labels) (changes, unreadable) o = refl

    overlay-plan_checked :
        (c : FilePath) (r : Checked) (plan : List Change × List FilePath) (o : Option Read)
        → overlay q (plan_checked old new c r plan).0 o
          ≡ overlay q plan.0 (if same_path c q then effect_checked r o else o)
    overlay-plan_checked c (failed reason) (changes, unreadable) o = ground arith
    overlay-plan_checked c (read d) plan o = overlay-add_change c (rename_refs old new d) plan o

    overlay-plan_doc :
        (c : FilePath) (D : Option Read) (plan : List Change × List FilePath) (o : Option Read)
        → overlay q (plan_doc old new c D plan).0 o
          ≡ overlay q plan.0 (if same_path c q then effect D o else o)
    overlay-plan_doc c none plan o = ground arith
    overlay-plan_doc c (some r) plan o = overlay-plan_checked c (read_json_checked r) plan o

    overlay-plan_names :
        (names : List Text) (o : Option Read)
        → overlay q (plan_names tree tasks task old new names).0 o
          ≡ (if among tree tasks task q names then effect (doc_at q tree) o else o)
    unfolding plan_names among overlay
    overlay-plan_names [] o = refl
    overlay-plan_names (name ∷ names) o =
        let c = tasks ++ (name ∷ []) in
        let ih = overlay-plan_names names in
        let rest = plan_names tree tasks task old new names in
        elim (Bool-cases (is_other tree tasks task name)) [
          | inr n ↦ rw n (ih o)
          | inl n ↦ elim (Bool-cases (same_path c q)) [
            | inr m ↦ rw (n, m) (rw m at (overlay-plan_doc c (doc_at c tree) rest o) ∙ ih o)
            | inl m ↦
                let path : c ≡ q = (same_path_iff c q).0 m in
                rw (n, m)
                  (rw m at (overlay-plan_doc c (doc_at c tree) rest o)
                    ∙ (rw path (ih (effect (doc_at q tree) o))
                        ∙ twice (among tree tasks task q names) o))
          ]
        ]
      where
        twice :
            (b : Bool) (o : Option Read)
            → (if b
                then effect (doc_at q tree) (effect (doc_at q tree) o)
                else effect (doc_at q tree) o)
              ≡ effect (doc_at q tree) o
        twice true o = effect-effect (doc_at q tree) o
        twice false o = refl

  rename_parent-same :
      (d : Fields) → is_empty (rename_parent old new d).1 ≡ true → (rename_parent old new d).0 ≡ d
  unfolding rename_parent
  rename_parent-same d h = ground arith

  rename_list-same :
      (key : Text) (d : Fields)
      → is_empty (rename_list old new key d).1 ≡ true
      → (rename_list old new key d).0 ≡ d
  unfolding rename_list
  rename_list-same key d h =
      let labels = map (label key) (places old 0 (list_or_nil (get key d))) in
      elim (Bool-cases (is_empty labels)) [
        | inl e ↦ rw e refl
        | inr e ↦
            let k : is_empty labels ≡ true = rw e at h in let m : false ≡ true = rw e at k in cc
      ]

  all_empty :
      {A : Type 0} (xs ys zs : List A)
      → is_empty (xs ++ (ys ++ zs)) ≡ true
      → (is_empty xs ≡ true) × (is_empty ys ≡ true) × (is_empty zs ≡ true)
  all_empty [] [] [] h = (refl, refl, refl)
  all_empty [] [] (z ∷ zs) h = let k : false ≡ true = h in cc
  all_empty [] (y ∷ ys) zs h = let k : false ≡ true = h in cc
  all_empty (x ∷ xs) ys zs h = let k : false ≡ true = h in cc

  -- A document without a label is the one that was read.
  rename_refs-same :
      (d : Fields) → is_empty (rename_refs old new d).1 ≡ true → (rename_refs old new d).0 ≡ d
  unfolding rename_refs
  rename_refs-same d h =
      let d1 = (rename_parent old new d).0 in
      let d2 = (rename_list old new (lit "children") d1).0 in
      let (a, b, c) =
        all_empty (rename_parent old new d).1 (rename_list old new (lit "children") d1).1
          (rename_list old new (lit "subtasks") d2).1 h in
      rename_list-same (lit "subtasks") d2 c
      ∙ (rename_list-same (lit "children") d1 b ∙ rename_parent-same d a)

  relabel-same :
      (d : Fields) (x : Fields × List Text)
      → (is_empty x.1 ≡ true → x.0 ≡ d)
      → relabel (some (parsed (obj d))) x ≡ some (parsed (obj x.0))
  relabel-same d (e, []) same = ap (λ (f : Fields). some (parsed (obj f))) (sym (same refl))
  relabel-same d (e, l ∷ labels) same = refl

  -- The document of `q` once the planned changes have been written: a task among the others that has
  -- a document that can be read has the renamed one, and no other task.json has changed.
  pub record RewrittenAt (tasks task : FilePath) (t : TreeOf Content) (q : FilePath)
      (o u : Option Read) : Type 0 where
    pub other_task :
        (d : Fields)
        → among t tasks task q (list_dir tasks t) ≡ true
        → doc_at q t ≡ some (parsed (obj d))
        → read_json_checked (parsed (obj d)) ≡ read d
        → o ≡ doc_at q t
        → u ≡ some (parsed (obj (rename_refs old new d).0))
    pub elsewhere : among t tasks task q (list_dir tasks t) ≡ false → u ≡ o

  pub write_changes-RewrittenAt :
      (host : Host) (tasks task : FilePath) (t : TreeOf Content) (s : Store) (q : FilePath)
      → (write_changes host (plan_backrefs t tasks task old new).0 s).0 ≡ true
      → RewrittenAt tasks task t q
          (doc_at q s.tree)
          (doc_at q (write_changes host (plan_backrefs t tasks task old new).0 s).1.tree)
  unfolding plan_backrefs
  write_changes-RewrittenAt host tasks task t s q h =
      let after =
        write_changes-doc host q (plan_backrefs t tasks task old new).0 s h
        ∙ overlay-plan_names t tasks task q (list_dir tasks t) (doc_at q s.tree) in
      record {
        other_task = λ d a f c o.
            rw (a, o, f, c) at after ∙ relabel-same d (rename_refs old new d) (rename_refs-same d);
        elsewhere = λ a. rw a at after;
      }
