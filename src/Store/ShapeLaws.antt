-- ===== src/Store/ShapeLaws.antt =====
-- .trellis/scripts/common/task_store.py: writing files that are there leaves the directories as they are.
use taihu.Base.{
  ℕ, suc, ◌≡◌, refl, ap, sym, ◌∙◌, inl, inr, Bool, true, false, Bool-cases, Option, none, some,
  List, [], ◌∷◌, ◌++◌, Text,
}
use taihu.Json.{obj, Fields}
use taihu.Files.Tree.{
  FilePath, same_path, NodeOf, dir, file, TreeOf, find, node_at, is_dir_node, is_some, is_dir,
  exists, set_node, parent,
}
use taihu.Files.Laws.{find-set_node, same_path_iff, IsRooted}
use taihu.Files.Move.{IsFree, rooted-below, nothing_at}
use taihu.Tasks.Info.{parsed}
use taihu.Store.State.{Content, json, text, Store, Host, file_task_json, put_doc, write_json}
use taihu.Store.Rewriting.{Change}
use taihu.Store.Renaming.{and_then, write_text, write_files, write_changes}

-- Nothing, a directory or a file.
abbrev pub kind : {A : Type 0} → Option (NodeOf A) → Option Bool
kind none = none
kind (some dir) = some true
kind (some (file c)) = some false

abbrev kind_dir : Option Bool → Bool
kind_dir none = false
kind_dir (some b) = b

is_dir_node-kind : {A : Type 0} (o : Option (NodeOf A)) → is_dir_node o ≡ kind_dir (kind o)
is_dir_node-kind none = refl
is_dir_node-kind (some dir) = refl
is_dir_node-kind (some (file c)) = refl

is_some-kind : {A : Type 0} (o : Option (NodeOf A)) → is_some o ≡ is_some (kind o)
is_some-kind none = refl
is_some-kind (some dir) = refl
is_some-kind (some (file c)) = refl

-- The same directories, and files at the same paths.
pub record SameShape {A : Type 0} (t u : TreeOf A) : Type 0 where
  pub kinds : (p : FilePath) → kind (find p u) ≡ kind (find p t)

pub SameShape-refl : {A : Type 0} (t : TreeOf A) → SameShape t t
SameShape-refl t = record { kinds = λ p. refl }

pub SameShape-trans :
    {A : Type 0} {t u v : TreeOf A} → SameShape t u → SameShape u v → SameShape t v
SameShape-trans h k = record { kinds = λ p. k.kinds p ∙ h.kinds p }

abbrev pub IsFile : {A : Type 0} → FilePath → TreeOf A → Type 0
IsFile p t = kind (find p t) ≡ some false

pub set_node-SameShape :
    {A : Type 0} (p : FilePath) (c : A) (t : TreeOf A)
    → IsFile p t
    → SameShape t (set_node p (file c) t)
set_node-SameShape p c t h = record {
  kinds = λ q. elim (Bool-cases (same_path p q)) [
    | inl e ↦
        let path : p ≡ q = (same_path_iff p q).0 e in
        rw (find-set_node p q (file c) t, e) (sym (rw path at h))
    | inr e ↦ rw (find-set_node p q (file c) t, e) refl
  ];
}

is_dir-SameShape :
    {A : Type 0} {t u : TreeOf A} (p : FilePath) → SameShape t u → is_dir u p ≡ is_dir t p
unfolding is_dir node_at
is_dir-SameShape [] h = refl
is_dir-SameShape {t} {u} (a ∷ p) h =
    is_dir_node-kind (find (a ∷ p) u)
    ∙ (ap kind_dir (h.kinds (a ∷ p)) ∙ sym (is_dir_node-kind (find (a ∷ p) t)))

pub exists-SameShape :
    {A : Type 0} {t u : TreeOf A} (p : FilePath) → SameShape t u → exists u p ≡ exists t p
unfolding exists node_at
exists-SameShape [] h = refl
exists-SameShape {t} {u} (a ∷ p) h =
    is_some-kind (find (a ∷ p) u)
    ∙ (ap is_some (h.kinds (a ∷ p)) ∙ sym (is_some-kind (find (a ∷ p) t)))

IsRooted-SameShape : {A : Type 0} {t u : TreeOf A} → SameShape t u → IsRooted t → IsRooted u
IsRooted-SameShape {u} h r = record {
  parents = λ q e. is_dir-SameShape (parent q) h ∙ r.parents q (sym (exists-SameShape q h) ∙ e);
}

-- A path with nothing at it has nothing below it either, also after the writes.
pub SameShape-IsFree :
    {A : Type 0} {t u : TreeOf A} (q : FilePath)
    → SameShape t u
    → IsRooted t
    → exists t q ≡ false
    → IsFree q u
SameShape-IsFree {u} q h r e = λ x.
    nothing_at u (q ++ x) (rooted-below u q x (IsRooted-SameShape h r) (exists-SameShape q h ∙ e))

-- What holds of the store if the writes have come through.
abbrev pub Wrote : (Store → Type 0) → Bool × Store → Type 0
Wrote P x = (x.0 ≡ true) → P x.1

pub and_then-Wrote :
    (P Q : Store → Type 0) (next : Store → Bool × Store) (x : Bool × Store)
    → Wrote P x
    → ((s : Store) → P s → Wrote Q (next s))
    → Wrote Q (and_then next x)
and_then-Wrote P Q next (false, s) h k = λ e. let c : false ≡ true = e in cc
and_then-Wrote P Q next (true, s) h k = k s (h refl)

-- A JSON file that has been written is in place of the one before.
pub write_json-Wrote :
    (host : Host) (P : Store → Type 0) (p : FilePath) (d : Fields) (s : Store)
    → P (record s { tree = put_doc p d s.tree; writes = suc s.writes })
    → Wrote P (write_json host p d s)
unfolding write_json
write_json-Wrote host P p d s h = elim (Bool-cases (host.lands s.writes)) [
  | inl l ↦ rw l (λ e. h)
  | inr l ↦ rw l (λ e. let c : false ≡ true = e in cc)
]

pub write_text-Wrote :
    (host : Host) (P : Store → Type 0) (p : FilePath) (new : Text) (s : Store)
    → P (record s { tree = set_node p (file (text (some new))) s.tree; writes = suc s.writes })
    → Wrote P (write_text host p new s)
unfolding write_text
write_text-Wrote host P p new s h = elim (Bool-cases (host.lands s.writes)) [
  | inl l ↦ rw l (λ e. h)
  | inr l ↦ rw l (λ e. let c : false ≡ true = e in cc)
]

-- Each of the files is there.
pub data Present (t : TreeOf Content) : List FilePath → Type 0 where
  none_left : Present t []
  present : {p : FilePath} {ps : List FilePath} → IsFile p t → Present t ps → Present t (p ∷ ps)

abbrev pub change_files : List Change → List FilePath
change_files [] = []
change_files ((p, d, labels) ∷ changes) = (p ++ (file_task_json ∷ [])) ∷ change_files changes

abbrev pub text_files : List (FilePath × List ℕ × Text) → List FilePath
text_files [] = []
text_files ((p, numbers, new) ∷ files) = p ∷ text_files files

IsFile-SameShape : {t u : TreeOf Content} (p : FilePath) → SameShape t u → IsFile p t → IsFile p u
IsFile-SameShape p h f = h.kinds p ∙ f

pub write_changes-SameShape :
    (host : Host) (t : TreeOf Content) (changes : List Change) (s : Store)
    → Present t (change_files changes)
    → SameShape t s.tree
    → Wrote (λ u. SameShape t u.tree) (write_changes host changes s)
unfolding write_changes put_doc
write_changes-SameShape host t [] s present_all h = λ e. h
write_changes-SameShape host t ((p, d, labels) ∷ changes) s (present f fs) h =
    and_then-Wrote (λ u. SameShape t u.tree) (λ u. SameShape t u.tree) (write_changes host changes)
      (write_json host p d s)
      (write_json-Wrote host (λ u. SameShape t u.tree) p d s
        (SameShape-trans h (
          set_node-SameShape (p ++ (file_task_json ∷ [])) (json (parsed (obj d))) s.tree
            (IsFile-SameShape (p ++ (file_task_json ∷ [])) h f))))
      (λ u k. write_changes-SameShape host t changes u fs k)

pub write_files-SameShape :
    (host : Host) (t : TreeOf Content) (files : List (FilePath × List ℕ × Text)) (s : Store)
    → Present t (text_files files)
    → SameShape t s.tree
    → Wrote (λ u. SameShape t u.tree) (write_files host files s)
unfolding write_files
write_files-SameShape host t [] s present_all h = λ e. h
write_files-SameShape host t ((p, numbers, new) ∷ files) s (present f fs) h =
    and_then-Wrote (λ u. SameShape t u.tree) (λ u. SameShape t u.tree) (write_files host files)
      (write_text host p new s)
      (write_text-Wrote host (λ u. SameShape t u.tree) p new s
        (SameShape-trans h
          (set_node-SameShape p (text (some new)) s.tree (IsFile-SameShape p h f))))
      (λ u k. write_files-SameShape host t files u fs k)
