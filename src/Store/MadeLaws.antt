-- ===== src/Store/MadeLaws.antt =====
-- .trellis/scripts/common/task_store.py: making directories changes no task.json.
use taihu.Base.{
  ◌≡◌, refl, ap, sym, ◌∙◌, arith, true, false, Bool-cases, inl, inr, Option, none, some,
  Option-cases, [], ◌∷◌, ◌++◌, Text, lit,
}
use taihu.Files.Tree.{
  FilePath, same_path, NodeOf, dir, file, TreeOf, find, node_at, exists, set_node, enter_dir,
  make_dirs_below, make_dirs,
}
use taihu.Files.Laws.{find-set_node, same_path_iff, IsRooted, make_dirs-IsRooted}
use taihu.Files.Move.{make_dirs-keeps, node_at-concat}
use taihu.Tasks.Dirs.{get_tasks_dir}
use taihu.Store.State.{Content, Store, Host, file_task_json, doc_of, doc_at}
use taihu.Store.ShapeLaws.{Wrote, and_then-Wrote}
use taihu.Store.Creating.{mkdir, ensure_dir, ensure_tasks_dir}

-- Every task.json reads the same.
abbrev pub SameDocs : TreeOf Content → TreeOf Content → Type 0
SameDocs t u = (q : FilePath) → doc_at q u ≡ doc_at q t

doc-new_dir :
    (p q : FilePath) (t : TreeOf Content)
    → find p t ≡ none
    → doc_at q (set_node p dir t) ≡ doc_at q t
unfolding doc_at
doc-new_dir p q t h = elim (Bool-cases (same_path p (q ++ (file_task_json ∷ [])))) [
  | inl e ↦
      let path : p ≡ q ++ (file_task_json ∷ []) =
        (same_path_iff p (q ++ (file_task_json ∷ []))).0 e in
      rw (find-set_node p (q ++ (file_task_json ∷ [])) dir t, e) (rw path at (sym (ap doc_of h)))
  | inr e ↦ rw (find-set_node p (q ++ (file_task_json ∷ [])) dir t, e) refl
]

enter_dir-docs :
    (below : TreeOf Content → Option (TreeOf Content)) (p : FilePath) (t u : TreeOf Content)
    → ((v : TreeOf Content) → below v ≡ some u → SameDocs v u)
    → (o : Option (NodeOf Content)) → find p t ≡ o
    → enter_dir below p t o ≡ some u
    → SameDocs t u
unfolding enter_dir
enter_dir-docs below p t u same none e h = λ q. same (set_node p dir t) h q ∙ doc-new_dir p q t e
enter_dir-docs below p t u same (some dir) e h = same t h
enter_dir-docs below p t u same (some (file c)) e h = λ q. ground arith

make_dirs_below-docs :
    (rest made : FilePath) (t u : TreeOf Content)
    → make_dirs_below made rest t ≡ some u
    → SameDocs t u
unfolding make_dirs_below
make_dirs_below-docs [] made t u h = let e : t ≡ u = cc in rw e (λ q. refl)
make_dirs_below-docs (a ∷ rest) made t u h =
    enter_dir-docs (make_dirs_below (made ++ (a ∷ [])) rest) (made ++ (a ∷ [])) t u
      (λ v hv. make_dirs_below-docs rest (made ++ (a ∷ [])) v u hv) (node_at t (made ++ (a ∷ [])))
      (sym (node_at-concat made a t)) h

-- Directories may have been made; nothing that was there has changed.
pub record Made (t u : TreeOf Content) : Type 0 where
  pub docs : SameDocs t u
  pub keeps : (x : FilePath) (n : NodeOf Content) → find x t ≡ some n → find x u ≡ some n
  pub rooted : IsRooted t → IsRooted u

pub Made-refl : (t : TreeOf Content) → Made t t
Made-refl t = record { docs = λ q. refl; keeps = λ x n h. h; rooted = λ r. r }

pub Made-trans : {t u v : TreeOf Content} → Made t u → Made u v → Made t v
Made-trans h k = record {
  docs = λ q. k.docs q ∙ h.docs q;
  keeps = λ x n f. k.keeps x n (h.keeps x n f);
  rooted = λ r. k.rooted (h.rooted r);
}

make_dirs-Made : (p : FilePath) (t u : TreeOf Content) → make_dirs p t ≡ some u → Made t u
unfolding make_dirs
make_dirs-Made p t u h = record {
  docs = make_dirs_below-docs p [] t u h;
  keeps = λ x n f. make_dirs-keeps p x n t u h f;
  rooted = λ r. (make_dirs-IsRooted p t u r h).0;
}

-- The store with directories made.
pub record MadeIn (s u : Store) : Type 0 where
  pub tree : Made s.tree u.tree
  pub sessions : u.sessions ≡ s.sessions

pub MadeIn-refl : (s : Store) → MadeIn s s
MadeIn-refl s = record { tree = Made-refl s.tree; sessions = refl }

pub MadeIn-trans : {s u v : Store} → MadeIn s u → MadeIn u v → MadeIn s v
MadeIn-trans h k = record { tree = Made-trans h.tree k.tree; sessions = k.sessions ∙ h.sessions }

module _ (host : Host) where
  pub mkdir-MadeIn : (p : FilePath) (s : Store) → Wrote (MadeIn s) (mkdir host p s)
  unfolding mkdir
  mkdir-MadeIn p s = elim (Bool-cases (host.lands s.writes)) [
    | inr l ↦ rw l (λ e. let c : false ≡ true = e in cc)
    | inl l ↦ elim (Option-cases (make_dirs p s.tree)) [
      | inl f ↦ rw (l, f) (λ e. let c : false ≡ true = e in cc)
      | inr (t, f) ↦ rw (l, f) (λ e. record { tree = make_dirs-Made p s.tree t f; sessions = refl })
    ]
  ]

  ensure_dir-MadeIn : (p : FilePath) (s : Store) → Wrote (MadeIn s) (ensure_dir host p s)
  ensure_dir-MadeIn p s = elim (Bool-cases (exists s.tree p)) [
    | inl e ↦ rw e (λ w. MadeIn-refl s)
    | inr e ↦ rw e (mkdir-MadeIn p s)
  ]

  pub ensure_tasks_dir-MadeIn :
      (repo : FilePath) (s : Store) → Wrote (MadeIn s) (ensure_tasks_dir host repo s)
  unfolding ensure_tasks_dir
  ensure_tasks_dir-MadeIn repo s =
      let archive = get_tasks_dir repo ++ (lit "archive" ∷ []) in
      and_then-Wrote (MadeIn s) (MadeIn s) (ensure_dir host archive)
        (ensure_dir host (get_tasks_dir repo) s) (ensure_dir-MadeIn (get_tasks_dir repo) s)
        (λ u h w. MadeIn-trans h (ensure_dir-MadeIn archive u w))

-- What was not there after directories had been made was not there before.
pub not_there_before :
    {t u : TreeOf Content} (p : FilePath) (a : Text)
    → Made t u
    → exists u (p ++ (a ∷ [])) ≡ false
    → exists t (p ++ (a ∷ [])) ≡ false
unfolding exists
not_there_before {t} {u} p a h e = elim (Option-cases (find (p ++ (a ∷ [])) t)) [
  | inl f ↦ rw (node_at-concat p a t, f) refl
  | inr (n, f) ↦
      let k : true ≡ false = rw (node_at-concat p a u, h.keeps (p ++ (a ∷ [])) n f) at e in cc
]
