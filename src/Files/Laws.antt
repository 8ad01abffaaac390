-- ===== src/Files/Laws.antt =====
-- What the operations on the file tree do to the node at any path.
use taihu.Base.{
  ◌≡◌, refl, ap, ◌↔◌, ◌⊎◌, true, false, Option, none, some, [], ◌∷◌, ◌++◌, if◌then◌else◌, Text,
  ==_iff, arith, Bool-cases, inl, inr,
}
use mathlib.Core.List.{append-nil, append_assoc}
use taihu.Files.Tree.{
  FilePath, same_path, NodeOf, dir, file, TreeOf, find, node_at, is_dir, exists, parent, set_node,
  within, prune, make_dirs, make_dirs_below, enter_dir, write_file, remove_tree, is_dir_node,
}

pub same_path_iff : (p q : FilePath) → (same_path p q ≡ true) ↔ (p ≡ q)
unfolding same_path
same_path_iff [] [] = ground arith
same_path_iff [] (b ∷ q) = ground arith
same_path_iff (a ∷ p) [] = ground arith
same_path_iff (a ∷ p) (b ∷ q) = ground (arith, ==_iff a b, same_path_iff p q)

pub find-set_node :
    {A : Type 0} (p q : FilePath) (n : NodeOf A) (t : TreeOf A)
    → find q (set_node p n t) ≡ (if same_path p q then some n else find q t)
unfolding find set_node
find-set_node p q n [] = refl
find-set_node p q n ((r, m) ∷ t) =
    ground (arith, find-set_node p q n t, same_path_iff r p, same_path_iff r q, same_path_iff p q)

pub find-prune :
    {A : Type 0} (p q : FilePath) (t : TreeOf A)
    → find q (prune p t) ≡ (if within p q then none else find q t)
unfolding find prune
find-prune p q [] = ground arith
find-prune p q ((r, m) ∷ t) = elim (Bool-cases (same_path r q)) [
  | inl same ↦
      let e : r ≡ q = (same_path_iff r q).0 same in
      rw e (ground (arith, find-prune p q t, same_path_iff q q))
  | inr other ↦ ground (arith, find-prune p q t)
]

pub node_at-set_node :
    {A : Type 0} (a : Text) (p q : FilePath) (n : NodeOf A) (t : TreeOf A)
    → node_at (set_node (a ∷ p) n t) q ≡ (if same_path (a ∷ p) q then some n else node_at t q)
unfolding node_at same_path
node_at-set_node a p [] n t = refl
node_at-set_node a p (b ∷ q) n t = find-set_node (a ∷ p) (b ∷ q) n t

pub node_at-prune :
    {A : Type 0} (a : Text) (p q : FilePath) (t : TreeOf A)
    → node_at (prune (a ∷ p) t) q ≡ (if within (a ∷ p) q then none else node_at t q)
unfolding node_at within
node_at-prune a p [] t = refl
node_at-prune a p (b ∷ q) t = find-prune (a ∷ p) (b ∷ q) t

pub parent-concat : (p : FilePath) (a : Text) → parent (p ++ (a ∷ [])) ≡ p
unfolding parent
parent-concat [] a = refl
parent-concat (b ∷ []) a = refl
parent-concat (b ∷ c ∷ p) a = ap (λ q. b ∷ q) (parent-concat (c ∷ p) a)

parent-ne_self : (a : Text) (p : FilePath) → same_path (a ∷ p) (parent (a ∷ p)) ≡ false
unfolding parent same_path
parent-ne_self a [] = refl
parent-ne_self a (b ∷ p) = ground (arith, parent-ne_self b p)

within-parent : (p q : FilePath) → within p (parent q) ≡ true → within p q ≡ true
unfolding within parent
within-parent [] q h = refl
within-parent (a ∷ p) [] h = h
within-parent (a ∷ p) (b ∷ []) h = ground arith
within-parent (a ∷ p) (b ∷ c ∷ q) h = ground (arith, within-parent p (c ∷ q))

-- What stands in the tree stands in a directory.
pub record IsRooted {A : Type 0} (t : TreeOf A) : Type 0 where
  pub parents : (q : FilePath) → exists t q ≡ true → is_dir t (parent q) ≡ true

pub empty-IsRooted : {A : Type 0} → IsRooted {A = A} []
unfolding exists is_dir node_at find parent
empty-IsRooted {A} = record { parents = below }
  where
    below : (q : FilePath) → exists {A = A} [] q ≡ true → is_dir {A = A} [] (parent q) ≡ true
    below [] e = refl
    below (a ∷ q) e = ground arith

pub set_node-IsRooted :
    {A : Type 0} (a : Text) (p : FilePath) (n : NodeOf A) (t : TreeOf A)
    → IsRooted t
    → is_dir t (parent (a ∷ p)) ≡ true
    → (is_dir t (a ∷ p) ≡ false) ⊎ (n ≡ dir)
    → IsRooted (set_node (a ∷ p) n t)
unfolding exists is_dir
set_node-IsRooted a p n t r d f = record {
  parents = λ q e. elim (Bool-cases (same_path (a ∷ p) q)) [
    | inl same ↦
        let path : a ∷ p ≡ q = (same_path_iff (a ∷ p) q).0 same in
        rw (← path) (ground (arith, node_at-set_node a p (parent (a ∷ p)) n t, parent-ne_self a p))
    | inr other ↦ ground (
      arith,
      node_at-set_node a p q n t,
      node_at-set_node a p (parent q) n t,
      same_path_iff (a ∷ p) (parent q),
      r.parents q,
    )
  ];
}

prune-IsRooted :
    {A : Type 0} (a : Text) (p : FilePath) (t : TreeOf A) → IsRooted t → IsRooted (prune (a ∷ p) t)
unfolding exists is_dir
prune-IsRooted a p t r = record {
  parents = λ q e. ground (
    arith,
    node_at-prune a p q t,
    node_at-prune a p (parent q) t,
    within-parent (a ∷ p) q,
    r.parents q,
  );
}

-- A write keeps the tree rooted.
pub write_file-IsRooted :
    {A : Type 0} (p : FilePath) (content : A) (t : TreeOf A) {u : TreeOf A}
    → IsRooted t
    → write_file p content t ≡ some u
    → IsRooted u
unfolding write_file is_dir node_at parent
write_file-IsRooted [] content t r h = ground arith
write_file-IsRooted (a ∷ p) content t r h = elim (Bool-cases (is_dir t (parent (a ∷ p)))) [
  | inl d ↦ elim (Bool-cases (is_dir t (a ∷ p))) [
    | inl f ↦ ground arith
    | inr f ↦
        let e : set_node (a ∷ p) (file content) t ≡ _ = ground arith in
        rw e at (set_node-IsRooted a p (file content) t r d (inl f))
  ]
  | inr d ↦ ground arith
]

pub remove_tree-IsRooted :
    {A : Type 0} (p : FilePath) (t : TreeOf A) {u : TreeOf A}
    → IsRooted t
    → remove_tree p t ≡ some u
    → IsRooted u
unfolding remove_tree
remove_tree-IsRooted [] t r h = ground arith
remove_tree-IsRooted (a ∷ p) t r h =
    let e : prune (a ∷ p) t ≡ _ = cc in rw e at (prune-IsRooted a p t r)

mkdir-IsRooted :
    {A : Type 0} (done : FilePath) (a : Text) (t : TreeOf A)
    → IsRooted t
    → is_dir t done ≡ true
    → is_dir t (done ++ (a ∷ [])) ≡ false
    → IsRooted (set_node (done ++ (a ∷ [])) dir t)
      × (is_dir (set_node (done ++ (a ∷ [])) dir t) (done ++ (a ∷ [])) ≡ true)
unfolding is_dir node_at parent
mkdir-IsRooted [] a t r d f = (
  set_node-IsRooted a [] dir t r refl (inr refl),
  ground (arith, node_at-set_node a [] (a ∷ []) dir t, same_path_iff (a ∷ []) (a ∷ [])),
)
mkdir-IsRooted (b ∷ done) a t r d f = (
  set_node-IsRooted b (done ++ (a ∷ [])) dir t r (rw (parent-concat (b ∷ done) a) d) (inr refl),
  ground (
    arith,
    node_at-set_node b (done ++ (a ∷ [])) (b ∷ (done ++ (a ∷ []))) dir t,
    same_path_iff (b ∷ (done ++ (a ∷ []))) (b ∷ (done ++ (a ∷ []))),
  ),
)

-- What is made at and below `p` is rooted, and has the directory `goal`, if that holds of what is
-- made below `p` once `p` is there.
enter_dir-IsRooted :
    {A : Type 0} (below : TreeOf A → Option (TreeOf A)) (done : FilePath) (a : Text)
    (t u : TreeOf A) (goal : FilePath)
    → ((v : TreeOf A)
        → IsRooted v
        → is_dir v (done ++ (a ∷ [])) ≡ true
        → below v ≡ some u
        → IsRooted u × (is_dir u goal ≡ true))
    → IsRooted t
    → is_dir t done ≡ true
    → (o : Option (NodeOf A)) → node_at t (done ++ (a ∷ [])) ≡ o
    → enter_dir below (done ++ (a ∷ [])) t o ≡ some u
    → IsRooted u × (is_dir u goal ≡ true)
unfolding enter_dir
enter_dir-IsRooted below done a t u goal keep r d none e h =
    let (x, y) = mkdir-IsRooted done a t r d (unfold is_dir in ap is_dir_node e) in
    keep (set_node (done ++ (a ∷ [])) dir t) x y h
enter_dir-IsRooted below done a t u goal keep r d (some dir) e h =
    keep t r (unfold is_dir in ap is_dir_node e) h
enter_dir-IsRooted below done a t u goal keep r d (some (file c)) e h = cc

make_dirs_below-IsRooted :
    {A : Type 0} (rest done : FilePath) (t u : TreeOf A)
    → IsRooted t
    → is_dir t done ≡ true
    → make_dirs_below done rest t ≡ some u
    → IsRooted u × (is_dir u (done ++ rest) ≡ true)
unfolding make_dirs_below
make_dirs_below-IsRooted [] done t u r d h =
    let e : t ≡ u = cc in (rw e at r, rw append-nil (rw e at d))
make_dirs_below-IsRooted (a ∷ rest) done t u r d h =
    enter_dir-IsRooted (make_dirs_below (done ++ (a ∷ [])) rest) done a t u (done ++ (a ∷ rest))
      (λ v rv dv hv.
        let (x, y) = make_dirs_below-IsRooted rest (done ++ (a ∷ [])) v u rv dv hv in
        (x, rw (append_assoc done (a ∷ []) rest) at y))
      r d (node_at t (done ++ (a ∷ []))) refl h

-- `makedirs` keeps the tree rooted, and its path is then a directory.
pub make_dirs-IsRooted :
    {A : Type 0} (p : FilePath) (t u : TreeOf A)
    → IsRooted t
    → make_dirs p t ≡ some u
    → IsRooted u × (is_dir u p ≡ true)
unfolding make_dirs
make_dirs-IsRooted p t u r h = make_dirs_below-IsRooted p [] t u r (unfold is_dir node_at in refl) h
