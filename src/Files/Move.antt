-- ===== src/Files/Move.antt =====
-- `shutil.move` of a file or a directory to a path where nothing is, and what it does to every node.
use taihu.Base.{
  ◌≡◌, refl, sym, ap, true, false, Option, none, some, Option-cases, [], ◌∷◌, ◌++◌, if◌then◌else◌,
  Text, ==_iff, ==_refl, arith, inl, inr, Bool-cases,
}
use mathlib.Core.List.{append-nil, append_assoc}
use taihu.Files.Tree.{
  FilePath, same_path, NodeOf, dir, file, TreeOf, find, node_at, is_dir, exists, set_node,
  relative_to, make_dirs, make_dirs_below, enter_dir, is_some, is_dir_node,
}
use taihu.Files.Laws.{same_path_iff, find-set_node, parent-concat, IsRooted}

-- The path that a node has afterwards.
abbrev placed : FilePath → FilePath → Option FilePath → FilePath
placed q k none = k
placed q k (some r) = q ++ r

unfoldable pub move_tree : {A : Type 0} → FilePath → FilePath → TreeOf A → TreeOf A
move_tree p q [] = []
move_tree p q ((k, n) ∷ t) = (placed q k (relative_to p k), n) ∷ move_tree p q t

pub relative_to-append : (p r : FilePath) → relative_to p (p ++ r) ≡ some r
unfolding relative_to
relative_to-append [] r = refl
relative_to-append (a ∷ p) r = rw (==_refl a) (relative_to-append p r)

pub relative_to-eq_some : (p k r : FilePath) → relative_to p k ≡ some r → k ≡ p ++ r
unfolding relative_to
relative_to-eq_some [] k r h = cc
relative_to-eq_some (a ∷ p) [] r h = ground arith
relative_to-eq_some (a ∷ p) (b ∷ k) r h = ground (arith, ==_iff a b, relative_to-eq_some p k r)

same_path-append : (p s r : FilePath) → same_path (p ++ s) (p ++ r) ≡ same_path s r
unfolding same_path
same_path-append [] s r = refl
same_path-append (a ∷ p) s r = rw (==_refl a) (same_path-append p s r)

same_path-sym : (p q : FilePath) → same_path p q ≡ same_path q p
unfolding same_path
same_path-sym [] [] = refl
same_path-sym [] (b ∷ q) = refl
same_path-sym (a ∷ p) [] = refl
same_path-sym (a ∷ p) (b ∷ q) = rw (same_path-sym p q) (ground (arith, ==_iff a b, ==_iff b a))

-- Nothing stands at `q` or below it.
abbrev pub IsFree : {A : Type 0} → FilePath → TreeOf A → Type 0
IsFree q t = (r : FilePath) → find (q ++ r) t ≡ none

clash : (o : Option FilePath) (r : FilePath) → o ≡ none → o ≡ some r → ⊥
clash none r h e = ground arith
clash (some s) r h e = ground arith

apart : (p k r : FilePath) → relative_to p k ≡ none → same_path k (p ++ r) ≡ false
apart p k r h = elim (Bool-cases (same_path k (p ++ r))) [
  | inr e ↦ e
  | inl e ↦
      let same : k ≡ p ++ r = (same_path_iff k (p ++ r)).0 e in
      let some_rest : relative_to p k ≡ some r = rw same (relative_to-append p r) in
      absurd (clash (relative_to p k) r h some_rest)
]

not_first :
    {A : Type 0} (k : FilePath) (n : NodeOf A) (t : TreeOf A) (x : FilePath)
    → find x ((k, n) ∷ t) ≡ none
    → find x t ≡ none
unfolding find
not_first k n t x h = ground arith

not_same :
    {A : Type 0} (k : FilePath) (n : NodeOf A) (t : TreeOf A) (x : FilePath)
    → find x ((k, n) ∷ t) ≡ none
    → same_path k x ≡ false
unfolding find
not_same k n t x h = ground arith

-- After the move the nodes below the new path are those that were below the old one.
pub find-move_tree :
    {A : Type 0} (p q r : FilePath) (t : TreeOf A)
    → IsFree q t
    → find (q ++ r) (move_tree p q t) ≡ find (p ++ r) t
unfolding find move_tree
find-move_tree p q r [] free = refl
find-move_tree p q r ((k, n) ∷ t) free =
    let rest = find-move_tree p q r t (λ s. not_first k n t (q ++ s) (free s)) in
    elim (Option-cases (relative_to p k)) [
      | inl e ↦ rw (e, apart p k r e, not_same k n t (q ++ r) (free r)) rest
      | inr (s, e) ↦
          let old : k ≡ p ++ s = relative_to-eq_some p k s e in
          rw (e, old, same_path-append q s r, same_path-append p s r)
            (ap (λ o. if same_path s r then some n else o) rest)
    ]

placed_elsewhere :
    {A : Type 0} (p q k x : FilePath) (n : NodeOf A) (o : Option FilePath)
    → relative_to p k ≡ o
    → relative_to p x ≡ none
    → relative_to q x ≡ none
    → (m : Option (NodeOf A))
    → (if same_path (placed q k o) x then some n else m) ≡ (if same_path k x then some n else m)
placed_elsewhere p q k x n none e h g m = refl
placed_elsewhere p q k x n (some s) e h g m =
    let old : k ≡ p ++ s = relative_to-eq_some p k s e in
    rw (old, same_path-sym (p ++ s) x, apart p x s h, same_path-sym (q ++ s) x, apart q x s g) refl

-- Outside the old path and the new one a move changes nothing.
pub find-move_tree_elsewhere :
    {A : Type 0} (p q x : FilePath) (t : TreeOf A)
    → relative_to p x ≡ none
    → relative_to q x ≡ none
    → find x (move_tree p q t) ≡ find x t
unfolding find move_tree
find-move_tree_elsewhere p q x [] h g = refl
find-move_tree_elsewhere p q x ((k, n) ∷ t) h g =
    rw (find-move_tree_elsewhere p q x t h g)
      (placed_elsewhere p q k x n (relative_to p k) refl h g (find x t))

some_dir : {A : Type 0} (o : Option (NodeOf A)) → is_dir_node o ≡ true → is_some o ≡ true
some_dir none h = ground arith
some_dir (some n) h = refl

is_dir-exists : {A : Type 0} (t : TreeOf A) (p : FilePath) → is_dir t p ≡ true → exists t p ≡ true
unfolding is_dir exists
is_dir-exists t p h = some_dir (node_at t p) h

no_child :
    {A : Type 0} (t : TreeOf A) (p : FilePath) (a : Text)
    → IsRooted t
    → exists t p ≡ false
    → exists t (p ++ (a ∷ [])) ≡ false
no_child t p a rooted h = elim (Bool-cases (exists t (p ++ (a ∷ [])))) [
  | inr e ↦ e
  | inl e ↦
      let there =
        is_dir-exists t p (rw (parent-concat p a) at (rooted.parents (p ++ (a ∷ [])) e)) in
      ground arith
]

-- Where nothing is, nothing is below.
pub rooted-below :
    {A : Type 0} (t : TreeOf A) (p r : FilePath)
    → IsRooted t
    → exists t p ≡ false
    → exists t (p ++ r) ≡ false
rooted-below t p [] rooted h = rw append-nil h
rooted-below t p (a ∷ r) rooted h =
    let child : exists t (p ++ (a ∷ [])) ≡ false = no_child t p a rooted h in
    rw (append_assoc p (a ∷ []) r) at (rooted-below t (p ++ (a ∷ [])) r rooted child)

pub node_at-concat :
    {A : Type 0} (done : FilePath) (a : Text) (t : TreeOf A)
    → node_at t (done ++ (a ∷ [])) ≡ find (done ++ (a ∷ [])) t
unfolding node_at
node_at-concat [] a t = refl
node_at-concat (b ∷ done) a t = refl

enter_dir-keeps :
    {A : Type 0} (below : TreeOf A → Option (TreeOf A)) (p x : FilePath) (n : NodeOf A)
    (t u : TreeOf A)
    → ((v : TreeOf A) → below v ≡ some u → find x v ≡ some n → find x u ≡ some n)
    → find x t ≡ some n
    → (o : Option (NodeOf A)) → find p t ≡ o
    → enter_dir below p t o ≡ some u
    → find x u ≡ some n
unfolding enter_dir
enter_dir-keeps below p x n t u keep f none e h =
    keep (set_node p dir t) h (ground (arith, find-set_node p x dir t, same_path_iff p x))
enter_dir-keeps below p x n t u keep f (some dir) e h = keep t h f
enter_dir-keeps below p x n t u keep f (some (file c)) e h = ground arith

-- Making directories keeps every node that is there.
make_dirs_below-keeps :
    {A : Type 0} (rest done x : FilePath) (n : NodeOf A) (t u : TreeOf A)
    → make_dirs_below done rest t ≡ some u
    → find x t ≡ some n
    → find x u ≡ some n
unfolding make_dirs_below
make_dirs_below-keeps [] done x n t u h f = let e : t ≡ u = cc in rw e at f
make_dirs_below-keeps (a ∷ rest) done x n t u h f =
    enter_dir-keeps (make_dirs_below (done ++ (a ∷ [])) rest) (done ++ (a ∷ [])) x n t u
      (λ v hv fv. make_dirs_below-keeps rest (done ++ (a ∷ [])) x n v u hv fv) f
      (node_at t (done ++ (a ∷ []))) (sym (node_at-concat done a t)) h

pub make_dirs-keeps :
    {A : Type 0} (p x : FilePath) (n : NodeOf A) (t u : TreeOf A)
    → make_dirs p t ≡ some u
    → find x t ≡ some n
    → find x u ≡ some n
unfolding make_dirs
make_dirs-keeps p x n t u h f = make_dirs_below-keeps p [] x n t u h f

is_some-eq_false : {A : Type 0} (o : Option (NodeOf A)) → is_some o ≡ false → o ≡ none
is_some-eq_false none h = refl
is_some-eq_false (some n) h = ground arith

pub nothing_at : {A : Type 0} (t : TreeOf A) (p : FilePath) → exists t p ≡ false → find p t ≡ none
unfolding exists node_at
nothing_at t [] h = ground arith
nothing_at t (a ∷ p) h = is_some-eq_false (find (a ∷ p) t) h
