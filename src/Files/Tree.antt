-- ===== src/Files/Tree.antt =====
-- Python's `os`, `shutil` and `pathlib` on a file tree.
use taihu.Base.{
  ℕ, Bool, true, false, not, ◌&&◌, Option, none, some, List, [], ◌∷◌, ◌++◌, ltb, if◌then◌else◌,
  Text, ◌==◌,
}

-- The segments of an absolute path; `[]` is the root, which is always there.
abbrev pub FilePath : Type 0
FilePath = List Text

unfoldable pub same_path : FilePath → FilePath → Bool
same_path [] [] = true
same_path (a ∷ p) (b ∷ q) = a == b && same_path p q
same_path _ _ = false

-- A node whose files hold an `A`.
pub data NodeOf (A : Type 0) : Type 0 where
  dir : NodeOf A
  file : A → NodeOf A

abbrev pub TreeOf : Type 0 → Type 0
TreeOf A = List (FilePath × NodeOf A)

-- Files of bytes.
abbrev pub Node : Type 0
Node = NodeOf (List ℕ)

abbrev pub Tree : Type 0
Tree = TreeOf (List ℕ)

unfoldable pub find : {A : Type 0} → FilePath → TreeOf A → Option (NodeOf A)
find p [] = none
find p ((q, n) ∷ t) = if same_path q p then some n else find p t

unfoldable pub node_at : {A : Type 0} → TreeOf A → FilePath → Option (NodeOf A)
node_at t [] = some dir
node_at t (a ∷ p) = find (a ∷ p) t

abbrev pub is_dir_node : {A : Type 0} → Option (NodeOf A) → Bool
is_dir_node none = false
is_dir_node (some dir) = true
is_dir_node (some (file content)) = false

abbrev pub is_some {ℓ} : {A : Type ℓ} → Option A → Bool
is_some none = false
is_some (some a) = true

unfoldable pub is_dir : {A : Type 0} → TreeOf A → FilePath → Bool
is_dir t p = is_dir_node (node_at t p)

unfoldable pub exists : {A : Type 0} → TreeOf A → FilePath → Bool
exists t p = is_some (node_at t p)

-- Everything but the last segment.
unfoldable pub parent : FilePath → FilePath
parent [] = []
parent (a ∷ []) = []
parent (a ∷ b ∷ p) = a ∷ parent (b ∷ p)

unfoldable pub set_node : {A : Type 0} → FilePath → NodeOf A → TreeOf A → TreeOf A
set_node p n [] = (p, n) ∷ []
set_node p n ((q, m) ∷ t) = if same_path q p then (q, n) ∷ t else (q, m) ∷ set_node p n t

-- `p` is `q` or lies below it.
unfoldable pub within : FilePath → FilePath → Bool
within [] p = true
within (a ∷ q) [] = false
within (a ∷ q) (b ∷ p) = a == b && within q p

-- `p.relative_to(base)`
unfoldable pub relative_to : FilePath → FilePath → Option FilePath
relative_to [] p = some p
relative_to (a ∷ base) [] = none
relative_to (a ∷ base) (b ∷ p) = let rest = relative_to base p in if a == b then rest else none

-- Nothing at or below `p`.
unfoldable pub prune : {A : Type 0} → FilePath → TreeOf A → TreeOf A
prune p [] = []
prune p ((q, n) ∷ t) = let rest = prune p t in if within p q then rest else (q, n) ∷ rest

-- The directory `p`, made if nothing is there, and what is made below it.
unfoldable pub enter_dir :
    {A : Type 0}
    → (TreeOf A → Option (TreeOf A))
    → FilePath
    → TreeOf A
    → Option (NodeOf A)
    → Option (TreeOf A)
enter_dir below p t none = below (set_node p dir t)
enter_dir below p t (some dir) = below t
enter_dir below p t (some (file content)) = none

-- `os.makedirs(p, exist_ok=True)`, below the prefix that is there.
unfoldable pub make_dirs_below : {A : Type 0} → FilePath → FilePath → TreeOf A → Option (TreeOf A)
unfolding enter_dir
make_dirs_below done [] t = some t
make_dirs_below done (a ∷ rest) t =
    enter_dir (make_dirs_below (done ++ (a ∷ [])) rest) (done ++ (a ∷ [])) t
      (node_at t (done ++ (a ∷ [])))

unfoldable pub make_dirs : {A : Type 0} → FilePath → TreeOf A → Option (TreeOf A)
unfolding make_dirs_below
make_dirs p t = make_dirs_below [] p t

-- `open(p, "wb")` and the writes: the parent has to be a directory, and `p` must not be one.
unfoldable pub write_file : {A : Type 0} → FilePath → A → TreeOf A → Option (TreeOf A)
write_file p content t =
    if is_dir t (parent p) && not (is_dir t p) then some (set_node p (file content) t) else none

-- `os.remove` on a file, `shutil.rmtree` on a directory; the root itself stays.
unfoldable pub remove_tree : {A : Type 0} → FilePath → TreeOf A → Option (TreeOf A)
remove_tree [] t = none
remove_tree (a ∷ p) t = some (prune (a ∷ p) t)

-- The name of an entry directly below `p`.
unfoldable pub child_name : FilePath → FilePath → Option Text
child_name [] (b ∷ []) = some b
child_name [] _ = none
child_name (a ∷ q) [] = none
child_name (a ∷ q) (b ∷ p) = if a == b then child_name q p else none

unfoldable pub text_le : Text → Text → Bool
text_le [] t = true
text_le (c ∷ s) [] = false
text_le (c ∷ s) (d ∷ t) = if ltb c d then true else if ltb d c then false else text_le s t

unfoldable pub insert_sorted : Text → List Text → List Text
insert_sorted a [] = a ∷ []
insert_sorted a (b ∷ l) = if text_le a b then a ∷ b ∷ l else b ∷ insert_sorted a l

-- `sorted(os.listdir(p))`
unfoldable pub list_dir : {A : Type 0} → FilePath → TreeOf A → List Text
unfolding child_name insert_sorted text_le
list_dir p [] = []
list_dir p ((q, n) ∷ t) =
    let rest = list_dir p t in
    elim (child_name p q) [ none ↦ rest | some name ↦ insert_sorted name rest ]
