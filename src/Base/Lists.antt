-- ===== src/Base/Lists.antt =====
-- Lists measured by native numbers, and the tests on lists that the program makes.
use Prim.Native.Nat.{ℕ, zero, suc, ◌+◌, ◌-◌, ◌≤◌}
use mathlib.Core.Path.{◌≡◌, refl, ap}
use mathlib.Core.Bool.{Bool, true, false, ◌&&◌, ◌||◌}
use mathlib.Core.List.{List, [], ◌∷◌, ◌++◌}
use native.Mathlib.Omega.{arith}

module _ {ℓ} {A : Type ℓ} where
  abbrev pub length : List A → ℕ
  length [] = 0
  length (x ∷ xs) = suc (length xs)

  pub length-append : (xs ys : List A) → length (xs ++ ys) ≡ length xs + length ys
  length-append [] ys = omega arith
  length-append (x ∷ xs) ys = omega (arith, length-append xs ys)

  -- `xs[:n]` and `xs[n:]`.
  abbrev pub take : ℕ → List A → List A
  take zero xs = []
  take (suc n) [] = []
  take (suc n) (x ∷ xs) = x ∷ take n xs

  abbrev pub drop : ℕ → List A → List A
  drop zero xs = xs
  drop (suc n) [] = []
  drop (suc n) (x ∷ xs) = drop n xs

  abbrev pub replicate : ℕ → A → List A
  replicate zero a = []
  replicate (suc n) a = a ∷ replicate n a

  pub length-replicate : (n : ℕ) (a : A) → length (replicate n a) ≡ n
  length-replicate zero a = refl
  length-replicate (suc n) a = ap suc (length-replicate n a)

  abbrev pub is_empty : List A → Bool
  is_empty [] = true
  is_empty (x ∷ xs) = false

  -- `all(p(x) for x in xs)` and `any(...)`.
  abbrev pub all : (A → Bool) → List A → Bool
  all p [] = true
  all p (x ∷ xs) = p x && all p xs

  abbrev pub any : (A → Bool) → List A → Bool
  any p [] = false
  any p (x ∷ xs) = p x || any p xs

-- A predicate of each element, which computes to a tuple.
abbrev pub All {ℓ κ} : {A : Type ℓ} → (A → Type κ) → List A → Type κ
All P [] = Unit
All P (x ∷ xs) = P x × All P xs

module _ {ℓ} {A : Type ℓ} where
  pub take-nil : (n : ℕ) → take {A = A} n [] ≡ []
  take-nil zero = refl
  take-nil (suc n) = refl

  -- The first `k` elements and then as many as are left of `m`.
  pub take-drop :
      (k m : ℕ) (xs : List A)
      → k ≤ m
      → take k xs ++ take (m - length (take k xs)) (drop k xs) ≡ take m xs
  take-drop zero m xs h = let e : m - 0 ≡ m = omega arith in rw e refl
  take-drop (suc k) m [] h = rw (take-nil m) (take-nil (m - 0))
  take-drop (suc k) zero (x ∷ xs) h = absurd (omega arith)
  take-drop (suc k) (suc m) (x ∷ xs) h =
      let e : suc m - suc (length (take k xs)) ≡ m - length (take k xs) = omega arith in
      rw e (ap (λ r. x ∷ r) (take-drop k m xs (omega arith)))

  pub length-take_pos : (k : ℕ) (x : A) (xs : List A) → 1 ≤ k → 1 ≤ length (take k (x ∷ xs))
  length-take_pos zero x xs h = absurd (omega arith)
  length-take_pos (suc k) x xs h = omega arith
