-- ===== src/Base/TextLaws.antt =====
-- What the text helpers do on texts of a known shape.
use Prim.Native.Nat.{ℕ}
use mathlib.Core.Path.{◌≡◌, refl, ap}
use mathlib.Core.Logic.{inl, inr}
use mathlib.Core.Bool.{Bool, true, false, ◌&&◌}
use mathlib.Core.Option.{some}
use mathlib.Core.List.{List, [], ◌∷◌, ◌++◌}
use native.Mathlib.Omega.{arith}
use taihu.Base.Logic.{if◌then◌else◌, Bool-cases}
use taihu.Base.Lists.{all, any, is_empty}
use taihu.Base.Texts.{Text, lstrip, rstrip, strip, has, partition, last, init, ◌==◌, ==_iff, elem}

module _ (p : ℕ → Bool) where
  pub lstrip-append : (u s : Text) → all p u ≡ true → lstrip p (u ++ s) ≡ lstrip p s
  unfolding lstrip
  lstrip-append [] s h = refl
  lstrip-append (c ∷ u) s h = ground (arith, lstrip-append u s)

  pub lstrip-cons : (c : ℕ) (s : Text) → p c ≡ false → lstrip p (c ∷ s) ≡ c ∷ s
  unfolding lstrip
  lstrip-cons c s h = rw h

  pub rstrip-concat : (s : Text) (c : ℕ) → p c ≡ false → rstrip p (s ++ (c ∷ [])) ≡ s ++ (c ∷ [])
  unfolding rstrip
  rstrip-concat [] c h = rw h
  rstrip-concat (d ∷ s) c h = rw (rstrip-concat s c h) (rstrip-concat_step d s c)
    where
      rstrip-concat_step :
          (d : ℕ) (s : Text) (c : ℕ)
          → (if p d && is_empty (s ++ (c ∷ [])) then [] else d ∷ (s ++ (c ∷ [])))
            ≡ d ∷ (s ++ (c ∷ []))
      rstrip-concat_step d [] c = ground arith
      rstrip-concat_step d (e ∷ s) c = ground arith

  lstrip_of_none : (s : Text) → any p s ≡ false → lstrip p s ≡ s
  unfolding lstrip
  lstrip_of_none [] h = refl
  lstrip_of_none (c ∷ s) h = ground arith

  rstrip_of_none : (s : Text) → any p s ≡ false → rstrip p s ≡ s
  unfolding rstrip
  rstrip_of_none [] h = refl
  rstrip_of_none (c ∷ s) h = ground (arith, rstrip_of_none s)

  pub strip_of_none : (s : Text) → any p s ≡ false → strip p s ≡ s
  unfolding strip
  strip_of_none s h = rw (lstrip_of_none s h) (rstrip_of_none s h)

  -- A text whose first and last characters stay, with characters to drop in front.
  pub strip-append :
      (u s : Text) (c d : ℕ)
      → all p u ≡ true
      → p c ≡ false
      → p d ≡ false
      → strip p (u ++ (c ∷ (s ++ (d ∷ [])))) ≡ c ∷ (s ++ (d ∷ []))
  unfolding strip
  strip-append u s c d hu hc hd =
      rw (lstrip-append u (c ∷ (s ++ (d ∷ []))) hu, lstrip-cons c (s ++ (d ∷ [])) hc)
        (rstrip-concat (c ∷ s) d hd)

pub partition-append :
    (c : ℕ) (s t : Text) → has c s ≡ false → partition c (s ++ (c ∷ t)) ≡ (s, some t)
unfolding partition has
partition-append c [] t h = ground arith
partition-append c (d ∷ s) t h = ground (arith, partition-append c s t)

pub last-append : (c d : ℕ) (s : Text) → last c (s ++ (d ∷ [])) ≡ d
unfolding last
last-append c d [] = refl
last-append c d (e ∷ s) = last-append e d s

pub init-append : (s : Text) (c : ℕ) → init (s ++ (c ∷ [])) ≡ s
unfolding init
init-append [] c = refl
init-append (d ∷ []) c = refl
init-append (d ∷ e ∷ s) c = ap (λ t. d ∷ t) (init-append (e ∷ s) c)

-- A test that passes on each member of a list of texts passes on a text that is one of them.
pub all-elem :
    (p : Text → Bool) (ts : List Text) (s : Text) → all p ts ≡ true → elem s ts ≡ true → p s ≡ true
unfolding elem
all-elem p [] s h e = ground arith
all-elem p (t ∷ ts) s h e = elim (Bool-cases (s == t)) [
  | inl same ↦ rw ((==_iff s t).0 same) (ground arith)
  | inr other ↦ all-elem p ts s (ground arith) (rw other at e)
]
