-- ===== src/Workspace/Journal.antt =====
-- .trellis/scripts/common/paths.py: `get_active_journal_file`.
use taihu.Base.{
  ℕ, ◌+◌, ◌-◌, ◌*◌, ◌≤◌, ◌≡◌, refl, Bool, ◌&&◌, Option, none, some, List, [], ◌∷◌, reverse, ltb,
  if◌then◌else◌, Text, lit, is_digit, starts_with, ends_with, take, length, All, arith, inl, inr,
  ◌⊎◌, Bool-cases,
}

-- The digits at the start of a text.
unfoldable pub leading_digits : Text → Text
leading_digits [] = []
leading_digits (c ∷ s) = let rest = leading_digits s in if is_digit c then c ∷ rest else []

unfoldable pub value_from : ℕ → Text → ℕ
value_from acc [] = acc
value_from acc (c ∷ s) = value_from (acc * 10 + (c - b'0')) s

abbrev number_or_none : Text → Option ℕ
number_or_none [] = none
number_or_none (c ∷ s) = some (value_from 0 (c ∷ s))

-- `re.search(r"(\d+)$", stem)`, for ASCII digits.
unfoldable pub trailing_number : Text → Option ℕ
trailing_number stem = number_or_none (reverse (leading_digits (reverse stem)))

-- The number of a file that the glob `journal-*.md` matches.
unfoldable pub journal_number : (Text → Bool) → Text → Option ℕ
journal_number is_file name =
    if starts_with name (lit "journal-") && ends_with name (lit ".md") && is_file name
    then trailing_number (take (length name - 3) name)
    else none

abbrev pub better : Text → Option ℕ → Option Text × ℕ → Option Text × ℕ
better name none (latest, highest) = (latest, highest)
better name (some n) (latest, highest) = if ltb highest n then (some name, n) else (latest, highest)

module _ (is_file : Text → Bool) where
  -- The loop, with the latest file and its number so far.
  unfoldable pub latest_from : Option Text × ℕ → List Text → Option Text × ℕ
  latest_from best [] = best
  latest_from best (name ∷ names) =
      latest_from (better name (journal_number is_file name) best) names

  -- `get_active_journal_file` on the names in the workspace.
  unfoldable pub get_active_journal_file : List Text → Option Text
  get_active_journal_file names = (latest_from (none, 0) names).0

  abbrev pub AtMost : ℕ → Text → Type 0
  AtMost h name = (m : ℕ) → journal_number is_file name ≡ some m → m ≤ h

  abbrev IsBest : Option Text × ℕ → Type 0
  IsBest (latest, h) =
      ((latest ≡ none) × (h ≡ 0))
      ⊎ ((f : Text) × (latest ≡ some f) × (journal_number is_file f ≡ some h))

  better-IsBest :
      (name : Text) (o : Option ℕ) (best : Option Text × ℕ)
      → journal_number is_file name ≡ o
      → IsBest best
      → IsBest (better name o best)
  better-IsBest name none best e b = b
  better-IsBest name (some n) (latest, h) e b = elim (Bool-cases (ltb h n)) [
    | inl x ↦ rw x (inr (name, refl, e))
    | inr x ↦ rw x b
  ]

  better-grows :
      (name : Text) (o : Option ℕ) (best : Option Text × ℕ) → best.1 ≤ (better name o best).1
  better-grows name none best = omega arith
  better-grows name (some n) (latest, h) = ground arith

  better-AtMost :
      (name : Text) (o : Option ℕ) (best : Option Text × ℕ) (m : ℕ)
      → o ≡ some m
      → m ≤ (better name o best).1
  better-AtMost name none best m e = ground arith
  better-AtMost name (some n) (latest, h) m e = let same : m ≡ n = cc in ground arith

  latest_from-grows :
      (best : Option Text × ℕ) (names : List Text) → best.1 ≤ (latest_from best names).1
  unfolding latest_from
  latest_from-grows best [] = omega arith
  latest_from-grows best (name ∷ names) =
      let next = better name (journal_number is_file name) best in
      omega
        (arith, better-grows name (journal_number is_file name) best, latest_from-grows next names)

  latest_from-IsBest :
      (best : Option Text × ℕ) (names : List Text) → IsBest best → IsBest (latest_from best names)
  unfolding latest_from
  latest_from-IsBest best [] b = b
  latest_from-IsBest best (name ∷ names) b =
      latest_from-IsBest (better name (journal_number is_file name) best) names
        (better-IsBest name (journal_number is_file name) best refl b)

  latest_from-AtMost :
      (best : Option Text × ℕ) (names : List Text) → All (AtMost (latest_from best names).1) names
  unfolding latest_from
  latest_from-AtMost best [] = tt
  latest_from-AtMost best (name ∷ names) =
      let next = better name (journal_number is_file name) best in
      (
        (λ m e. omega (
          arith,
          better-AtMost name (journal_number is_file name) best m e,
          latest_from-grows next names,
        )),
        latest_from-AtMost next names,
      )

  -- The active journal is a journal file whose number no other exceeds.
  pub get_active_journal_file-AtMost :
      (names : List Text) (f : Text)
      → get_active_journal_file names ≡ some f
      → (n : ℕ) × (journal_number is_file f ≡ some n) × All (AtMost n) names
  unfolding get_active_journal_file
  get_active_journal_file-AtMost names f h =
      let best = latest_from-IsBest (none, 0) names (inl (refl, refl)) in
      elim best [
        | inl (e, z) ↦ ground arith
        | inr (g, e, n) ↦
            let same : f ≡ g = cc in
            ((latest_from (none, 0) names).1, rw same n, latest_from-AtMost (none, 0) names)
      ]
