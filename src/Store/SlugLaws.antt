-- ===== src/Store/SlugLaws.antt =====
-- .trellis/scripts/common/task_store.py: what a slug looks like, and what a validated name keeps out.
use taihu.Base.{
  ℕ, ◌≡◌, refl, inl, inr, ◌⊎◌, arith, Bool, true, false, not, ◌&&◌, ◌||◌, Bool-cases, [], ◌∷◌, eqb,
  if◌then◌else◌, Text, is_empty, all, lstrip, rstrip, strip, lower_char,
}
use taihu.Store.Slugs.{slug_char, dashed, squeeze, slugify}

-- Words of slug characters with single dashes between them; the flag says that a word is being read.
unfoldable pub is_slug_from : Bool → Text → Bool
is_slug_from word [] = word
is_slug_from word (c ∷ s) =
    let more = is_slug_from true s in
    let next = is_slug_from false s in if slug_char c then more else eqb c b'-' && word && next

abbrev pub IsSlug : Text → Type 0
IsSlug s = is_slug_from false s ≡ true

abbrev slug_or_dash : ℕ → Bool
slug_or_dash c = slug_char c || eqb c b'-'

abbrev dash : ℕ → Bool
dash = eqb b'-'

dashed-slug_or_dash : (s : Text) → all slug_or_dash (dashed s) ≡ true
unfolding dashed slug_char
dashed-slug_or_dash [] = refl
dashed-slug_or_dash (c ∷ s) = ground (arith, dashed-slug_or_dash s)

-- Squeezed dashes: at most one in front, and none behind a dash.
lstrip-squeeze : (prev : Bool) (s : Text) → lstrip dash (squeeze prev s) ≡ squeeze true s
unfolding lstrip squeeze
lstrip-squeeze prev [] = refl
lstrip-squeeze true (c ∷ s) = ground (arith, lstrip-squeeze true s)
lstrip-squeeze false (c ∷ s) = ground (arith, lstrip-squeeze true s)

abbrev kept : ℕ → Text → Text
kept c r = if dash c && is_empty r then [] else c ∷ r

kept-dash : (r : Text) → (r ≡ []) ⊎ IsSlug r → is_slug_from true (kept b'-' r) ≡ true
unfolding is_slug_from slug_char
kept-dash [] h = refl
kept-dash (c ∷ r) (inl h) = cc
kept-dash (c ∷ r) (inr h) = h

kept-word :
    (word : Bool) (c : ℕ) (r : Text)
    → slug_char c ≡ true
    → is_slug_from true r ≡ true
    → is_slug_from word (kept c r) ≡ true
unfolding is_slug_from slug_char
kept-word word c r h k = ground arith

-- What is left of a squeezed text, behind a dash and behind a word.
rstrip-squeeze :
    (s : Text)
    → all slug_or_dash s ≡ true
    → ((rstrip dash (squeeze true s) ≡ []) ⊎ IsSlug (rstrip dash (squeeze true s)))
      × (is_slug_from true (rstrip dash (squeeze false s)) ≡ true)
unfolding rstrip squeeze is_slug_from
rstrip-squeeze [] h = (inl refl, refl)
rstrip-squeeze (c ∷ s) h =
    let (behind_dash, behind_word) = rstrip-squeeze s (ground arith) in
    elim (Bool-cases (eqb c b'-')) [
      | inl d ↦
          let e : c ≡ b'-' = ground arith in
          rw e (behind_dash, kept-dash (rstrip dash (squeeze true s)) behind_dash)
      | inr d ↦
          let w : slug_char c ≡ true = ground arith in
          let rest = rstrip dash (squeeze false s) in
          rw (d, squeeze)
            (inr (kept-word false c rest w behind_word), kept-word true c rest w behind_word)
    ]

-- Whatever the title is, its slug is empty, or words of letters and digits with single dashes between.
pub slugify-IsSlug : (title : Text) → (slugify title ≡ []) ⊎ IsSlug (slugify title)
unfolding slugify strip
slugify-IsSlug title =
    rw (lstrip-squeeze false (dashed title))
      (rstrip-squeeze (dashed title) (dashed-slug_or_dash title)).0

dashed_of_slug : (word : Bool) (s : Text) → is_slug_from word s ≡ true → dashed s ≡ s
unfolding dashed is_slug_from slug_char lower_char
dashed_of_slug word [] h = refl
dashed_of_slug word (c ∷ s) h = ground (arith, dashed_of_slug true s, dashed_of_slug false s)

squeeze_of_slug : (word : Bool) (s : Text) → is_slug_from word s ≡ true → squeeze (not word) s ≡ s
unfolding squeeze is_slug_from slug_char
squeeze_of_slug word [] h = refl
squeeze_of_slug true (c ∷ s) h = ground (arith, squeeze_of_slug true s, squeeze_of_slug false s)
squeeze_of_slug false (c ∷ s) h = ground (arith, squeeze_of_slug true s, squeeze_of_slug false s)

slug_char-not_dash : (c : ℕ) → slug_char c ≡ true → dash c ≡ false
unfolding slug_char
slug_char-not_dash c h = ground arith

IsSlug-nonempty : (s : Text) → IsSlug s → is_empty s ≡ false
unfolding is_slug_from
IsSlug-nonempty [] h = cc
IsSlug-nonempty (c ∷ s) h = refl

-- What follows a character that is none of a word.
after_dash :
    (word : Bool) (c : ℕ) (s : Text)
    → slug_char c ≡ false
    → is_slug_from word (c ∷ s) ≡ true
    → IsSlug s
unfolding is_slug_from
after_dash word c s n h = ground arith

after_word :
    (word : Bool) (c : ℕ) (s : Text)
    → slug_char c ≡ true
    → is_slug_from word (c ∷ s) ≡ true
    → is_slug_from true s ≡ true
unfolding is_slug_from
after_word word c s w h = ground arith

rstrip_of_slug : (word : Bool) (s : Text) → is_slug_from word s ≡ true → rstrip dash s ≡ s
unfolding rstrip
rstrip_of_slug word [] h = refl
rstrip_of_slug word (c ∷ s) h = elim (Bool-cases (slug_char c)) [
  | inl w ↦ rw (rstrip_of_slug true s (after_word word c s w h), slug_char-not_dash c w) refl
  | inr n ↦
      let later = after_dash word c s n h in
      rw (rstrip_of_slug false s later, IsSlug-nonempty s later) (ground arith)
]

-- A slug is its own slug.
pub slugify_of_slug : (s : Text) → IsSlug s → slugify s ≡ s
unfolding slugify strip
slugify_of_slug s h =
    rw (dashed_of_slug false s h, lstrip-squeeze false s, squeeze_of_slug false s h)
      (rstrip_of_slug false s h)

-- Making the slug of a slug, or of nothing, changes nothing more.
pub slugify-slugify : (title : Text) → slugify (slugify title) ≡ slugify title
slugify-slugify title = elim (slugify-IsSlug title) [
  | inl e ↦ rw e (unfold slugify dashed squeeze strip in refl)
  | inr h ↦ slugify_of_slug (slugify title) h
]
