-- ===== src/Store/NameLaws.antt =====
-- .trellis/scripts/common/task_store.py: the names that become directories.
use taihu.Base.{
  ℕ, ◌≡◌, ◌≢◌, refl, inl, inr, ◌⊎◌, arith, Bool, true, false, ◌&&◌, Bool-cases, Option, none, some,
  [], ◌∷◌, ◌++◌, eqb, Text, lit, ◌==◌, is_empty, starts_with, has, partition,
}
use taihu.Commit.Git.{contains}
use taihu.Store.Slugs.{
  slug_char, slugify, body_of, one_line, split_date_prefix, date_or_all, escapes, drop_date,
  validate_rename_slug, create_slug, checked_slug, given_or_title, number_ok, digit_value,
}
use taihu.Store.SlugLaws.{is_slug_from, IsSlug, slugify-IsSlug}

-- A text that is not empty and has no separator and no `..` in it.
pub record IsPlainName (s : Text) : Type 0 where
  pub nonempty : is_empty s ≡ false
  pub no_slash : has b'/' s ≡ false
  pub no_backslash : has b'\\' s ≡ false
  pub no_dots : contains s (lit "..") ≡ false

rejoin : ℕ → Option Text → Text
rejoin c none = []
rejoin c (some t) = c ∷ t

partition-parts : (c : ℕ) (s : Text) → s ≡ (partition c s).0 ++ rejoin c (partition c s).1
unfolding partition rejoin
partition-parts c [] = refl
partition-parts c (d ∷ s) = ground (arith, partition-parts c s)

has-append_left : (c : ℕ) (s t : Text) → has c (s ++ t) ≡ false → has c s ≡ false
unfolding has
has-append_left c [] t h = refl
has-append_left c (d ∷ s) t h = ground (arith, has-append_left c s t)

starts_with-append : (s r t : Text) → starts_with s t ≡ true → starts_with (s ++ r) t ≡ true
unfolding starts_with
starts_with-append s r [] h = ground arith
starts_with-append [] r (d ∷ t) h = cc
starts_with-append (c ∷ s) r (d ∷ t) h = ground (arith, starts_with-append s r t)

contains-append :
    (s r : Text) (d : ℕ) (t : Text) → contains (s ++ r) (d ∷ t) ≡ false → contains s (d ∷ t) ≡ false
unfolding contains
contains-append [] r d t h = refl
contains-append (c ∷ s) r d t h =
    ground (arith, contains-append s r d t, starts_with-append (c ∷ s) r (d ∷ t))

contains-has : (s : Text) (d : ℕ) (t : Text) → has d s ≡ false → contains s (d ∷ t) ≡ false
unfolding contains has starts_with
contains-has [] d t h = refl
contains-has (c ∷ s) d t h = ground (arith, contains-has s d t)

one_line-eq :
    (s : Text) (o : Option Text) (b : Text) → one_line s o ≡ some b → (b ≡ s) × (is_empty b ≡ false)
one_line-eq [] o b h = cc
one_line-eq (c ∷ s) none b h = ground arith
one_line-eq (c ∷ s) (some []) b h = ground arith
one_line-eq (c ∷ s) (some (d ∷ t)) b h = cc

body_of-parts : (s b : Text) → body_of s ≡ some b → (r : Text) × (s ≡ b ++ r) × (is_empty b ≡ false)
unfolding body_of
body_of-parts s b h =
    let (e, n) = one_line-eq (partition b'\n' s).0 (partition b'\n' s).1 b h in
    (rejoin b'\n' (partition b'\n' s).1, rw e (partition-parts b'\n' s), n)

escapes-plain : (s : Text) → is_empty s ≡ false → escapes s ≡ false → IsPlainName s
unfolding escapes
escapes-plain s n h = ground arith

has-behind : (c : ℕ) (p s : Text) → has c (p ++ s) ≡ false → has c s ≡ false
unfolding has
has-behind c [] s h = h
has-behind c (d ∷ p) s h = ground (arith, has-behind c p s)

contains-behind :
    (p s : Text) (d : ℕ) (t : Text) → contains (p ++ s) (d ∷ t) ≡ false → contains s (d ∷ t) ≡ false
unfolding contains
contains-behind [] s d t h = h
contains-behind (c ∷ p) s d t h = ground (arith, contains-behind p s d t)

-- A part of a text that does not escape does not escape.
part_plain :
    (p b r s : Text) → s ≡ p ++ (b ++ r) → is_empty b ≡ false → escapes s ≡ false → IsPlainName b
unfolding escapes
part_plain p b r s e n h =
    let whole : escapes (p ++ (b ++ r)) ≡ false = rw e at h in
    let dots : contains (p ++ (b ++ r)) (lit "..") ≡ false = ground arith in
    record {
      nonempty = n;
      no_slash = has-append_left b'/' b r (has-behind b'/' p (b ++ r) (ground arith));
      no_backslash = has-append_left b'\\' b r (has-behind b'\\' p (b ++ r) (ground arith));
      no_dots =
          contains-append b r b'.' (b'.' ∷ []) (contains-behind p (b ++ r) b'.' (b'.' ∷ []) dots);
    }

has_of_slug :
    (c : ℕ) (word : Bool) (s : Text)
    → slug_char c ≡ false
    → eqb c b'-' ≡ false
    → is_slug_from word s ≡ true
    → has c s ≡ false
unfolding has is_slug_from
has_of_slug c word [] n d h = refl
has_of_slug c word (e ∷ s) n d h =
    ground (arith, has_of_slug c true s n d, has_of_slug c false s n d)

none_ne_some : (s : Text) → none ≢ some s
none_ne_some s h = cc

slug_plain : (s : Text) → IsSlug s → is_empty s ≡ false → IsPlainName s
unfolding slug_char
slug_plain s h n = record {
  nonempty = n;
  no_slash = has_of_slug b'/' false s refl refl h;
  no_backslash = has_of_slug b'\\' false s refl refl h;
  no_dots = contains-has s b'.' (b'.' ∷ []) (has_of_slug b'.' false s refl refl h);
}

empty_or_slug_plain : (s : Text) → (s ≡ []) ⊎ IsSlug s → is_empty s ≡ false → IsPlainName s
empty_or_slug_plain [] h n = cc
empty_or_slug_plain (c ∷ s) (inl h) n = cc
empty_or_slug_plain (c ∷ s) (inr h) n = slug_plain (c ∷ s) h n

title_plain : (title : Text) → is_empty (slugify title) ≡ false → IsPlainName (slugify title)
title_plain title n = empty_or_slug_plain (slugify title) (slugify-IsSlug title) n

module _ (wide : ℕ → Option ℕ) where
  date_or_all-parts :
      (name prefix : Text) (dated : Bool) (o : Option Text) (c : ℕ) (q body : Text)
      → date_or_all name dated prefix o ≡ (c ∷ q, body)
      → o ≡ some body
  date_or_all-parts name prefix true (some b) c q body h = cc
  date_or_all-parts name prefix true none c q body h = cc
  date_or_all-parts name prefix false o c q body h = cc

  -- Where a date is split off, the rest is a part of the name.
  split_date_prefix-parts :
      (name : Text) (c : ℕ) (q body : Text)
      → split_date_prefix wide name ≡ (c ∷ q, body)
      → (p r : Text) × (name ≡ p ++ (body ++ r)) × (is_empty body ≡ false)
  unfolding split_date_prefix
  split_date_prefix-parts (a ∷ b ∷ x ∷ d ∷ e ∷ y ∷ rest) c q body h =
      let o : body_of rest ≡ some body =
        date_or_all-parts (a ∷ b ∷ x ∷ d ∷ e ∷ y ∷ rest) (a ∷ b ∷ b'-' ∷ d ∷ e ∷ [])
          (eqb x b'-'
            && (eqb y b'-'
                && (number_ok 12 (digit_value wide a) (digit_value wide b)
                    && number_ok 31 (digit_value wide d) (digit_value wide e))))
          (body_of rest) c q body h in
      let (r, parts, n) = body_of-parts rest body o in
      (a ∷ b ∷ x ∷ d ∷ e ∷ y ∷ [], r, rw (← parts) refl, n)
  split_date_prefix-parts [] c q body h = cc
  split_date_prefix-parts (a ∷ []) c q body h = cc
  split_date_prefix-parts (a ∷ b ∷ []) c q body h = cc
  split_date_prefix-parts (a ∷ b ∷ x ∷ []) c q body h = cc
  split_date_prefix-parts (a ∷ b ∷ x ∷ d ∷ []) c q body h = cc
  split_date_prefix-parts (a ∷ b ∷ x ∷ d ∷ e ∷ []) c q body h = cc

  drop_date-plain :
      (slug expected s : Text) (parts : Text × Text)
      → split_date_prefix wide slug ≡ parts
      → is_empty slug ≡ false
      → escapes slug ≡ false
      → drop_date slug expected parts ≡ some s
      → IsPlainName s
  drop_date-plain slug expected s ([], body) e n h k =
      let same : s ≡ slug = ground arith in rw same (escapes-plain slug n h)
  drop_date-plain slug expected s (c ∷ q, body) e n h k = elim (Bool-cases ((c ∷ q) == expected)) [
    | inr other ↦ absurd (none_ne_some s (rw other at k))
    | inl same ↦
        let b : some body ≡ some s = rw same at k in
        let is_body : s ≡ body = cc in
        let (p, r, parts, m) = split_date_prefix-parts slug c q body e in
        rw is_body (part_plain p body r slug parts m h)
  ]

  -- A slug that a rename accepts is no path: it is not empty and has no separator and no `..`.
  pub validate_rename_slug-IsPlainName :
      (slug date_prefix s : Text)
      → validate_rename_slug wide slug date_prefix ≡ some s
      → IsPlainName s
  unfolding validate_rename_slug
  validate_rename_slug-IsPlainName slug date_prefix s h = elim (Bool-cases (is_empty slug)) [
    | inl e ↦ absurd (none_ne_some s (rw e at h))
    | inr e ↦ elim (Bool-cases (escapes slug)) [
      | inl f ↦ absurd (none_ne_some s (rw (e, f) at h))
      | inr f ↦
          drop_date-plain slug date_prefix s (split_date_prefix wide slug) refl e f (rw (e, f) at h)
    ]
  ]

  checked_slug-IsPlainName :
      (given : Option Text) (title today s : Text)
      → is_empty (given_or_title given title) ≡ false
      → checked_slug wide given (given_or_title given title) today ≡ some s
      → IsPlainName s
  checked_slug-IsPlainName none title today s n h =
      let e : s ≡ slugify title = ground arith in rw e (title_plain title n)
  checked_slug-IsPlainName (some []) title today s n h =
      let e : s ≡ slugify title = ground arith in rw e (title_plain title n)
  checked_slug-IsPlainName (some (c ∷ g)) title today s n h = elim (Bool-cases (escapes (c ∷ g))) [
    | inl f ↦ absurd (none_ne_some s (rw f at h))
    | inr f ↦
        drop_date-plain (c ∷ g) today s (split_date_prefix wide (c ∷ g)) refl refl f (rw f at h)
  ]

  -- The slug of a new task, given or made of its title, is no path either.
  pub create_slug-IsPlainName :
      (given : Option Text) (title today s : Text)
      → create_slug wide given title today ≡ some s
      → IsPlainName s
  unfolding create_slug
  create_slug-IsPlainName given title today s h =
      elim (Bool-cases (is_empty (given_or_title given title))) [
        | inl e ↦ absurd (none_ne_some s (rw e at h))
        | inr e ↦ checked_slug-IsPlainName given title today s e (rw e at h)
      ]
