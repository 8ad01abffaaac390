-- ===== src/Active/SafeTexts.antt =====
-- .trellis/scripts/common/active_task.py: the sanitized texts and the names of platforms are harmless.
use taihu.Base.{
  ℕ, zero, suc, ◌≤◌, ◌≡◌, refl, arith, inl, inr, Bool, true, false, Bool-cases, Option, none, some,
  [], ◌∷◌, ◌++◌, if◌then◌else◌, Text, lit, ◌==◌, is_space, strip, lstrip, rstrip, take, all, length,
}
use taihu.Json.{null, or_default, Fields, end, field, get}
use taihu.Active.Keys.{
  is_safe, is_edge, sub_runs, sanitize_key, or_text, named_platform, cursor_mark, cursor_or_session,
  platform_keys, first_string, string_value, detect_platform, aliased,
}

abbrev pub IsSafe : Text → Type 0
IsSafe s = all is_safe s ≡ true

sub_runs-safe : (b : Bool) (s : Text) → IsSafe (sub_runs b s)
unfolding sub_runs is_safe
sub_runs-safe b [] = refl
sub_runs-safe true (c ∷ s) = ground (arith, sub_runs-safe true s, sub_runs-safe false s)
sub_runs-safe false (c ∷ s) = elim (Bool-cases (is_safe c)) [
  | inl e ↦ rw (e, sub_runs) (rw e (sub_runs-safe false s))
  | inr e ↦ rw (e, sub_runs) (sub_runs-safe true s)
]

all-lstrip : (p q : ℕ → Bool) (s : Text) → all q s ≡ true → all q (lstrip p s) ≡ true
unfolding lstrip
all-lstrip p q [] h = refl
all-lstrip p q (c ∷ s) h = ground (arith, all-lstrip p q s)

all-rstrip : (p q : ℕ → Bool) (s : Text) → all q s ≡ true → all q (rstrip p s) ≡ true
unfolding rstrip
all-rstrip p q [] h = refl
all-rstrip p q (c ∷ s) h = ground (arith, all-rstrip p q s)

all-take : (q : ℕ → Bool) (n : ℕ) (s : Text) → all q s ≡ true → all q (take n s) ≡ true
all-take q zero s h = refl
all-take q (suc n) [] h = refl
all-take q (suc n) (c ∷ s) h = ground (arith, all-take q n s)

pub all-append :
    (q : ℕ → Bool) (s t : Text) → all q s ≡ true → all q t ≡ true → all q (s ++ t) ≡ true
all-append q [] t h k = k
all-append q (c ∷ s) t h k = ground (arith, all-append q s t)

length-take : (n : ℕ) (s : Text) → length (take n s) ≤ n
length-take zero s = omega arith
length-take (suc n) [] = omega arith
length-take (suc n) (c ∷ s) = omega (arith, length-take n s)

-- A sanitized key has only letters, digits, dots, underscores and dashes, and at most 160 of them.
pub sanitize_key-safe : (raw : Text) → IsSafe (sanitize_key raw) × (length (sanitize_key raw) ≤ 160)
unfolding sanitize_key strip
sanitize_key-safe raw =
    let runs = sub_runs false (strip is_space raw) in
    let safe =
      all-rstrip is_edge is_safe (lstrip is_edge runs)
        (all-lstrip is_edge is_safe runs (sub_runs-safe false (strip is_space raw))) in
    (all-take is_safe 160 (strip is_edge runs) safe, length-take 160 (strip is_edge runs))

pub or_text-safe : (a b : Text) → IsSafe a → IsSafe b → IsSafe (or_text a b)
or_text-safe [] b h k = k
or_text-safe (c ∷ a) b h k = h

pub session-safe : IsSafe (lit "session")
unfolding is_safe
session-safe = refl

named_platform-safe : (raw : Text) → IsSafe (named_platform raw)
named_platform-safe raw =
    or_text-safe (sanitize_key raw) (lit "session") (sanitize_key-safe raw).0 session-safe

cursor_mark-safe : (o : Option Text) → IsSafe (cursor_mark o)
unfolding is_safe
cursor_mark-safe none = refl
cursor_mark-safe (some v) = refl

cursor_or_session-safe : (d : Fields) (o : Option Text) → IsSafe (cursor_or_session d o)
cursor_or_session-safe d (some v) = named_platform-safe v
cursor_or_session-safe d none =
    cursor_mark-safe (string_value (or_default null (get (lit "cursor_version") d)))

pub detect_platform-safe : (d : Fields) (p : Option Text) → IsSafe (detect_platform d p)
unfolding detect_platform
detect_platform-safe d (some (c ∷ s)) = named_platform-safe (c ∷ s)
detect_platform-safe end none = session-safe
detect_platform-safe end (some []) = session-safe
detect_platform-safe (field k v d) none =
    cursor_or_session-safe (field k v d) (first_string (field k v d) platform_keys)
detect_platform-safe (field k v d) (some []) =
    cursor_or_session-safe (field k v d) (first_string (field k v d) platform_keys)

if-safe : (b : Bool) (s t : Text) → IsSafe s → IsSafe t → IsSafe (if b then s else t)
if-safe true s t h k = h
if-safe false s t h k = k

pub aliased-safe : (p : Text) → IsSafe p → IsSafe (aliased p)
unfolding aliased is_safe
aliased-safe p h =
    if-safe (p == lit "zcode") (lit "claude") (if p == lit "factory" then lit "droid" else p) refl
      (if-safe (p == lit "factory") (lit "droid") p refl h)
