-- ===== src/Base/Ints.antt =====
-- Python's `int`: signed numbers, `int(s)` on ASCII text and `str(n)`.
use Prim.Native.Nat.{ℕ, zero, suc, ◌+◌, ◌-◌, ◌*◌, ◌/◌, ◌%◌, ◌<◌}
use mathlib.Core.Path.{◌≡◌, refl, ap, ◌∙◌}
use mathlib.Core.Logic.{inl, inr}
use mathlib.Core.Bool.{Bool, true, false, ◌&&◌}
use mathlib.Core.Option.{Option, none, some}
use mathlib.Core.List.{[], ◌∷◌}
use native.Mathlib.Omega.{arith}
use taihu.Base.Logic.{ltb, leb, eqb, Bool-cases, if◌then◌else◌}
use taihu.Base.Lists.{any}
use taihu.Base.Texts.{Text, strip, is_space}
use taihu.Base.TextLaws.{strip_of_none}

-- `negsuc n` is -(n + 1).
pub data ℤ : Type 0 where
  pos : ℕ → ℤ
  negsuc : ℕ → ℤ

unfoldable pub negate : ℕ → ℤ
negate zero = pos 0
negate (suc n) = negsuc n

abbrev pub is_digit : ℕ → Bool
is_digit c = leb b'0' c && leb c b'9'

-- Digits with single underscores between them; the flag says that a digit stands before.
unfoldable pub digits_from : Bool → ℕ → Text → Option ℕ
digits_from prev acc [] = if prev then some acc else none
digits_from prev acc (c ∷ s) = elim (is_digit c) [
  | true ↦ digits_from true (acc * 10 + (c - b'0')) s
  | false ↦ elim (prev && eqb c b'_') [ true ↦ digits_from false acc s | false ↦ none ]
]

abbrev signed : (ℕ → ℤ) → Option ℕ → Option ℤ
signed f none = none
signed f (some n) = some (f n)

unfoldable pub parse_signed : Text → Option ℤ
unfolding digits_from negate
parse_signed [] = none
parse_signed (c ∷ s) =
    if eqb c b'-'
    then signed negate (digits_from false 0 s)
    else if eqb c b'+'
    then signed pos (digits_from false 0 s)
    else signed pos (digits_from false 0 (c ∷ s))

-- `int(s)`; `none` stands for a ValueError.
unfoldable pub parse_int : Text → Option ℤ
unfolding parse_signed strip is_space
parse_int s = parse_signed (strip is_space s)

-- The decimal digits of `n` in front of `s`, on fuel; `n < fuel` is enough.
unfoldable pub digits_onto : ℕ → ℕ → Text → Text
digits_onto zero n s = s
digits_onto (suc fuel) n s = elim (ltb n 10) [
  | true ↦ (b'0' + n) ∷ s
  | false ↦ digits_onto fuel (n / 10) ((b'0' + n % 10) ∷ s)
]

-- `str(n)`
unfoldable pub show_nat : ℕ → Text
unfolding digits_onto
show_nat n = digits_onto (suc n) n []

unfoldable pub show_int : ℤ → Text
unfolding show_nat
show_int (pos n) = show_nat n
show_int (negsuc n) = b'-' ∷ show_nat (suc n)

digits_from-digit :
    (prev : Bool) (acc m : ℕ) (s : Text)
    → m < 10
    → digits_from prev acc ((b'0' + m) ∷ s) ≡ digits_from true (acc * 10 + m) s
unfolding digits_from
digits_from-digit prev acc m s h =
    let d : is_digit (b'0' + m) ≡ true = ground arith in
    let e : acc * 10 + (b'0' + m - b'0') ≡ acc * 10 + m = omega arith in rw (d, digits_from) (rw e)

-- `int` reads the digits of `n` to `n`, and goes on with what follows them.
digits_from-digits_onto :
    (fuel n : ℕ) (s : Text)
    → n < fuel
    → digits_from false 0 (digits_onto fuel n s) ≡ digits_from true n s
unfolding digits_onto
digits_from-digits_onto zero n s h = elim h [ ]
digits_from-digits_onto (suc fuel) n s h = elim (Bool-cases (ltb n 10)) [
  | inl small ↦
      let e : 0 * 10 + n ≡ n = omega arith in
      rw (small, digits_onto) (digits_from-digit false 0 n s (ground arith) ∙ rw e)
  | inr large ↦
      let e : n / 10 * 10 + n % 10 ≡ n = omega arith in
      rw (large, digits_onto)
        (digits_from-digits_onto fuel (n / 10) ((b'0' + n % 10) ∷ s) (ground arith)
          ∙ (digits_from-digit true (n / 10) (n % 10) s (omega arith) ∙ rw e))
]

-- A digit is no white space.
digit_not_space : (m : ℕ) → m < 10 → is_space (b'0' + m) ≡ false
unfolding is_space
digit_not_space m h = ground arith

any_space-digits_onto :
    (fuel n : ℕ) (s : Text) → any is_space s ≡ false → any is_space (digits_onto fuel n s) ≡ false
unfolding digits_onto
any_space-digits_onto zero n s h = h
any_space-digits_onto (suc fuel) n s h = elim (Bool-cases (ltb n 10)) [
  | inl small ↦ rw (small, digits_onto) (rw (digit_not_space n (ground arith)) h)
  | inr large ↦
      rw (large, digits_onto)
        (any_space-digits_onto fuel (n / 10) ((b'0' + n % 10) ∷ s)
          (rw (digit_not_space (n % 10) (omega arith)) h))
]

-- A text that begins with a digit has no sign.
parse_signed-digit :
    (m : ℕ) (s : Text)
    → parse_signed ((b'0' + m) ∷ s) ≡ signed pos (digits_from false 0 ((b'0' + m) ∷ s))
unfolding parse_signed digits_from
parse_signed-digit m s =
    let minus : eqb (b'0' + m) b'-' ≡ false = ground arith in
    let plus : eqb (b'0' + m) b'+' ≡ false = ground arith in rw (parse_signed, minus, plus)

parse_signed-digits_onto :
    (fuel n : ℕ) (s : Text)
    → n < fuel
    → parse_signed (digits_onto fuel n s) ≡ signed pos (digits_from false 0 (digits_onto fuel n s))
unfolding digits_onto
parse_signed-digits_onto zero n s h = elim h [ ]
parse_signed-digits_onto (suc fuel) n s h = elim (Bool-cases (ltb n 10)) [
  | inl small ↦ rw (small, digits_onto) (parse_signed-digit n s)
  | inr large ↦
      rw (large, digits_onto)
        (parse_signed-digits_onto fuel (n / 10) ((b'0' + n % 10) ∷ s) (ground arith))
]

-- `int(str(n))` is `n`.
pub parse_int-show_nat : (n : ℕ) → parse_int (show_nat n) ≡ some (pos n)
unfolding parse_int show_nat digits_onto
parse_int-show_nat n =
    ap parse_signed
      (strip_of_none is_space (digits_onto (suc n) n []) (any_space-digits_onto (suc n) n [] refl))
    ∙ (parse_signed-digits_onto (suc n) n [] (omega arith)
        ∙ ap (signed pos) (digits_from-digits_onto (suc n) n [] (omega arith)))
