-- ===== src/Base/Texts.antt =====
-- Python's `str`, as a list of code points, with the methods that the scripts call.
use Prim.Native.Nat.{ℕ, ◌+◌}
use Prim.Native.Char.{code}
use Prim.Native.String.{String}
use mathlib.Core.Path.{◌≡◌, refl}
use mathlib.Core.Logic.{◌↔◌}
use mathlib.Core.Bool.{Bool, true, false, not, ◌&&◌, ◌||◌}
use mathlib.Core.Option.{Option, none, some}
use mathlib.Core.List.{List, [], ◌∷◌, ◌++◌, map, reverse}
use native.Mathlib.Omega.{arith}
use taihu.Base.Logic.{leb, eqb, if◌then◌else◌}
use taihu.Base.Lists.{is_empty}

abbrev pub Text : Type 0
Text = List ℕ

-- A literal of the source.
abbrev pub lit : String → Text
lit String.[] = []
lit (String.◌∷◌ c s) = code c ∷ lit s

infix 50 ◌==◌
unfoldable pub ◌==◌ : Text → Text → Bool
[] == [] = true
(c ∷ s) == (d ∷ t) = eqb c d && s == t
_ == _ = false

pub ==_refl : (s : Text) → (s == s) ≡ true
unfolding ◌==◌
==_refl [] = refl
==_refl (c ∷ s) = ground (arith, ==_refl s)

pub ==_iff : (s t : Text) → ((s == t) ≡ true) ↔ (s ≡ t)
unfolding ◌==◌
==_iff [] [] = ground arith
==_iff [] (d ∷ t) = ground arith
==_iff (c ∷ s) [] = ground arith
==_iff (c ∷ s) (d ∷ t) = ground (arith, ==_iff s t)

-- `s in (a, b, ...)`
unfoldable pub elem : Text → List Text → Bool
elem s [] = false
elem s (t ∷ ts) = s == t || elem s ts

-- `c.isspace()`
unfoldable pub is_space : ℕ → Bool
is_space c =
    (leb 9 c && leb c 13)
    || (leb 28 c && leb c 32)
    || eqb c 133
    || eqb c 160
    || eqb c 5760
    || (leb 8192 c && leb c 8202)
    || eqb c 8232
    || eqb c 8233
    || eqb c 8239
    || eqb c 8287
    || eqb c 12288

-- `s.lstrip(chars)`, where `p` tests for the characters; `s.lstrip()` has `is_space`.
unfoldable pub lstrip : (ℕ → Bool) → Text → Text
lstrip p [] = []
lstrip p (c ∷ s) = let rest = lstrip p s in if p c then rest else c ∷ s

-- `s.rstrip(chars)`
unfoldable pub rstrip : (ℕ → Bool) → Text → Text
rstrip p [] = []
rstrip p (c ∷ s) = let rest = rstrip p s in if p c && is_empty rest then [] else c ∷ rest

unfoldable pub strip : (ℕ → Bool) → Text → Text
unfolding lstrip rstrip
strip p s = rstrip p (lstrip p s)

-- `s.startswith(t)`
unfoldable pub starts_with : Text → Text → Bool
starts_with s [] = true
starts_with [] (d ∷ t) = false
starts_with (c ∷ s) (d ∷ t) = eqb c d && starts_with s t

-- `s.endswith(t)`
unfoldable pub ends_with : Text → Text → Bool
unfolding starts_with
ends_with s t = starts_with (reverse s) (reverse t)

-- `c in s`
unfoldable pub has : ℕ → Text → Bool
has c [] = false
has c (d ∷ s) = eqb c d || has c s

-- `s.partition(c)`: what stands before the first `c`, and what stands behind it, if there is one.
unfoldable pub partition : ℕ → Text → Text × Option Text
partition c [] = ([], none)
partition c (d ∷ s) =
    let (before, after) = partition c s in if eqb c d then ([], some s) else (d ∷ before, after)

-- `s[-1]` of a text that is not empty.
unfoldable pub last : ℕ → Text → ℕ
last c [] = c
last c (d ∷ s) = last d s

-- `s[:-1]`
unfoldable pub init : Text → Text
init [] = []
init (c ∷ []) = []
init (c ∷ d ∷ s) = c ∷ init (d ∷ s)

-- `s.lower()` on ASCII letters and the Kelvin sign, the one other character whose lower case is ASCII.
unfoldable pub lower_char : ℕ → ℕ
lower_char c = if leb b'A' c && leb c b'Z' then c + 32 else if eqb c 8490 then b'k' else c

unfoldable pub lower : Text → Text
unfolding lower_char
lower = map lower_char

-- `s.replace(c, "")` for one character.
unfoldable pub remove_char : ℕ → Text → Text
remove_char c [] = []
remove_char c (d ∷ s) = let rest = remove_char c s in if eqb c d then rest else d ∷ rest

-- The characters at which `splitlines` breaks a line; it takes "\r\n" as one break.
unfoldable pub is_break : ℕ → Bool
is_break c =
    (leb 10 c && leb c 13) || (leb 28 c && leb c 30) || eqb c 133 || eqb c 8232 || eqb c 8233

-- The line being read is `line`, reversed; the flag says that the break before was "\r".
unfoldable pub lines_from : Text → Bool → Text → List Text
unfolding is_break
lines_from line cr [] = if is_empty line then [] else reverse line ∷ []
lines_from line cr (c ∷ s) = elim (cr && eqb c 10) [
  | true ↦ lines_from line false s
  | false ↦ elim (is_break c) [
    | true ↦ reverse line ∷ lines_from [] (eqb c 13) s
    | false ↦ lines_from (c ∷ line) false s
  ]
]

unfoldable pub splitlines : Text → List Text
unfolding lines_from
splitlines s = lines_from [] false s

-- `sep.join(parts)`
unfoldable pub join : Text → List Text → Text
join sep [] = []
join sep (t ∷ []) = t
join sep (t ∷ u ∷ ts) = t ++ (sep ++ join sep (u ∷ ts))

-- The segments of a text between slashes.
unfoldable pub split_slash : Text → List Text
split_slash [] = [] ∷ []
split_slash (c ∷ s) = elim (split_slash s) [
  | [] ↦ (c ∷ []) ∷ []
  | t ∷ ts ↦ if eqb c b'/' then [] ∷ t ∷ ts else (c ∷ t) ∷ ts
]

-- POSIX keeps exactly two leading slashes apart from one.
unfoldable pub leading_slashes : Text → Text
unfolding starts_with
leading_slashes s =
    if starts_with s (lit "//") && not (starts_with s (lit "///")) then lit "//" else lit "/"

-- `os.path.isabs`
unfoldable pub is_abs : Text → Bool
is_abs [] = false
is_abs (c ∷ s) = eqb c b'/'
