-- ===== src/Tasks/Plain.antt =====
-- .trellis/scripts/common: paths that no part leads upwards.
use taihu.Base.{◌≡◌, arith, Bool, true, not, ◌&&◌, Option, some, [], ◌∷◌, ◌++◌, lit, ◌==◌}
use taihu.Files.Tree.{FilePath}

-- No part is `..`.
unfoldable pub is_plain : FilePath → Bool
is_plain [] = true
is_plain (a ∷ p) = let rest = is_plain p in not (a == lit "..") && rest

-- What `Path.resolve` promises: its results have no part `..`.
abbrev pub ResolvesPlain : (FilePath → Option FilePath) → Type 0
ResolvesPlain resolve = (q r : FilePath) → resolve q ≡ some r → is_plain r ≡ true

pub is_plain-append :
    (p q : FilePath) → is_plain p ≡ true → is_plain q ≡ true → is_plain (p ++ q) ≡ true
unfolding is_plain
is_plain-append [] q h k = k
is_plain-append (a ∷ p) q h k = ground (arith, is_plain-append p q)

pub is_plain-rest : (p q : FilePath) → is_plain (p ++ q) ≡ true → is_plain q ≡ true
unfolding is_plain
is_plain-rest [] q h = h
is_plain-rest (a ∷ p) q h = ground (arith, is_plain-rest p q)
