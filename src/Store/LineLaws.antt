-- ===== src/Store/LineLaws.antt =====
-- .trellis/scripts/common/task_store.py: the lines of a context file and their replacement.
use taihu.Base.{
  ℕ, suc, ◌≡◌, refl, ap, true, false, Bool-cases, inl, inr, List, [], ◌∷◌, ◌++◌, map, reverse, eqb,
  Text, lit, starts_with, is_break, not, ◌&&◌, arith,
}
use mathlib.Core.List
use mathlib.Core.List.{append-nil, append_assoc}
use taihu.Commit.Git.{contains}
use taihu.Store.Rewriting.{replace_from, split_keep, rewrite_lines}

abbrev pub joined : List Text → Text
joined [] = []
joined (s ∷ ss) = s ++ joined ss

-- Every line with the needle replaced wherever it stands.
abbrev pub replaced_text : Text → Text → Text → Text
replaced_text needle new s = joined (map (replace_from needle new 0) (split_keep [] s))

replace_from-absent :
    (needle new s : Text) → contains s needle ≡ false → replace_from needle new 0 s ≡ s
unfolding replace_from contains
replace_from-absent needle new [] h = refl
replace_from-absent needle new (c ∷ s) h = elim (Bool-cases (starts_with (c ∷ s) needle)) [
  | inl e ↦ let k : true ≡ false = rw e at h in cc
  | inr e ↦ rw (e, replace_from) (ap (λ r. c ∷ r) (replace_from-absent needle new s (rw e at h)))
]

pub joined-split_keep : (line s : Text) → joined (split_keep line s) ≡ reverse line ++ s
unfolding split_keep
joined-split_keep [] [] = refl
joined-split_keep (d ∷ line) [] = refl
joined-split_keep line (c ∷ s) =
    elim (Bool-cases (is_break c && not (eqb c 13 && starts_with s (lit "\n")))) [
      | inl e ↦
          rw (e, split_keep)
            (rw (joined-split_keep [] s, List.reverse-cons c line)
              (append_assoc (reverse line) (c ∷ []) s))
      | inr e ↦
          rw (e, split_keep)
            (rw (joined-split_keep (c ∷ line) s, List.reverse-cons c line)
              (append_assoc (reverse line) (c ∷ []) s))
    ]

pub rewrite_lines-replaced :
    (needle new : Text) (i : ℕ) (lines : List Text)
    → (rewrite_lines needle new i lines).1 ≡ joined (map (replace_from needle new 0) lines)
unfolding rewrite_lines
rewrite_lines-replaced needle new i [] = refl
rewrite_lines-replaced needle new i (line ∷ lines) = elim (Bool-cases (contains line needle)) [
  | inl e ↦
      rw (e, rewrite_lines)
        (ap (λ r. replace_from needle new 0 line ++ r)
          (rewrite_lines-replaced needle new (suc i) lines))
  | inr e ↦
      rw (e, rewrite_lines, replace_from-absent needle new line e)
        (ap (λ r. line ++ r) (rewrite_lines-replaced needle new (suc i) lines))
]

pub rewrite_lines-absent :
    (needle new : Text) (i : ℕ) (lines : List Text)
    → (rewrite_lines needle new i lines).0 ≡ []
    → (rewrite_lines needle new i lines).1 ≡ joined lines
unfolding rewrite_lines
rewrite_lines-absent needle new i [] h = refl
rewrite_lines-absent needle new i (line ∷ lines) h = elim (Bool-cases (contains line needle)) [
  | inl e ↦
      let k : suc i ∷ (rewrite_lines needle new (suc i) lines).0 ≡ [] =
        rw (e, rewrite_lines) at h in
      ground arith
  | inr e ↦
      rw (e, rewrite_lines)
        (ap (λ r. line ++ r)
          (rewrite_lines-absent needle new (suc i) lines (rw (e, rewrite_lines) at h)))
]
