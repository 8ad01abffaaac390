-- ===== src/Tasks/Segments.antt =====
-- .trellis/scripts/common: texts joined to a path with `/`.
use taihu.Base.{
  ◌≡◌, refl, arith, ℕ, true, false, ◌||◌, List, [], ◌∷◌, ◌++◌, Text, lit, ◌==◌, is_empty, eqb, has,
  split_slash, is_abs,
}
use mathlib.Core.List.{append-nil, append_assoc}
use taihu.Files.Tree.{FilePath}
use taihu.Tasks.Refs.{path_parts, parts, join_at}

-- A text without a slash is one segment.
split_slash-one :
    (s t : Text)
    → has b'/' s ≡ false
    → split_slash t ≡ t ∷ []
    → split_slash (s ++ t) ≡ (s ++ t) ∷ []
unfolding split_slash has
split_slash-one [] t h e = e
split_slash-one (c ∷ s) t h e =
    let later : has b'/' s ≡ false = ground arith in
    let here : eqb c b'/' ≡ false = ground arith in rw (split_slash-one s t later e, here) refl

split_slash-dir :
    (s t u : Text) (us : List Text)
    → has b'/' s ≡ false
    → split_slash t ≡ u ∷ us
    → split_slash (s ++ (b'/' ∷ t)) ≡ s ∷ u ∷ us
unfolding split_slash has
split_slash-dir [] t u us h e = rw e refl
split_slash-dir (c ∷ s) t u us h e =
    let later : has b'/' s ≡ false = ground arith in
    let here : eqb c b'/' ≡ false = ground arith in rw (split_slash-dir s t u us later e, here) refl

-- A segment: a text without a slash that a path keeps.
pub record IsSegment (s : Text) : Type 0 where
  pub no_slash : has b'/' s ≡ false
  pub kept : (is_empty s || s == lit ".") ≡ false

parts-segment : (s : Text) (ss : List Text) → IsSegment s → parts (s ∷ ss) ≡ s ∷ parts ss
unfolding parts
parts-segment s ss h = rw h.kept refl

is_abs-no_slash : (s : Text) → has b'/' s ≡ false → is_abs s ≡ false
unfolding is_abs has
is_abs-no_slash [] h = refl
is_abs-no_slash (c ∷ s) h = ground arith

is_abs-dir : (s t : Text) → IsSegment s → is_abs (s ++ t) ≡ false
unfolding is_abs has
is_abs-dir [] t h = let c : true ≡ false = h.kept in cc
is_abs-dir (c ∷ s) t h = let e = h.no_slash in ground arith

split_slash-segment : (s : Text) → has b'/' s ≡ false → split_slash s ≡ s ∷ []
unfolding split_slash
split_slash-segment s h = rw append-nil at (split_slash-one s [] h refl)

-- Joining a segment, and joining a text of segments with slashes between them.
pub join_at-segment : (base : FilePath) (s : Text) → IsSegment s → join_at base s ≡ base ++ (s ∷ [])
unfolding join_at path_parts parts
join_at-segment base s h =
    rw (is_abs-no_slash s h.no_slash, split_slash-segment s h.no_slash, h.kept) refl

pub join_at-two :
    (base : FilePath) (a b s : Text)
    → IsSegment a
    → IsSegment b
    → IsSegment s
    → join_at base (a ++ (b'/' ∷ (b ++ (b'/' ∷ s)))) ≡ base ++ (a ∷ b ∷ s ∷ [])
unfolding join_at path_parts parts
join_at-two base a b s ha hb hs =
    rw
      (
        is_abs-dir a (b'/' ∷ (b ++ (b'/' ∷ s))) ha,
        split_slash-dir a (b ++ (b'/' ∷ s)) b (s ∷ []) ha.no_slash
            (split_slash-dir b s s [] hb.no_slash (split_slash-segment s hs.no_slash)),
        ha.kept,
        hb.kept,
        hs.kept,
      )
      refl

pub join_at-three :
    (base : FilePath) (a b c s : Text)
    → IsSegment a
    → IsSegment b
    → IsSegment c
    → IsSegment s
    → join_at base (a ++ (b'/' ∷ (b ++ (b'/' ∷ (c ++ (b'/' ∷ s)))))) ≡ base ++ (a ∷ b ∷ c ∷ s ∷ [])
unfolding join_at path_parts parts
join_at-three base a b c s ha hb hc hs =
    rw
      (
        is_abs-dir a (b'/' ∷ (b ++ (b'/' ∷ (c ++ (b'/' ∷ s))))) ha,
        split_slash-dir a (b ++ (b'/' ∷ (c ++ (b'/' ∷ s)))) b (c ∷ s ∷ []) ha.no_slash (
            split_slash-dir b (c ++ (b'/' ∷ s)) c (s ∷ []) hb.no_slash
              (split_slash-dir c s s [] hc.no_slash (split_slash-segment s hs.no_slash))),
        ha.kept,
        hb.kept,
        hc.kept,
        hs.kept,
      )
      refl

pub in_dirs :
    (root : FilePath) (a x : Text) (p : FilePath)
    → ((root ++ (a ∷ [])) ++ (x ∷ [])) ++ p ≡ root ++ (a ∷ x ∷ p)
in_dirs root a x p =
    rw (append_assoc (root ++ (a ∷ [])) (x ∷ []) p, append_assoc root (a ∷ []) (x ∷ p)) refl

has-append : (s t : Text) → has b'/' s ≡ false → has b'/' t ≡ false → has b'/' (s ++ t) ≡ false
unfolding has
has-append [] t h k = k
has-append (c ∷ s) t h k = ground (arith, has-append s t)

kept_md :
    (s t : Text) (a b : ℕ) → (is_empty (s ++ (a ∷ b ∷ t)) || (s ++ (a ∷ b ∷ t)) == lit ".") ≡ false
unfolding ◌==◌
kept_md [] t a b = ground arith
kept_md (c ∷ []) t a b = ground arith
kept_md (c ∷ d ∷ s) t a b = ground arith

-- A name with a suffix of at least two characters.
pub suffixed-IsSegment :
    (name t : Text) (a b : ℕ)
    → has b'/' name ≡ false
    → has b'/' (a ∷ b ∷ t) ≡ false
    → IsSegment (name ++ (a ∷ b ∷ t))
suffixed-IsSegment name t a b h k = record {
  no_slash = has-append name (a ∷ b ∷ t) h k;
  kept = kept_md name t a b;
}

pub md-IsSegment : (name : Text) → has b'/' name ≡ false → IsSegment (name ++ lit ".md")
unfolding has
md-IsSegment name h = suffixed-IsSegment name (lit "d") b'.' b'm' h refl

pub prefixed-IsSegment : (name : Text) → has b'/' name ≡ false → IsSegment (lit "trellis-" ++ name)
unfolding has ◌==◌
prefixed-IsSegment name h = record { no_slash = h; kept = refl }
