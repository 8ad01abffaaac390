-- ===== src/Workflow/Laws.antt =====
-- .trellis/scripts/common/workflow_phase.py: which lines of workflow.md a caller sees.
use taihu.Base.{
  ℕ, ◌+◌, ◌≡◌, refl, ap, ◌∙◌, Bool, true, false, ◌&&◌, none, some, List, [], ◌∷◌, ◌++◌, leb,
  if◌then◌else◌, Text, arith, All, Bool-cases, inl, inr, min,
}
use taihu.Workflow.Markers.{
  Marker, parse_marker, platform_matches, Block, outside, kept, dropped, enter, shows, filter_lines,
  is_blank, collapse,
}
use taihu.Workflow.Steps.{is_heading_of, ends_body, body_of, section_of}

abbrev pub IsPlain : Text → Type 0
IsPlain line = parse_marker line ≡ none

module _ (platform : Text) where
  filter_lines-plain :
      (block : Block) (body rest : List Text)
      → All IsPlain body
      → filter_lines platform block (body ++ rest)
        ≡ (if shows block then body else []) ++ filter_lines platform block rest
  unfolding filter_lines
  filter_lines-plain outside [] rest h = refl
  filter_lines-plain kept [] rest h = refl
  filter_lines-plain dropped [] rest h = refl
  filter_lines-plain outside (line ∷ body) rest (p, h) =
      rw (p, filter_lines) (ap (λ t. line ∷ t) (filter_lines-plain outside body rest h))
  filter_lines-plain kept (line ∷ body) rest (p, h) =
      rw (p, filter_lines) (ap (λ t. line ∷ t) (filter_lines-plain kept body rest h))
  filter_lines-plain dropped (line ∷ body) rest (p, h) =
      rw (p, filter_lines) (filter_lines-plain dropped body rest h)

  filter_lines-marker :
      (block : Block) (line : Text) (m : Marker) (rest : List Text)
      → parse_marker line ≡ some m
      → filter_lines platform block (line ∷ rest) ≡ filter_lines platform (enter platform m) rest
  unfolding filter_lines
  filter_lines-marker block line m rest h = rw (h, filter_lines)

  filter_lines-body :
      (body rest : List Text) (close_line : Text) (names closing : List Text)
      → All IsPlain body
      → parse_marker close_line ≡ some (record { is_closing = true; names = closing })
      → filter_lines platform
          (enter platform (record { is_closing = false; names = names }))
          (body ++ (close_line ∷ rest))
        ≡ (if platform_matches platform names then body else [])
          ++ filter_lines platform outside rest
  unfolding enter
  filter_lines-body body rest close_line names closing h c =
      elim (Bool-cases (platform_matches platform names)) [
        | inl on ↦ rw on (
            filter_lines-plain kept body (close_line ∷ rest) h
            ∙ ap (λ t. body ++ t) (filter_lines-marker kept close_line _ rest c))
        | inr off ↦ rw off (
            filter_lines-plain dropped body (close_line ∷ rest) h
            ∙ filter_lines-marker dropped close_line _ rest c)
      ]

  -- Plain lines, then a block: the lines stay, the two markers go, and the body of the block stays
  -- exactly if its opening marker names the platform.
  pub filter_lines-block :
      (before body rest : List Text) (open_line close_line : Text) (names closing : List Text)
      → All IsPlain before
      → All IsPlain body
      → parse_marker open_line ≡ some (record { is_closing = false; names = names })
      → parse_marker close_line ≡ some (record { is_closing = true; names = closing })
      → filter_lines platform outside (before ++ (open_line ∷ (body ++ (close_line ∷ rest))))
        ≡ before
          ++ ((if platform_matches platform names then body else [])
              ++ filter_lines platform outside rest)
  filter_lines-block before body rest open_line close_line names closing hb h o c =
      filter_lines-plain outside before _ hb
      ∙ ap (λ t. before ++ t)
          (filter_lines-marker outside open_line _ _ o
            ∙ filter_lines-body body rest close_line names closing h c)

-- The lines that are not blank.
unfoldable pub nonblank : List Text → List Text
nonblank [] = []
nonblank (line ∷ lines) = let rest = nonblank lines in if is_blank line then rest else line ∷ rest

-- Collapsing loses no line with content.
nonblank-collapse : (run : ℕ) (lines : List Text) → nonblank (collapse run lines) ≡ nonblank lines
unfolding nonblank collapse
nonblank-collapse run [] = refl
nonblank-collapse run (line ∷ lines) = elim (Bool-cases (is_blank line)) [
  | inl blank ↦ elim (Bool-cases (leb (run + 1) 2)) [
    | inl few ↦ rw (blank, collapse) (rw few (rw blank (nonblank-collapse (run + 1) lines)))
    | inr many ↦ rw (blank, collapse) (rw many (nonblank-collapse (run + 1) lines))
  ]
  | inr content ↦
      rw (content, collapse) (rw content (ap (λ t. line ∷ t) (nonblank-collapse 0 lines)))
]

-- No run of blank lines, counted on from `run`, is longer than two.
unfoldable pub runs_are_short : ℕ → List Text → Bool
runs_are_short run [] = true
runs_are_short run (line ∷ lines) =
    let n = if is_blank line then run + 1 else 0 in leb n 2 && runs_are_short n lines

collapse-runs_are_short :
    (run : ℕ) (lines : List Text) → runs_are_short (min run 2) (collapse run lines) ≡ true
unfolding runs_are_short collapse
collapse-runs_are_short run [] = refl
collapse-runs_are_short run (line ∷ lines) = elim (Bool-cases (is_blank line)) [
  | inl blank ↦ elim (Bool-cases (leb (run + 1) 2)) [
    | inl few ↦
        let e : min run 2 + 1 ≡ min (run + 1) 2 = ground arith in
        rw (blank, collapse)
          (rw few (rw blank (rw e (ground (arith, collapse-runs_are_short (run + 1) lines)))))
    | inr many ↦
        let e : min run 2 ≡ min (run + 1) 2 = ground arith in
        rw (blank, collapse) (rw many (rw e (collapse-runs_are_short (run + 1) lines)))
  ]
  | inr content ↦ rw (content, collapse) (rw content (collapse-runs_are_short 0 lines))
]

-- The second loop keeps every line with content, in order, and leaves at most two blank lines in a row.
pub collapse_lem :
    (lines : List Text)
    → (nonblank (collapse 0 lines) ≡ nonblank lines) × (runs_are_short 0 (collapse 0 lines) ≡ true)
collapse_lem lines = (nonblank-collapse 0 lines, collapse-runs_are_short 0 lines)

body_of-append :
    (body rest : List Text) (last : Text)
    → All (λ line. ends_body line ≡ false) body
    → ends_body last ≡ true
    → body_of (body ++ (last ∷ rest)) ≡ body
unfolding body_of
body_of-append [] rest last h e = rw e
body_of-append (line ∷ body) rest last (p, h) e = rw (p, body_of-append body rest last h e)

-- The section of a step is its first heading and the lines below it, up to the first line that ends
-- a body; earlier sections and what follows are left out.
pub section_of-append :
    (is_word_char : ℕ → Bool) (step_id : Text) (before body rest : List Text) (heading last : Text)
    → All (λ line. is_heading_of is_word_char step_id line ≡ false) before
    → is_heading_of is_word_char step_id heading ≡ true
    → All (λ line. ends_body line ≡ false) body
    → ends_body last ≡ true
    → section_of is_word_char step_id (before ++ (heading ∷ (body ++ (last ∷ rest))))
      ≡ heading ∷ body
unfolding section_of
section_of-append w id [] body rest heading last hb hh h e =
    rw hh (ap (λ t. heading ∷ t) (body_of-append body rest last h e))
section_of-append w id (line ∷ before) body rest heading last (p, hb) hh h e =
    rw p (section_of-append w id before body rest heading last hb hh h e)
