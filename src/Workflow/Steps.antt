-- ===== src/Workflow/Steps.antt =====
-- .trellis/scripts/common/workflow_phase.py: `get_step`.
use taihu.Base.{
  ℕ, Bool, true, false, not, ◌&&◌, ◌||◌, Option, none, some, List, [], ◌∷◌, ◌++◌, leb, eqb,
  if◌then◌else◌, Text, lit, ◌==◌, is_space, is_digit, strip, rstrip, lstrip, starts_with,
  splitlines, join, is_empty,
}

-- The longest prefix of digits, and the rest.
unfoldable pub span_digits : Text → Text × Text
span_digits [] = ([], [])
span_digits (c ∷ s) =
    let (digits, rest) = span_digits s in if is_digit c then (c ∷ digits, rest) else ([], c ∷ s)

-- A line that ends the body.
unfoldable pub ends_body : Text → Bool
unfolding starts_with strip is_space ◌==◌
ends_body line =
    starts_with line (lit "#### ")
    || starts_with line (lit "## ")
    || strip is_space line == lit "---"

unfoldable pub body_of : List Text → List Text
unfolding ends_body
body_of [] = []
body_of (line ∷ lines) = let rest = body_of lines in if ends_body line then [] else line ∷ rest

unfoldable pub finish_section : List Text → Text
finish_section [] = []
finish_section (line ∷ lines) = rstrip is_space (join (lit "\n") (line ∷ lines)) ++ lit "\n"

-- `is_word_char` is the test `\w` on characters outside ASCII.
module _ (is_word_char : ℕ → Bool) where
  unfoldable pub is_word : ℕ → Bool
  is_word c =
      is_digit c
      || (leb b'A' c && leb c b'Z')
      || (leb b'a' c && leb c b'z')
      || eqb c b'_'
      || (leb 128 c && is_word_char c)

  -- `\b` behind a digit: no word character follows.
  unfoldable pub at_boundary : Text → Bool
  unfolding is_word
  at_boundary [] = true
  at_boundary (c ∷ s) = not (is_word c)

  -- The digits behind the dot.
  unfoldable pub minor_id : Text → Text → Option Text
  unfolding at_boundary span_digits
  minor_id major s =
      let (minor, rest) = span_digits s in
      if not (is_empty minor) && at_boundary rest then some (major ++ (b'.' ∷ minor)) else none

  unfoldable pub dotted : Text → Text → Option Text
  unfolding minor_id
  dotted major [] = none
  dotted major (c ∷ s) = if not (is_empty major) && eqb c b'.' then minor_id major s else none

  unfoldable pub step_number : Text → Option Text
  unfolding dotted span_digits
  step_number s = let (major, rest) = span_digits s in dotted major rest

  -- Behind "####": at least one white space, and the number.
  unfoldable pub after_hashes : Text → Option Text
  unfolding step_number lstrip
  after_hashes [] = none
  after_hashes (c ∷ s) = if is_space c then step_number (lstrip is_space s) else none

  -- `m.group(1)` where the line is a step heading.
  unfoldable pub step_heading : Text → Option Text
  unfolding after_hashes
  step_heading (a ∷ b ∷ c ∷ d ∷ s) =
      if eqb a b'#' && eqb b b'#' && eqb c b'#' && eqb d b'#' then after_hashes s else none
  step_heading _ = none

  unfoldable pub is_heading_of : Text → Text → Bool
  unfolding step_heading ◌==◌
  is_heading_of step_id line = elim (step_heading line) [ none ↦ false | some id ↦ id == step_id ]

  -- `lines[start:end]`, from the first heading with this number.
  unfoldable pub section_of : Text → List Text → List Text
  unfolding is_heading_of body_of
  section_of step_id [] = []
  section_of step_id (line ∷ lines) =
      let later = section_of step_id lines in
      if is_heading_of step_id line then line ∷ body_of lines else later

  unfoldable pub get_step : Text → Text → Text
  unfolding section_of finish_section splitlines rstrip join
  get_step step_id text = finish_section (section_of step_id (splitlines text))
