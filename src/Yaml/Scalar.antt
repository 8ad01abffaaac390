-- ===== src/Yaml/Scalar.antt =====
-- .trellis/scripts/common/trellis_config.py: the helpers that look at one line or one value.
use taihu.Base.{
  ℕ, ◌+◌, ◌-◌, Bool, true, false, not, ◌&&◌, ◌||◌, Option, none, some, List, [], ◌∷◌, leb, eqb,
  if◌then◌else◌, Text, lit, ◌==◌, is_space, lstrip, strip, starts_with, last, init, is_empty, all,
  length,
}

-- `value[0] in ('"', "'")`
unfoldable pub is_quote : ℕ → Bool
is_quote c = eqb c b'"' || eqb c 39

-- `len(value) >= 2 and value[0] == value[-1] and value[0] in ('"', "'")`
unfoldable pub is_quoted : Text → Bool
unfolding is_quote last
is_quoted [] = false
is_quoted (c ∷ []) = false
is_quoted (c ∷ d ∷ s) = eqb c (last d s) && is_quote c

unfoldable pub unquote : Text → Text
unfolding is_quoted init
unquote [] = []
unquote (c ∷ s) = if is_quoted (c ∷ s) then init s else c ∷ s

-- `in_quote` after the character `ch`.
unfoldable pub next_quote : Option ℕ → ℕ → Option ℕ
unfolding is_quote
next_quote none ch = if is_quote ch then some ch else none
next_quote (some q) ch = if eqb ch q then none else some q

-- The test that ends the value: a `#` outside quotes, at the start or behind white space.
unfoldable pub opens_comment : Option ℕ → Option ℕ → ℕ → Bool
unfolding is_space
opens_comment previous (some q) ch = false
opens_comment none none ch = eqb ch b'#'
opens_comment (some p) none ch = eqb ch b'#' && is_space p

-- The loop, from the character behind `previous` on.
unfoldable pub strip_comment_from : Option ℕ → Option ℕ → Text → Text
unfolding opens_comment next_quote
strip_comment_from previous in_quote [] = []
strip_comment_from previous in_quote (ch ∷ value) =
    let rest = strip_comment_from (some ch) (next_quote in_quote ch) value in
    if opens_comment previous in_quote ch then [] else ch ∷ rest

unfoldable pub strip_inline_comment : Text → Text
unfolding strip_comment_from
strip_inline_comment = strip_comment_from none none

unfoldable pub stripped : Text → Text
unfolding strip
stripped = strip is_space

-- `len(line) - len(line.lstrip())`
unfoldable pub indent_of : Text → ℕ
unfolding lstrip
indent_of line = length line - length (lstrip is_space line)

-- `not stripped or stripped.startswith("#")`
unfoldable pub is_blank_or_comment : Text → Bool
is_blank_or_comment [] = true
is_blank_or_comment (c ∷ s) = eqb c b'#'

unfoldable pub is_item : Text → Bool
unfolding starts_with
is_item line = starts_with line (lit "- ")

-- The first line with content, if one is left.
unfoldable pub next_content_line : List Text → Option Text
unfolding stripped is_blank_or_comment
next_content_line [] = none
next_content_line (line ∷ lines) =
    let later = next_content_line lines in
    if is_blank_or_comment (stripped line) then later else some line

abbrev is_indicator : ℕ → Bool
is_indicator ch = eqb ch b'+' || eqb ch b'-' || (leb b'0' ch && leb ch b'9')

unfoldable pub is_block_scalar : Text → Bool
is_block_scalar [] = false
is_block_scalar (c ∷ s) = (eqb c b'|' || eqb c b'>') && all is_indicator s

pub data Reason : Type 0 where
  merge_key block_scalar anchor alias flow_sequence flow_mapping mapping_in_list : Reason

-- What the first character of a value says.
unfoldable pub marker_reason : Text → Option Reason
marker_reason [] = none
marker_reason (c ∷ s) =
    if eqb c b'&'
    then some anchor
    else if eqb c b'*'
    then some alias
    else if eqb c b'['
    then some flow_sequence
    else if eqb c b'{'
    then some flow_mapping
    else none

unfoldable pub unsupported_value : Text → Text → Option Reason
unfolding is_block_scalar marker_reason ◌==◌
unsupported_value key value =
    if key == lit "<<"
    then some merge_key
    else if is_block_scalar value
    then some block_scalar
    else marker_reason value

-- The lines behind a rejected key that are blank or indented deeper, and how many they are.
unfoldable pub skip_indented_body : ℕ → List Text → List Text × ℕ
unfolding stripped indent_of
skip_indented_body indent [] = ([], 0)
skip_indented_body indent (line ∷ lines) =
    let (rest, n) = skip_indented_body indent lines in
    if not (is_empty (stripped line)) && leb (indent_of line) indent
    then (line ∷ lines, 0)
    else (rest, n + 1)
