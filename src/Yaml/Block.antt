-- ===== src/Yaml/Block.antt =====
-- .trellis/scripts/common/trellis_config.py: `_parse_yaml_block` and `parse_simple_yaml`.
-- `rest` is `lines[i:]`. `i` itself is kept for the warnings.
use taihu.Base.{
  ℕ, zero, suc, ◌+◌, Bool, false, not, ◌||◌, Option, none, some, List, [], ◌∷◌, ◌++◌, ltb,
  if◌then◌else◌, Text, ◌==◌, partition, splitlines, length, is_empty, drop,
}
use taihu.Yaml.Scalar.{
  is_quoted, unquote, strip_inline_comment, stripped, indent_of, is_blank_or_comment, is_item,
  next_content_line, Reason, mapping_in_list, unsupported_value, skip_indented_body,
}

mutual
  pub data Yaml : Type 0 where
    str : Text → Yaml
    seq : List Text → Yaml
    dict : Entries → Yaml

  -- A dict, in insertion order.
  pub data Entries : Type 0 where
    end : Entries
    entry : Text → Yaml → Entries → Entries

-- `target[key] = value`
unfoldable pub assign : Text → Yaml → Entries → Entries
assign key value end = entry key value end
assign key value (entry k v d) =
    if k == key then entry k value d else entry k v (assign key value d)

unfoldable pub extend : Text → Yaml → Yaml
extend item (seq items) = seq (items ++ (item ∷ []))
extend item other = other

-- `current_list.append(item)`, where `target[key]` is `current_list`.
unfoldable pub append_item : Text → Text → Entries → Entries
append_item key item end = end
append_item key item (entry k v d) =
    if k == key then entry k (extend item v) d else entry k v (append_item key item d)

pub record Warning : Type 0 where
  pub lineno : ℕ
  pub line : Text
  pub reason : Reason

-- The local variables of the loop, with what went to stderr. `current` is `current_list`, by the key
-- that holds it, with `list_owner_indent`.
pub record State : Type 0 where
  pub i : ℕ
  pub current : Option (Text × ℕ)
  pub target : Entries
  pub warnings : List Warning

-- What one round of the loop does.
pub data Step : Type 0 where
  leave : Step
  go_on : List Text → State → Step
  descend : Text → ℕ → List Text → State → Step

unfoldable pub warn : Text → Reason → State → State
warn line reason s = record s {
  warnings = s.warnings ++ (record { lineno = s.i + 1; line = line; reason = reason } ∷ []);
}

unfoldable pub forward : ℕ → State → State
forward n s = record s { i = s.i + n }

abbrev pub clear : State → State
clear s = record s { current = none }

abbrev pub put : Text → Yaml → State → State
put key value s = record s { target = assign key value s.target }

-- A key with no value on its line: what the next content line makes of it.
unfoldable pub open_key : Text → ℕ → List Text → State → Option Text → Step
open_key key indent rest s none = go_on [] (forward (length rest + 1) (put key (dict end) s))
open_key key indent rest s (some next_line) =
    if is_item (stripped next_line)
    then go_on rest (forward 1 (put key (seq []) (record s { current = some (key, indent) })))
    else if ltb indent (indent_of next_line)
    then descend key (indent_of next_line) rest (forward 1 (put key (dict end) s))
    else go_on rest (forward 1 (put key (dict end) s))

unfoldable pub store : Text → Text → ℕ → List Text → State → Step
store key value indent rest s =
    if not (is_empty (unquote value)) || is_quoted value
    then go_on rest (forward 1 (put key (str (unquote value)) s))
    else open_key key indent rest s (next_content_line rest)

abbrev pub reject : Reason → ℕ → Text → List Text → State → Step
reject reason indent line rest s =
    let (rest', n) = skip_indented_body indent rest in
    go_on rest' (forward (n + 1) (clear (warn line reason s)))

unfoldable pub pair : Text → Text → ℕ → Text → List Text → State → Step
pair key value indent line rest s =
    if is_quoted value
    then store key value indent rest (clear s)
    else elim (unsupported_value key value) [
      | some reason ↦ reject reason indent line rest s
      | none ↦ store key value indent rest (clear s)
    ]

-- `current_list is not None and indent > list_owner_indent`
unfoldable pub inside_item : Option (Text × ℕ) → ℕ → Bool
inside_item none indent = false
inside_item (some (key, owner)) indent = ltb owner indent

unfoldable pub take_item : Option (Text × ℕ) → Text → State → State
take_item none item s = s
take_item (some (key, owner)) item s = record s { target = append_item key item s.target }

-- The branches on a line with content that belongs to the block.
unfoldable pub content : ℕ → Text → List Text → State → Step
content indent line rest s =
    let body = stripped line in
    let (key, value) = partition b':' body in
    if is_item body
    then go_on rest (forward 1 (take_item s.current (unquote (stripped (drop 2 body))) s))
    else elim value [
      | none ↦ go_on rest (forward 1 s)
      | some v ↦
          if inside_item s.current indent
          then go_on rest (forward 1 (warn line mapping_in_list s))
          else pair (stripped key) (stripped (strip_inline_comment v)) indent line rest s
    ]

unfoldable pub step : ℕ → Text → List Text → State → Step
step min_indent line rest s =
    if is_blank_or_comment (stripped line)
    then go_on rest (forward 1 s)
    else if ltb (indent_of line) min_indent
    then leave
    else content (indent_of line) line rest s

-- The start of a nested call, and the return from it.
abbrev pub nested : State → State
nested s = record { i = s.i; current = none; target = end; warnings = s.warnings }

abbrev pub attach : Text → State → State → State
attach key outer inner = record {
  i = inner.i;
  current = outer.current;
  target = assign key (dict inner.target) outer.target;
  warnings = inner.warnings;
}

abbrev pub Parser : Type 0
Parser = ℕ → List Text → State → Option (List Text × State)

-- What `parse` does after the nested call that `key` opened.
unfoldable pub resume :
    Parser → ℕ → Text → State → Option (List Text × State) → Option (List Text × State)
resume parse min_indent key outer none = none
resume parse min_indent key outer (some (rest, inner)) =
    parse min_indent rest (attach key outer inner)

unfoldable pub run : Parser → ℕ → List Text → State → Step → Option (List Text × State)
run parse min_indent lines s leave = some (lines, s)
run parse min_indent lines s (go_on rest s') = parse min_indent rest s'
run parse min_indent lines s (descend key indent rest s') =
    resume parse min_indent key s' (parse indent rest (nested s'))

-- The loop and the nested calls on fuel; `none` means that the fuel ran out.
unfoldable pub parse_block : ℕ → Parser
parse_block zero min_indent lines s = none
parse_block (suc fuel) min_indent [] s = some ([], s)
parse_block (suc fuel) min_indent (line ∷ rest) s =
    run (parse_block fuel) min_indent (line ∷ rest) s (step min_indent line rest s)

abbrev pub start : State
start = record { i = 0; current = none; target = end; warnings = [] }

-- The top-level call; `unfinished` stands for fuel that ran out, which never happens.
pub data Parsed : Type 0 where
  unfinished : Parsed
  parsed : Entries → List Warning → Parsed

abbrev pub result_of : Option (List Text × State) → Parsed
result_of none = unfinished
result_of (some (rest, s)) = parsed s.target s.warnings

unfoldable pub parse_lines : List Text → Parsed
parse_lines lines = result_of (parse_block (suc (length lines)) 0 lines start)

-- The line opens all that a run of the parser calls.
unfoldable pub parse_simple_yaml : Text → Parsed
unfolding parse_lines parse_block run resume step content pair store open_key inside_item take_item
    append_item extend assign forward warn splitlines partition ◌==◌ is_quoted unquote
    strip_inline_comment stripped indent_of is_blank_or_comment is_item next_content_line
    unsupported_value skip_indented_body
parse_simple_yaml content = parse_lines (splitlines content)
