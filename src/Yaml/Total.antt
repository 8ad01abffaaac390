-- ===== src/Yaml/Total.antt =====
-- .trellis/scripts/common/trellis_config.py: the block parser reads every text to its end.
use taihu.Base.{
  ℕ, zero, suc, ◌+◌, ◌≤◌, ◌<◌, ◌≡◌, refl, ap, Option, none, some, List, [], ◌∷◌, Text, splitlines,
  length, arith, Option-cases, Bool-cases, inl, inr, ◌⊎◌,
}
use taihu.Yaml.Scalar.{
  skip_indented_body, Reason, unsupported_value, is_quoted, next_content_line, indent_of,
}
use taihu.Yaml.Block.{
  Step, State, leave, go_on, descend, step, open_key, store, pair, content, parse_block,
  parse_lines, parse_simple_yaml, reject, clear, nested, attach, result_of, start, parsed, Parser,
  run, resume, forward, warn, take_item,
}

-- What a round of the loop at the indent `m` leaves: at most `n` lines, and `i` still counts the lines
-- before them. Only a block that is indented is left early.
abbrev Tracks : ℕ → ℕ → ℕ → Step → Type 0
Tracks m n total leave = 0 < m
Tracks m n total (go_on rest s) = (length rest ≤ n) × (s.i + length rest ≡ total)
Tracks m n total (descend key indent rest s) = (length rest ≤ n) × (s.i + length rest ≡ total)

length-skip_indented_body :
    (indent : ℕ) (lines : List Text)
    → length (skip_indented_body indent lines).0 + (skip_indented_body indent lines).1
      ≡ length lines
unfolding skip_indented_body
length-skip_indented_body indent [] = omega arith
length-skip_indented_body indent (line ∷ lines) =
    ground (arith, length-skip_indented_body indent lines)

module _ (m : ℕ) (rest : List Text) where
  open_key-Tracks :
      (key : Text) (indent : ℕ) (s : State) (o : Option Text)
      → Tracks m (length rest) (s.i + suc (length rest)) (open_key key indent rest s o)
  unfolding open_key forward
  open_key-Tracks key indent s none = omega arith
  open_key-Tracks key indent s (some next_line) = ground arith

  store-Tracks :
      (key value : Text) (indent : ℕ) (s : State)
      → Tracks m (length rest) (s.i + suc (length rest)) (store key value indent rest s)
  unfolding store forward
  store-Tracks key value indent s =
      ground (arith, open_key-Tracks key indent s (next_content_line rest))

  reject-Tracks :
      (reason : Reason) (indent : ℕ) (line : Text) (s : State)
      → Tracks m (length rest) (s.i + suc (length rest)) (reject reason indent line rest s)
  unfolding forward warn
  reject-Tracks reason indent line s = omega (arith, length-skip_indented_body indent rest)

  pair-Tracks :
      (key value : Text) (indent : ℕ) (line : Text) (s : State)
      → Tracks m (length rest) (s.i + suc (length rest)) (pair key value indent line rest s)
  unfolding pair
  pair-Tracks key value indent line s = elim (Bool-cases (is_quoted value)) [
    | inl q ↦ rw q (store-Tracks key value indent (clear s))
    | inr q ↦ rw q (elim (Option-cases (unsupported_value key value)) [
      | inl u ↦ rw u (store-Tracks key value indent (clear s))
      | inr (r, u) ↦ rw u (reject-Tracks r indent line s)
    ])
  ]

  content-Tracks :
      (indent : ℕ) (line : Text) (s : State)
      → Tracks m (length rest) (s.i + suc (length rest)) (content indent line rest s)
  unfolding content forward warn take_item
  content-Tracks indent line s = grind (arith, pair-Tracks)

  step-Tracks :
      (line : Text) (s : State)
      → Tracks m (length rest) (s.i + suc (length rest)) (step m line rest s)
  unfolding step forward
  step-Tracks line s = ground (arith, content-Tracks (indent_of line) line s)

-- A result at the indent `m`: at most `n` lines are left, none at the indent 0, and `i` counts the
-- lines before them.
abbrev pub Returns : ℕ → ℕ → ℕ → Option (List Text × State) → Type 0
Returns m n total none = ⊥
Returns m n total (some (rest, s)) =
    (length rest ≤ n) × (s.i + length rest ≡ total) × ((0 < m) ⊎ (length rest ≡ 0))

Returns-le :
    (m : ℕ) {k n t u : ℕ} (o : Option (List Text × State))
    → k ≤ n
    → t ≡ u
    → Returns m k t o
    → Returns m n u o
Returns-le m none h e r = r
Returns-le m (some (rest, s)) h e r = omega arith

abbrev AllReturn : ℕ → Parser → Type 0
AllReturn n parse =
    (m : ℕ) (lines : List Text) (s : State)
    → length lines < n
    → Returns m (length lines) (s.i + length lines) (parse m lines s)

module _ (parse : Parser) (n : ℕ) (all : AllReturn n parse) where
  resume-Returns :
      (m indent : ℕ) (key : Text) (outer : State) (k t : ℕ) (o : Option (List Text × State))
      → k < n
      → Returns indent k t o
      → Returns m k t (resume parse m key outer o)
  unfolding resume
  resume-Returns m indent key outer k t none h r = elim r [ ]
  resume-Returns m indent key outer k t (some (rest, inner)) h r =
      Returns-le m (parse m rest (attach key outer inner)) r.0 r.1
        (all m rest (attach key outer inner) (omega arith))

  run-Returns :
      (m : ℕ) (line : Text) (rest : List Text) (s : State) (st : Step)
      → length rest < n
      → Tracks m (length rest) (s.i + suc (length rest)) st
      → Returns m (suc (length rest)) (s.i + suc (length rest)) (run parse m (line ∷ rest) s st)
  unfolding run
  run-Returns m line rest s leave h r = omega arith
  run-Returns m line rest s (go_on rest' s') h r =
      Returns-le m (parse m rest' s') (omega arith) r.1 (all m rest' s' (omega arith))
  run-Returns m line rest s (descend key indent rest' s') h r =
      Returns-le m (resume parse m key s' (parse indent rest' (nested s'))) (omega arith) r.1 (
        resume-Returns m indent key s' (length rest') (s'.i + length rest')
          (parse indent rest' (nested s')) (omega arith)
          (all indent rest' (nested s') (omega arith)))

-- On more fuel than there are lines a block returns, leaves no more lines than it was given, and its
-- line counter has advanced by the lines that it read.
pub parse_block-Returns :
    (fuel m : ℕ) (lines : List Text) (s : State)
    → length lines < fuel
    → Returns m (length lines) (s.i + length lines) (parse_block fuel m lines s)
unfolding parse_block
parse_block-Returns zero m lines s h = elim h [ ]
parse_block-Returns (suc fuel) m [] s h = omega arith
parse_block-Returns (suc fuel) m (line ∷ rest) s h =
    run-Returns (parse_block fuel) fuel (parse_block-Returns fuel) m line rest s
      (step m line rest s) (omega arith) (step-Tracks m rest line s)

finish :
    (lines : List Text) (o : Option (List Text × State))
    → parse_block (suc (length lines)) 0 lines start ≡ o
    → Returns 0 (length lines) (length lines) o
    → (s : State) × (parse_block (suc (length lines)) 0 lines start ≡ some ([], s))
      × (parse_lines lines ≡ parsed s.target s.warnings)
      × (s.i ≡ length lines)
unfolding parse_lines
finish lines none e r = elim r [ ]
finish lines (some ([], s)) e r = (s, e, ap result_of e, omega arith)
finish lines (some (line ∷ rest, s)) e r = let no : ⊥ = omega arith in absurd no

parse_lines-total :
    (lines : List Text)
    → (s : State) × (parse_block (suc (length lines)) 0 lines start ≡ some ([], s))
      × (parse_lines lines ≡ parsed s.target s.warnings)
      × (s.i ≡ length lines)
parse_lines-total lines = finish lines (parse_block (suc (length lines)) 0 lines start) refl (
    Returns-le 0 (parse_block (suc (length lines)) 0 lines start) (omega arith) (omega arith)
      (parse_block-Returns (suc (length lines)) 0 lines start (omega arith)))

-- Every text is parsed: on fuel of one more than its lines the top-level block ends with no line
-- left, the result is the mapping and the warnings of the state that it ends in, and the line counter
-- of that state is the number of the lines.
pub parse_simple_yaml-total :
    (text : Text)
    → (s : State) × (parse_block (suc (length (splitlines text))) 0 (splitlines text) start
        ≡ some ([], s))
      × (parse_simple_yaml text ≡ parsed s.target s.warnings)
      × (s.i ≡ length (splitlines text))
unfolding parse_simple_yaml
parse_simple_yaml-total text = parse_lines-total (splitlines text)
