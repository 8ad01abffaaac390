-- ===== src/Store/Slugs.antt =====
-- .trellis/scripts/common/task_store.py: titles, slugs, date prefixes and `--meta` pairs.
use taihu.Base.{
  ℕ, ◌+◌, ◌-◌, ◌*◌, Bool, true, false, ◌&&◌, ◌||◌, Option, none, some, List, [], ◌∷◌, ◌++◌, ltb,
  leb, eqb, if◌then◌else◌, Text, lit, ◌==◌, is_empty, is_space, is_digit, strip, has, partition,
  lower_char,
}
use taihu.Json.{str, Fields, assign}
use taihu.Commit.Git.{contains}

-- `BLANK_CHARS`: Python's white space and the byte order mark.
unfoldable pub is_blank : ℕ → Bool
is_blank c = is_space c || eqb c 65279

-- `strip_blank`, where `None` counts as the empty text.
unfoldable pub strip_blank : Option Text → Text
strip_blank none = []
strip_blank (some s) = strip is_blank s

unfoldable pub slug_char : ℕ → Bool
slug_char c = (leb b'a' c && leb c b'z') || is_digit c

-- `re.sub(r"[^a-z0-9]", "-", title.lower())`: the dotted capital I is lowered to an i and a mark.
unfoldable pub dashed : Text → Text
dashed [] = []
dashed (c ∷ s) =
    let rest = dashed s in
    if eqb c 304
    then b'i' ∷ b'-' ∷ rest
    else if slug_char (lower_char c)
    then lower_char c ∷ rest
    else b'-' ∷ rest

-- `re.sub(r"-+", "-", s)`; the flag says that a dash stands before.
unfoldable pub squeeze : Bool → Text → Text
squeeze prev [] = []
squeeze prev (c ∷ s) = elim (eqb c b'-') [
  | true ↦ if prev then squeeze true s else b'-' ∷ squeeze true s
  | false ↦ c ∷ squeeze false s
]

unfoldable pub slugify : Text → Text
slugify title = strip (eqb b'-') (squeeze false (dashed title))

-- `.+` up to the end of the text, or up to a line feed that ends it.
abbrev pub one_line : Text → Option Text → Option Text
one_line [] after = none
one_line (c ∷ s) none = some (c ∷ s)
one_line (c ∷ s) (some []) = some (c ∷ s)
one_line (c ∷ s) (some (d ∷ t)) = none

unfoldable pub body_of : Text → Option Text
body_of s = one_line (partition b'\n' s).0 (partition b'\n' s).1

-- The number that two digits write, if it lies between 1 and `top`.
abbrev pub number_ok : ℕ → Option ℕ → Option ℕ → Bool
number_ok top (some a) (some b) = leb 1 (a * 10 + b) && leb (a * 10 + b) top
number_ok top _ _ = false

abbrev pub date_or_all : Text → Bool → Text → Option Text → Text × Text
date_or_all name true prefix (some body) = (prefix, body)
date_or_all name _ prefix _ = ([], name)

-- `"/" in slug or "\\" in slug or ".." in slug`
unfoldable pub escapes : Text → Bool
escapes slug = has b'/' slug || (has b'\\' slug || contains slug (lit ".."))

-- A date in front of a slug is dropped if it is the expected one, and refused otherwise.
abbrev pub drop_date : Text → Text → Text × Text → Option Text
drop_date slug expected ([], body) = some slug
drop_date slug expected (c ∷ prefix, body) = if (c ∷ prefix) == expected then some body else none

-- The slug of a new task: the one given, which is tested as above, or the title's.
abbrev pub given_or_title : Option Text → Text → Text
given_or_title none title = slugify title
given_or_title (some []) title = slugify title
given_or_title (some (c ∷ s)) title = c ∷ s

-- `wide` gives the value of a decimal digit beyond ASCII, which `\d` matches and `int` reads too.
module _ (wide : ℕ → Option ℕ) where
  unfoldable pub digit_value : ℕ → Option ℕ
  digit_value c = if is_digit c then some (c - b'0') else if ltb c 128 then none else wide c

  -- `_split_date_prefix`
  unfoldable pub split_date_prefix : Text → Text × Text
  split_date_prefix (a ∷ b ∷ x ∷ c ∷ d ∷ y ∷ rest) =
      date_or_all (a ∷ b ∷ x ∷ c ∷ d ∷ y ∷ rest)
        (eqb x b'-'
          && (eqb y b'-'
              && (number_ok 12 (digit_value a) (digit_value b)
                  && number_ok 31 (digit_value c) (digit_value d))))
        (a ∷ b ∷ b'-' ∷ c ∷ d ∷ []) (body_of rest)
  split_date_prefix name = ([], name)

  unfoldable pub validate_rename_slug : Text → Text → Option Text
  validate_rename_slug slug date_prefix =
      if is_empty slug
      then none
      else if escapes slug
      then none
      else drop_date slug date_prefix (split_date_prefix slug)

  abbrev pub checked_slug : Option Text → Text → Text → Option Text
  checked_slug none slug today = some slug
  checked_slug (some []) slug today = some slug
  checked_slug (some (c ∷ s)) slug today =
      if escapes slug then none else drop_date slug today (split_date_prefix slug)

  unfoldable pub create_slug : Option Text → Text → Text → Option Text
  create_slug given title today =
      if is_empty (given_or_title given title)
      then none
      else checked_slug given (given_or_title given title) today

-- `_parse_meta_pairs`, from the pairs read so far; `none` is a pair without `=` or without a key.
abbrev meta_step : Text × Option Text → Fields → Option Fields
meta_step (key, none) meta = none
meta_step ([], some value) meta = none
meta_step (c ∷ key, some value) meta = some (assign (c ∷ key) (str value) meta)

unfoldable pub parse_meta_pairs : List Text → Fields → Option Fields
parse_meta_pairs [] meta = some meta
parse_meta_pairs (pair ∷ pairs) meta = elim (meta_step (partition b'=' pair) meta) [
  | none ↦ none
  | some next ↦ parse_meta_pairs pairs next
]

-- `title.strip() or "Untitled task"`, and the goal likewise.
abbrev or_text : Text → Text → Text
or_text [] default = default
or_text (c ∷ s) default = c ∷ s

unfoldable pub default_prd_content : Text → Option Text → Text
default_prd_content title description =
    let heading = or_text (strip is_space title) (lit "Untitled task") in
    let goal =
      or_text (strip is_space (elim description [ none ↦ [] | some d ↦ d ])) (lit "TBD.") in
    lit "# "
    ++ (heading
        ++ (lit "\n\n## Goal\n\n"
            ++ (goal
                ++ (lit
                      "\n\n## Requirements\n\n- TBD\n\n## Acceptance Criteria\n\n- [ ] TBD\n\n## Notes\n\n"
                    ++ (lit
                          "- Keep `prd.md` focused on requirements, constraints, and acceptance criteria.\n"
                        ++ (lit "- Lightweight tasks can remain PRD-only.\n"
                            ++ (lit "- For complex tasks, add `design.md` for technical design and "
                                ++ lit
                                    "`implement.md` for execution planning before `task.py start`.\n")))))))
