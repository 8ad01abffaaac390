-- ===== src/Workflow/Markers.antt =====
-- .trellis/scripts/common/workflow_phase.py: platform markers and `filter_platform`.
use taihu.Base.{
  ℕ, ◌+◌, Bool, true, false, not, ◌&&◌, ◌||◌, Option, none, some, List, [], ◌∷◌, ◌++◌, leb, eqb,
  if◌then◌else◌, Text, lit, ◌==◌, is_space, strip, rstrip, has, partition, lower, remove_char,
  splitlines, join, is_empty, all,
}

abbrev is_letter : ℕ → Bool
is_letter c = (leb b'A' c && leb c b'Z') || (leb b'a' c && leb c b'z')

abbrev starts_with_letter : Text → Bool
starts_with_letter [] = false
starts_with_letter (c ∷ s) = is_letter c

-- The split at commas.
unfoldable pub split : ℕ → Text → List Text
split c [] = [] ∷ []
split c (d ∷ s) = elim (split c s) [
  | [] ↦ (d ∷ []) ∷ []
  | t ∷ ts ↦ if eqb c d then [] ∷ t ∷ ts else (d ∷ t) ∷ ts
]

-- `[p.strip() for p in ... if p.strip()]`
unfoldable pub strip_all : List Text → List Text
unfolding strip is_space
strip_all [] = []
strip_all (t ∷ ts) =
    let rest = strip_all ts in
    let name = strip is_space t in if is_empty name then rest else name ∷ rest

unfoldable pub names_of : Text → List Text
unfolding strip_all split
names_of s = strip_all (split b',' s)

pub record Marker : Type 0 where
  pub is_closing : Bool
  pub names : List Text

-- Behind the opening bracket and the slash: the names up to the first bracket, which has to close the
-- marker, and only white space after it.
unfoldable pub marker_body : Bool → Text → Option Marker
unfolding names_of partition has
marker_body closing s =
    let (body, after) = partition b']' s in
    if starts_with_letter body && not (has b'[' body)
    then elim after [
      | none ↦ none
      | some rest ↦
          if all is_space rest
          then some (record { is_closing = closing; names = names_of body })
          else none
    ]
    else none

unfoldable pub marker_open : Text → Option Marker
unfolding marker_body
marker_open [] = none
marker_open (c ∷ s) = if eqb c b'/' then marker_body true s else marker_body false (c ∷ s)

unfoldable pub parse_marker : Text → Option Marker
unfolding marker_open
parse_marker [] = none
parse_marker (c ∷ s) = if eqb c b'[' then marker_open s else none

-- `name.lower().replace("-", "").replace("_", "").replace(" ", "")`
unfoldable pub folded : Text → Text
unfolding remove_char lower
folded s = remove_char b' ' (remove_char b'_' (remove_char b'-' (lower s)))

unfoldable pub platform_matches : Text → List Text → Bool
unfolding folded ◌==◌
platform_matches platform [] = false
platform_matches platform (name ∷ names) =
    folded platform == folded name || platform_matches platform names

-- `in_block` and `keep_block`.
pub data Block : Type 0 where
  outside kept dropped : Block

unfoldable pub enter : Text → Marker → Block
enter platform m =
    if m.is_closing then outside else if platform_matches platform m.names then kept else dropped

abbrev pub shows : Block → Bool
shows outside = true
shows kept = true
shows dropped = false

-- The first loop.
unfoldable pub filter_lines : Text → Block → List Text → List Text
unfolding enter
filter_lines platform block [] = []
filter_lines platform block (line ∷ lines) = elim (parse_marker line) [
  | some marker ↦ filter_lines platform (enter platform marker) lines
  | none ↦ let rest = filter_lines platform block lines in if shows block then line ∷ rest else rest
]

unfoldable pub is_blank : Text → Bool
unfolding strip is_space
is_blank line = is_empty (strip is_space line)

-- The second loop: of a run of blank lines the first two stay.
unfoldable pub collapse : ℕ → List Text → List Text
collapse run [] = []
collapse run (line ∷ lines) = elim (is_blank line) [
  | true ↦ let rest = collapse (run + 1) lines in if leb (run + 1) 2 then line ∷ rest else rest
  | false ↦ line ∷ collapse 0 lines
]

unfoldable pub filter_platform : Text → Text → Text
unfolding filter_lines collapse is_blank
filter_platform content platform =
    rstrip is_space
      (join (lit "\n") (collapse 0 (filter_lines platform outside (splitlines content))))
    ++ lit "\n"
