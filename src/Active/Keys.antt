-- ===== src/Active/Keys.antt =====
-- .trellis/scripts/common/active_task.py: the values looked up in a hook's input, the platform, and
-- the context key.
use taihu.Base.{
  ℕ, zero, suc, Bool, true, false, ◌&&◌, ◌||◌, Option, none, some, List, [], ◌∷◌, ◌++◌, leb, eqb,
  if◌then◌else◌, Text, lit, ◌==◌, is_space, strip, take, max,
}
use taihu.Json.{Json, null, str, obj, Fields, end, field, get, or_default}

abbrev pub session_keys : List Text
session_keys = lit "session_id" ∷ lit "sessionId" ∷ lit "sessionID" ∷ []

abbrev pub conversation_keys : List Text
conversation_keys = lit "conversation_id" ∷ lit "conversationId" ∷ lit "conversationID" ∷ []

abbrev pub transcript_keys : List Text
transcript_keys = lit "transcript_path" ∷ lit "transcriptPath" ∷ lit "transcript" ∷ []

abbrev pub nested_keys : List Text
nested_keys = lit "input" ∷ lit "properties" ∷ lit "event" ∷ lit "hook_input" ∷ lit "hookInput" ∷ []

-- A character of `[A-Za-z0-9._-]`.
unfoldable pub is_safe : ℕ → Bool
is_safe c =
    (leb b'A' c && leb c b'Z')
    || (leb b'a' c && leb c b'z')
    || (leb b'0' c && leb c b'9')
    || eqb c b'.'
    || eqb c b'_'
    || eqb c b'-'

-- `re.sub(r"[^A-Za-z0-9._-]+", "_", s)`; the flag says that the run has its underscore.
unfoldable pub sub_runs : Bool → Text → Text
sub_runs in_run [] = []
sub_runs in_run (c ∷ s) = elim (is_safe c) [
  | true ↦ c ∷ sub_runs false s
  | false ↦ elim in_run [ true ↦ sub_runs true s | false ↦ b'_' ∷ sub_runs true s ]
]

-- The characters that `strip("._-")` takes off.
abbrev pub is_edge : ℕ → Bool
is_edge c = eqb c b'.' || eqb c b'_' || eqb c b'-'

unfoldable pub sanitize_key : Text → Text
unfolding sub_runs is_safe strip is_space
sanitize_key raw = take 160 (strip is_edge (sub_runs false (strip is_space raw)))

abbrev pub nonempty : Text → Option Text
nonempty [] = none
nonempty (c ∷ s) = some (c ∷ s)

-- `a or b` on texts.
abbrev pub or_text : Text → Text → Text
or_text [] b = b
or_text (c ∷ s) b = c ∷ s

unfoldable pub string_value : Json → Option Text
unfolding strip is_space
string_value (str s) = nonempty (strip is_space s)
string_value _ = none

-- The first key with such a value.
unfoldable pub first_string : Fields → List Text → Option Text
first_string d [] = none
first_string d (k ∷ ks) = elim (string_value (or_default null (get k d))) [
  | some v ↦ some v
  | none ↦ first_string d ks
]

-- The search in one nested dict, for a search that goes further down; an empty dict is skipped.
abbrev pub lookup_in : (Fields → Option Text) → Json → Option Text
lookup_in lookup (obj end) = none
lookup_in lookup (obj (field k v d)) = lookup (field k v d)
lookup_in lookup _ = none

unfoldable pub lookup_nested : (Fields → Option Text) → Fields → List Text → Option Text
lookup_nested lookup d [] = none
lookup_nested lookup d (k ∷ ks) = elim (lookup_in lookup (or_default null (get k d))) [
  | some v ↦ some v
  | none ↦ lookup_nested lookup d ks
]

-- How deep dicts are nested in dicts.
unfoldable mutual
  pub depth_of : Json → ℕ
  depth_of (obj d) = suc (depth d)
  depth_of _ = 0

  pub depth : Fields → ℕ
  depth end = 0
  depth (field k v d) = max (depth_of v) (depth d)

abbrev pub or_else : Option Text → Option Text → Option Text
or_else none o = o
or_else (some v) o = some v

-- `_lookup_string` on fuel, and on enough of it.
unfoldable pub lookup_from : ℕ → List Text → Fields → Option Text
lookup_from zero keys d = first_string d keys
lookup_from (suc fuel) keys d =
    or_else (first_string d keys) (lookup_nested (lookup_from fuel keys) d nested_keys)

unfoldable pub lookup_string : List Text → Fields → Option Text
lookup_string keys d = lookup_from (suc (depth d)) keys d

abbrev pub platform_keys : List Text
platform_keys =
    lit "_trellis_platform" ∷ lit "trellis_platform" ∷ lit "platform" ∷ lit "source" ∷ []

abbrev pub named_platform : Text → Text
named_platform raw = or_text (sanitize_key raw) (lit "session")

abbrev pub cursor_mark : Option Text → Text
cursor_mark none = lit "session"
cursor_mark (some v) = lit "cursor"

abbrev pub cursor_or_session : Fields → Option Text → Text
cursor_or_session d (some v) = named_platform v
cursor_or_session d none =
    cursor_mark (string_value (or_default null (get (lit "cursor_version") d)))

-- `_detect_platform`, where no input and the empty dict are the same.
unfoldable pub detect_platform : Fields → Option Text → Text
detect_platform d (some (c ∷ s)) = named_platform (c ∷ s)
detect_platform end _ = lit "session"
detect_platform (field k v d) _ =
    cursor_or_session (field k v d) (first_string (field k v d) platform_keys)

pub data Kind : Type 0 where
  session conversation transcript : Kind

unfoldable pub aliased : Text → Text
aliased name =
    if name == lit "zcode"
    then lit "claude"
    else if name == lit "factory"
    then lit "droid"
    else name

-- `hash` is the start of the SHA-256 digest in hexadecimal.
module _ (hash : Text → Text) where
  unfoldable pub context_key : Text → Kind → Text → Text
  context_key platform transcript value = aliased platform ++ (lit "_transcript_" ++ hash value)
  context_key platform _ value =
      aliased platform ++ (b'_' ∷ or_text (sanitize_key value) (hash value))
