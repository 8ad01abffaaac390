-- ===== src/Config/Values.antt =====
-- .trellis/scripts/common/config.py: single values with their defaults.
use taihu.Base.{
  ℕ, Bool, true, false, Option, none, some, List, [], ◌∷◌, if◌then◌else◌, Text, lit, ◌==◌, elem,
  lower, strip, is_space, ℤ, pos, negsuc, parse_int,
}
use taihu.Yaml.Block.{
  Yaml, str, seq, dict, Entries, end, entry, unfinished, parsed, parse_simple_yaml,
}

-- `config.get(key)`
unfoldable pub get : Text → Entries → Option Yaml
get key end = none
get key (entry k v d) = if k == key then some v else get key d

-- `_load_config`: `none` stands for a file that cannot be read.
unfoldable pub load_config : Option Text → Entries
load_config none = end
load_config (some content) = elim (parse_simple_yaml content) [ unfinished ↦ end | parsed d w ↦ d ]

abbrev pub true_config_values : List Text
true_config_values = lit "true" ∷ lit "yes" ∷ lit "1" ∷ lit "on" ∷ []

abbrev pub false_config_values : List Text
false_config_values = lit "false" ∷ lit "no" ∷ lit "0" ∷ lit "off" ∷ []

-- `str(value).strip().lower()`, if the value is a text. What `str` makes of a list or a dict begins
-- with a bracket, and is none of the words that the callers test for.
unfoldable pub word_of : Yaml → Option Text
unfolding lower strip is_space
word_of (str s) = some (lower (strip is_space s))
word_of _ = none

-- The flag is set where the function warns.
unfoldable pub coerce_word : Option Text → Bool → Bool × Bool
coerce_word none default = (default, true)
coerce_word (some s) default =
    if elem s true_config_values
    then (true, false)
    else if elem s false_config_values
    then (false, false)
    else (default, true)

unfoldable pub coerce_config_bool : Yaml → Bool → Bool × Bool
coerce_config_bool value default = coerce_word (word_of value) default

unfoldable pub is_true_config_value : Option Yaml → Bool × Bool
is_true_config_value none = (false, false)
is_true_config_value (some value) = coerce_config_bool value false

unfoldable pub get_session_commit_message : Entries → Yaml
get_session_commit_message config = elim (get (lit "session_commit_message") config) [
  | none ↦ str (lit "chore: record journal")
  | some value ↦ value
]

-- `int(value)`, where a list or a dict raises a TypeError.
unfoldable pub int_of : Yaml → Option ℤ
unfolding parse_int
int_of (str s) = parse_int s
int_of _ = none

abbrev pub default_max_journal_lines : ℤ
default_max_journal_lines = pos 2000

unfoldable pub int_or : ℤ → Option Yaml → ℤ
int_or default none = default
int_or default (some value) = elim (int_of value) [ none ↦ default | some n ↦ n ]

unfoldable pub get_max_journal_lines : Entries → ℤ
get_max_journal_lines config =
    int_or default_max_journal_lines (get (lit "max_journal_lines") config)

unfoldable pub bool_or : Bool → Option Yaml → Bool × Bool
bool_or default none = (default, false)
bool_or default (some value) = coerce_config_bool value default

unfoldable pub get_session_auto_commit : Entries → Bool × Bool
get_session_auto_commit config = bool_or true (get (lit "session_auto_commit") config)

pub data DispatchMode : Type 0 where
  auto inline : DispatchMode

unfoldable pub mode_of_word : Option Text → DispatchMode × Bool
mode_of_word none = (inline, true)
mode_of_word (some mode) =
    if mode == lit "auto"
    then (auto, false)
    else if mode == lit "inline"
    then (inline, false)
    else if mode == lit "sub-agent"
    then (auto, false)
    else (inline, true)

unfoldable pub mode_of_setting : Option Yaml → DispatchMode × Bool
mode_of_setting none = (auto, false)
mode_of_setting (some raw) = mode_of_word (word_of raw)

unfoldable pub mode_of_codex : Option Yaml → DispatchMode × Bool
mode_of_codex none = (auto, false)
mode_of_codex (some (dict codex)) = mode_of_setting (get (lit "dispatch_mode") codex)
mode_of_codex (some _) = (inline, true)

unfoldable pub get_codex_dispatch_mode : Entries → DispatchMode × Bool
get_codex_dispatch_mode config = mode_of_codex (get (lit "codex") config)

-- One round of the loop over the limits: the value, and whether it warned.
unfoldable pub limit_of_int : ℕ → Option ℤ → ℕ × Bool
limit_of_int default none = (default, true)
limit_of_int default (some (pos n)) = (n, false)
limit_of_int default (some (negsuc n)) = (default, true)

unfoldable pub limit_of : ℕ → Option Yaml → ℕ × Bool
limit_of default none = (default, false)
limit_of default (some raw) = limit_of_int default (int_of raw)

pub record Limits : Type 0 where
  pub max_file_bytes : ℕ × Bool
  pub max_artifact_bytes : ℕ × Bool
  pub max_total_bytes : ℕ × Bool

unfoldable pub limits_of_section : Option Yaml → Limits
limits_of_section (some (dict section)) = record {
  max_file_bytes = limit_of 32768 (get (lit "max_file_bytes") section);
  max_artifact_bytes = limit_of 65536 (get (lit "max_artifact_bytes") section);
  max_total_bytes = limit_of 131072 (get (lit "max_total_bytes") section);
}
limits_of_section _ = record {
  max_file_bytes = (32768, false);
  max_artifact_bytes = (65536, false);
  max_total_bytes = (131072, false);
}

unfoldable pub get_context_injection_limits : Entries → Limits
get_context_injection_limits config = limits_of_section (get (lit "context_injection") config)

abbrev pub default_skip_keyword : Text
default_skip_keyword = lit "no-trellis"

unfoldable pub keyword_of : Option Yaml → Text
keyword_of (some (str raw)) = raw
keyword_of _ = default_skip_keyword

unfoldable pub skip_keyword_of : Option Yaml → Text
skip_keyword_of (some (dict section)) = keyword_of (get (lit "skip_keyword") section)
skip_keyword_of _ = default_skip_keyword

-- The one entry of the dict that `get_prompt_injection_config` returns.
unfoldable pub get_prompt_injection_config : Entries → Text
get_prompt_injection_config config = skip_keyword_of (get (lit "prompt_injection") config)

unfoldable pub commands_of : Option Yaml → List Text × Bool
commands_of none = ([], false)
commands_of (some (seq commands)) = (commands, false)
commands_of (some _) = ([], true)

unfoldable pub hooks_of : Text → Option Yaml → List Text × Bool
hooks_of event none = ([], false)
hooks_of event (some (dict hooks)) = commands_of (get event hooks)
hooks_of event (some _) = ([], true)

unfoldable pub get_hooks : Text → Entries → List Text × Bool
get_hooks event config = hooks_of event (get (lit "hooks") config)
