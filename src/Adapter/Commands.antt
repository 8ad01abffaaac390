-- ===== src/Adapter/Commands.antt =====
-- .trellis/scripts/common/cli_adapter.py: the command lines of the platforms.
use taihu.Base.{
  ℕ, Bool, true, false, ◌&&◌, ◌||◌, Option, none, some, List, [], ◌∷◌, ◌++◌, if◌then◌else◌, Text,
  lit, leb, is_digit, join, starts_with, drop,
}
use taihu.Adapter.Platforms.{
  Platform, claude, opencode, cursor, iflow, codex, kilo, kiro, gemini, antigravity, devin, qoder,
  codebuddy, copilot, droid, pi, trae, omp, grok, kimi, get_agent_name,
}

unfoldable pub get_non_interactive_env : Platform → List (Text × Text)
get_non_interactive_env opencode = (lit "OPENCODE_NON_INTERACTIVE", lit "1") ∷ []
get_non_interactive_env iflow = (lit "IFLOW_NON_INTERACTIVE", lit "1") ∷ []
get_non_interactive_env codex = (lit "CODEX_NON_INTERACTIVE", lit "1") ∷ []
get_non_interactive_env kiro = (lit "KIRO_NON_INTERACTIVE", lit "1") ∷ []
get_non_interactive_env claude = (lit "CLAUDE_NON_INTERACTIVE", lit "1") ∷ []
get_non_interactive_env cursor = (lit "CLAUDE_NON_INTERACTIVE", lit "1") ∷ []
get_non_interactive_env kilo = (lit "CLAUDE_NON_INTERACTIVE", lit "1") ∷ []
get_non_interactive_env p = []

-- The arguments of `build_run_command`.
pub record Run : Type 0 where
  pub agent : Text
  pub prompt : Text
  pub session_id : Option Text
  pub skip_permissions : Bool
  pub verbose : Bool
  pub json_output : Bool

-- Arguments that are given if the flag is set.
abbrev pub given : Bool → List Text → List Text
given true words = words
given false words = []

abbrev pub given_session : Option Text → List Text
given_session none = []
given_session (some []) = []
given_session (some (c ∷ s)) = lit "--session-id" ∷ (c ∷ s) ∷ []

unfoldable pub opencode_run : Text → Run → List Text
opencode_run agent run =
    lit "opencode"
    ∷ lit "run"
    ∷ lit "--agent"
    ∷ agent
    ∷ (given run.json_output (lit "--format" ∷ lit "json" ∷ [])
        ++ (given run.verbose (lit "--log-level" ∷ lit "DEBUG" ∷ lit "--print-logs" ∷ [])
            ++ (run.prompt ∷ [])))

unfoldable pub claude_run : Text → Run → List Text
claude_run agent run =
    lit "claude"
    ∷ lit "-p"
    ∷ lit "--agent"
    ∷ agent
    ∷ (given_session run.session_id
        ++ (given run.skip_permissions (lit "--dangerously-skip-permissions" ∷ [])
            ++ (given run.json_output (lit "--output-format" ∷ lit "stream-json" ∷ [])
                ++ (given run.verbose (lit "--verbose" ∷ []) ++ (run.prompt ∷ [])))))

-- `build_run_command`, whose `none` is a ValueError.
unfoldable pub build_run_command : Platform → Run → Option (List Text)
build_run_command opencode run = some (opencode_run (get_agent_name opencode run.agent) run)
build_run_command iflow run = some (
    lit "iflow"
    ∷ lit "-y"
    ∷ lit "-p"
    ∷ (lit "$" ++ (get_agent_name iflow run.agent ++ (lit " " ++ run.prompt)))
    ∷ [])
build_run_command codex run = some (lit "codex" ∷ lit "exec" ∷ run.prompt ∷ [])
build_run_command kiro run = some (lit "kiro" ∷ lit "run" ∷ run.prompt ∷ [])
build_run_command gemini run = some (lit "gemini" ∷ run.prompt ∷ [])
build_run_command antigravity run = none
build_run_command devin run = none
build_run_command qoder run = some (lit "qodercli" ∷ lit "-p" ∷ run.prompt ∷ [])
build_run_command codebuddy run = none
build_run_command copilot run = none
build_run_command droid run = none
build_run_command pi run = some (lit "pi" ∷ lit "-p" ∷ run.prompt ∷ [])
build_run_command trae run = none
build_run_command omp run = none
build_run_command grok run = some (lit "grok" ∷ lit "-p" ∷ run.prompt ∷ lit "--yolo" ∷ [])
build_run_command kimi run = some (lit "kimi" ∷ lit "-p" ∷ run.prompt ∷ lit "--yolo" ∷ [])
build_run_command p run = some (claude_run (get_agent_name p run.agent) run)

unfoldable pub build_resume_command : Platform → Text → Option (List Text)
build_resume_command opencode id = some (lit "opencode" ∷ lit "run" ∷ lit "--session" ∷ id ∷ [])
build_resume_command iflow id = some (lit "iflow" ∷ lit "-c" ∷ [])
build_resume_command codex id = some (lit "codex" ∷ lit "resume" ∷ id ∷ [])
build_resume_command kiro id = some (lit "kiro" ∷ lit "resume" ∷ id ∷ [])
build_resume_command gemini id = some (lit "gemini" ∷ lit "--resume" ∷ id ∷ [])
build_resume_command antigravity id = none
build_resume_command devin id = none
build_resume_command qoder id = some (lit "qodercli" ∷ lit "--resume" ∷ id ∷ [])
build_resume_command codebuddy id = none
build_resume_command copilot id = none
build_resume_command droid id = none
build_resume_command pi id = some (lit "pi" ∷ lit "-c" ∷ id ∷ [])
build_resume_command trae id = none
build_resume_command omp id = none
build_resume_command grok id = some (lit "grok" ∷ lit "-c" ∷ [])
build_resume_command kimi id = some (lit "kimi" ∷ lit "--session" ∷ id ∷ [])
build_resume_command p id = some (lit "claude" ∷ lit "--resume" ∷ id ∷ [])

abbrev pub in_dir : Option Text → Text → Text
in_dir none cmd = cmd
in_dir (some []) cmd = cmd
in_dir (some (c ∷ cwd)) cmd = lit "cd " ++ ((c ∷ cwd) ++ (lit " && " ++ cmd))

unfoldable pub get_resume_command_str : Platform → Text → Option Text → Option Text
get_resume_command_str p id cwd = elim (build_resume_command p id) [
  | none ↦ none
  | some cmd ↦ some (in_dir cwd (join (lit " ") cmd))
]

unfoldable pub cli_name : Platform → Text
cli_name opencode = lit "opencode"
cli_name cursor = lit "cursor"
cli_name iflow = lit "iflow"
cli_name kiro = lit "kiro"
cli_name gemini = lit "gemini"
cli_name antigravity = lit "agy"
cli_name devin = lit "devin"
cli_name qoder = lit "qodercli"
cli_name codebuddy = lit "codebuddy"
cli_name copilot = lit "copilot"
cli_name droid = lit "droid"
cli_name pi = lit "pi"
cli_name trae = lit "trae"
cli_name omp = lit "omp"
cli_name grok = lit "grok"
cli_name kimi = lit "kimi"
cli_name p = lit "claude"

unfoldable pub supports_cli_agents : Platform → Bool
supports_cli_agents claude = true
supports_cli_agents opencode = true
supports_cli_agents iflow = true
supports_cli_agents codex = true
supports_cli_agents pi = true
supports_cli_agents grok = true
supports_cli_agents kimi = true
supports_cli_agents p = false

unfoldable pub requires_agent_definition_file : Platform → Bool
requires_agent_definition_file claude = true
requires_agent_definition_file opencode = true
requires_agent_definition_file iflow = true
requires_agent_definition_file p = false

unfoldable pub supports_session_id_on_create : Platform → Bool
supports_session_id_on_create claude = true
supports_session_id_on_create p = false

abbrev is_alnum : ℕ → Bool
is_alnum c = (leb b'A' c && leb c b'Z') || ((leb b'a' c && leb c b'z') || is_digit c)

unfoldable pub take_alnum : Text → Text
take_alnum [] = []
take_alnum (c ∷ s) = let rest = take_alnum s in if is_alnum c then c ∷ rest else []

abbrev pub session_at : Text → Text → Option Text → Option Text
session_at s [] rest = rest
session_at s (c ∷ id) rest = some (lit "ses_" ++ (c ∷ id))

-- `re.search(r"ses_[a-zA-Z0-9]+", log_content)`
unfoldable pub extract_session_id_from_log : Text → Option Text
extract_session_id_from_log [] = none
extract_session_id_from_log (c ∷ s) =
    let rest = extract_session_id_from_log s in
    if starts_with (c ∷ s) (lit "ses_")
    then session_at s (take_alnum (drop 4 (c ∷ s))) rest
    else rest
