-- ===== src/Adapter/Platforms.antt =====
-- .trellis/scripts/common/cli_adapter.py: the platforms and their names.
use taihu.Base.{Option, none, some, List, [], ◌∷◌, if◌then◌else◌, Text, lit, ◌==◌}
use taihu.Files.Tree.{FilePath}

pub data Platform : Type 0 where
  claude opencode cursor iflow codex kilo kiro gemini antigravity devin : Platform
  qoder codebuddy copilot droid pi trae omp grok kimi : Platform

unfoldable pub platform_name : Platform → Text
platform_name claude = lit "claude"
platform_name opencode = lit "opencode"
platform_name cursor = lit "cursor"
platform_name iflow = lit "iflow"
platform_name codex = lit "codex"
platform_name kilo = lit "kilo"
platform_name kiro = lit "kiro"
platform_name gemini = lit "gemini"
platform_name antigravity = lit "antigravity"
platform_name devin = lit "devin"
platform_name qoder = lit "qoder"
platform_name codebuddy = lit "codebuddy"
platform_name copilot = lit "copilot"
platform_name droid = lit "droid"
platform_name pi = lit "pi"
platform_name trae = lit "trae"
platform_name omp = lit "omp"
platform_name grok = lit "grok"
platform_name kimi = lit "kimi"

abbrev pub platforms : List Platform
platforms =
    claude ∷ opencode ∷ cursor ∷ iflow ∷ codex ∷ kilo ∷ kiro ∷ gemini ∷ antigravity ∷ devin ∷ qoder
    ∷ codebuddy ∷ copilot ∷ droid ∷ pi ∷ trae ∷ omp ∷ grok ∷ kimi ∷ []

-- `platform in (...)`
unfoldable pub platform_in : Text → List Platform → Option Platform
platform_in s [] = none
platform_in s (p ∷ ps) =
    let rest = platform_in s ps in if platform_name p == s then some p else rest

-- The old name of `devin`.
abbrev pub current_name : Text → Text
current_name s = if s == lit "windsurf" then lit "devin" else s

-- `get_cli_adapter`, whose `none` is a ValueError.
unfoldable pub get_cli_adapter : Text → Option Platform
get_cli_adapter s = platform_in (current_name s) platforms

-- `_AGENT_NAME_MAP`
unfoldable pub get_agent_name : Platform → Text → Text
get_agent_name opencode agent = if agent == lit "plan" then lit "trellis-plan" else agent
get_agent_name p agent = agent

unfoldable pub config_dir_name : Platform → FilePath
config_dir_name opencode = lit ".opencode" ∷ []
config_dir_name cursor = lit ".cursor" ∷ []
config_dir_name iflow = lit ".iflow" ∷ []
config_dir_name codex = lit ".codex" ∷ []
config_dir_name kilo = lit ".kilocode" ∷ []
config_dir_name kiro = lit ".kiro" ∷ []
config_dir_name gemini = lit ".gemini" ∷ []
config_dir_name antigravity = lit ".agent" ∷ []
config_dir_name devin = lit ".devin" ∷ []
config_dir_name qoder = lit ".qoder" ∷ []
config_dir_name codebuddy = lit ".codebuddy" ∷ []
config_dir_name copilot = lit ".github" ∷ lit "copilot" ∷ []
config_dir_name droid = lit ".factory" ∷ []
config_dir_name pi = lit ".pi" ∷ []
config_dir_name trae = lit ".trae" ∷ []
config_dir_name omp = lit ".omp" ∷ []
config_dir_name grok = lit ".grok" ∷ []
config_dir_name kimi = lit ".kimi-code" ∷ []
config_dir_name claude = lit ".claude" ∷ []
