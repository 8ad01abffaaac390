-- ===== src/Adapter/Paths.antt =====
-- .trellis/scripts/common/cli_adapter.py: the files of agents and commands.
use taihu.Base.{List, [], ◌∷◌, ◌++◌, if◌then◌else◌, Text, lit, ◌==◌, ends_with, reverse, drop, join}
use taihu.Files.Tree.{FilePath}
use taihu.Tasks.Refs.{join_at}
use taihu.Adapter.Platforms.{
  Platform, cursor, codex, kilo, kiro, gemini, antigravity, devin, copilot, droid, pi, omp, grok,
  kimi, config_dir_name, get_agent_name,
}

unfoldable pub get_config_dir : Platform → FilePath → FilePath
get_config_dir p root = root ++ config_dir_name p

unfoldable pub get_agent_path : Platform → Text → FilePath → FilePath
get_agent_path codex agent root =
    join_at (get_config_dir codex root ++ (lit "agents" ∷ []))
      (get_agent_name codex agent ++ lit ".toml")
get_agent_path p agent root =
    join_at (get_config_dir p root ++ (lit "agents" ∷ [])) (get_agent_name p agent ++ lit ".md")

-- `base / Path(*parts)`
unfoldable pub join_all : FilePath → List Text → FilePath
join_all base [] = base
join_all base (s ∷ ss) = join_all (join_at base s) ss

-- `filename[:-3]` where it ends in `.md`.
unfoldable pub without_md : Text → Text
without_md name = if ends_with name (lit ".md") then reverse (drop 3 (reverse name)) else name

unfoldable pub last : Text → List Text → Text
last s [] = s
last s (t ∷ ts) = last t ts

-- What a platform makes of the parts: its own form for `trellis` and a file, and a plain path else.
unfoldable pub placed_parts : FilePath → (Text → FilePath) → List Text → FilePath
placed_parts base place [] = base
placed_parts base place (s ∷ []) = join_all base (s ∷ [])
placed_parts base place (s ∷ t ∷ ts) =
    if s == lit "trellis" then place (last t ts) else join_all base (s ∷ t ∷ ts)

-- The flat form of pi, omp and grok, and the one of devin and cursor, which keep the suffix.
abbrev pub flat : FilePath → Text → FilePath
flat base name = join_at base (lit "trellis-" ++ (without_md name ++ lit ".md"))

abbrev pub prefixed_name : FilePath → Text → FilePath
prefixed_name base name = join_at base (lit "trellis-" ++ name)

abbrev pub below : Platform → FilePath → Text → FilePath
below p root name = get_config_dir p root ++ (name ∷ [])

unfoldable pub get_commands_path : Platform → FilePath → List Text → FilePath
get_commands_path pi root parts =
    let prompts_dir = below pi root (lit "prompts") in
    placed_parts prompts_dir (flat prompts_dir) parts
get_commands_path omp root parts =
    let commands_dir = below omp root (lit "commands") in
    placed_parts commands_dir (flat commands_dir) parts
get_commands_path grok root parts =
    let commands_dir = below grok root (lit "commands") in
    placed_parts commands_dir (flat commands_dir) parts
get_commands_path kimi root parts =
    let skills_dir = below kimi root (lit "skills") in
    placed_parts skills_dir
      (λ name. join_at skills_dir (lit "trellis-" ++ without_md name) ++ (lit "SKILL.md" ∷ []))
      parts
get_commands_path devin root parts =
    let workflow_dir = below devin root (lit "workflows") in
    placed_parts workflow_dir (prefixed_name workflow_dir) parts
get_commands_path antigravity root parts =
    let workflow_dir = below antigravity root (lit "workflows") in
    placed_parts workflow_dir (join_at workflow_dir) parts
get_commands_path kilo root parts =
    let workflow_dir = below kilo root (lit "workflows") in
    placed_parts workflow_dir (join_at workflow_dir) parts
get_commands_path copilot root parts =
    let prompts_dir = root ++ (lit ".github" ∷ lit "prompts" ∷ []) in
    placed_parts prompts_dir (λ name. join_at prompts_dir (without_md name ++ lit ".prompt.md"))
      parts
get_commands_path cursor root parts =
    let commands_dir = below cursor root (lit "commands") in
    placed_parts commands_dir (prefixed_name commands_dir) parts
get_commands_path p root parts = join_all (below p root (lit "commands")) parts

unfoldable pub get_trellis_command_path : Platform → Text → Text
get_trellis_command_path cursor name = lit ".cursor/commands/trellis-" ++ (name ++ lit ".md")
get_trellis_command_path codex name = lit ".agents/skills/trellis-" ++ (name ++ lit "/SKILL.md")
get_trellis_command_path kiro name = lit ".kiro/skills/trellis-" ++ (name ++ lit "/SKILL.md")
get_trellis_command_path gemini name = lit ".gemini/commands/trellis/" ++ (name ++ lit ".toml")
get_trellis_command_path antigravity name = lit ".agent/workflows/" ++ (name ++ lit ".md")
get_trellis_command_path devin name = lit ".devin/workflows/trellis-" ++ (name ++ lit ".md")
get_trellis_command_path kilo name = lit ".kilocode/workflows/" ++ (name ++ lit ".md")
get_trellis_command_path copilot name = lit ".github/prompts/" ++ (name ++ lit ".prompt.md")
get_trellis_command_path droid name = lit ".factory/commands/trellis/" ++ (name ++ lit ".md")
get_trellis_command_path pi name = lit ".pi/prompts/trellis-" ++ (name ++ lit ".md")
get_trellis_command_path omp name =
    join (lit "/") (config_dir_name omp) ++ (lit "/commands/trellis-" ++ (name ++ lit ".md"))
get_trellis_command_path grok name =
    join (lit "/") (config_dir_name grok) ++ (lit "/commands/trellis-" ++ (name ++ lit ".md"))
get_trellis_command_path kimi name = lit ".kimi-code/skills/trellis-" ++ (name ++ lit "/SKILL.md")
get_trellis_command_path p name =
    join (lit "/") (config_dir_name p) ++ (lit "/commands/trellis/" ++ (name ++ lit ".md"))
