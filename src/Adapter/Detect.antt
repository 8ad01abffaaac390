-- ===== src/Adapter/Detect.antt =====
-- .trellis/scripts/common/cli_adapter.py: `detect_platform`.
use taihu.Base.{
  Bool, true, false, not, ◌&&◌, ◌||◌, Option, none, some, List, [], ◌∷◌, ◌++◌, Text, lit, lower,
  starts_with,
}
use taihu.Files.Tree.{FilePath, same_path}
use taihu.Tasks.Refs.{Disk}
use taihu.Adapter.Platforms.{
  Platform, claude, opencode, cursor, iflow, codex, kilo, kiro, gemini, antigravity, devin, qoder,
  codebuddy, copilot, droid, pi, trae, omp, grok, kimi, platform_in, current_name, platforms,
}

-- `_ALL_PLATFORM_CONFIG_DIRS`
abbrev pub all_platform_config_dirs : List FilePath
all_platform_config_dirs =
    (lit ".claude" ∷ [])
    ∷ (lit ".cursor" ∷ [])
    ∷ (lit ".iflow" ∷ [])
    ∷ (lit ".opencode" ∷ [])
    ∷ (lit ".codex" ∷ [])
    ∷ (lit ".kilocode" ∷ [])
    ∷ (lit ".kiro" ∷ [])
    ∷ (lit ".gemini" ∷ [])
    ∷ (lit ".agent" ∷ [])
    ∷ (lit ".devin" ∷ [])
    ∷ (lit ".windsurf" ∷ [])
    ∷ (lit ".qoder" ∷ [])
    ∷ (lit ".codebuddy" ∷ [])
    ∷ (lit ".github" ∷ lit "copilot" ∷ [])
    ∷ (lit ".factory" ∷ [])
    ∷ (lit ".pi" ∷ [])
    ∷ (lit ".trae" ∷ [])
    ∷ (lit ".omp" ∷ [])
    ∷ (lit ".grok" ∷ [])
    ∷ (lit ".kimi-code" ∷ [])
    ∷ []

unfoldable pub excluded : FilePath → List FilePath → Bool
excluded d [] = false
excluded d (e ∷ es) = same_path d e || excluded d es

module _ (disk : Disk) (root : FilePath) where
  abbrev pub has_dir : FilePath → Bool
  has_dir p = disk.is_dir (root ++ p)

  unfoldable pub other_dir : List FilePath → List FilePath → Bool
  other_dir exclude [] = false
  other_dir exclude (d ∷ ds) = (not (excluded d exclude) && has_dir d) || other_dir exclude ds

  -- `_has_other_platform_dir`
  abbrev pub has_other_platform_dir : List FilePath → Bool
  has_other_platform_dir exclude = other_dir exclude all_platform_config_dirs

  unfoldable pub any_skill : List Text → Bool
  any_skill [] = false
  any_skill (name ∷ names) =
      (has_dir (lit ".agents" ∷ lit "skills" ∷ name ∷ []) && starts_with name (lit "trellis-"))
      || any_skill names

  -- The rules in their order, each with the platform that it gives.
  abbrev pub rules : List (Bool × Platform)
  rules =
      (has_dir (lit ".opencode" ∷ []), opencode)
      ∷ (has_dir (lit ".iflow" ∷ []), iflow)
      ∷ (has_dir (lit ".cursor" ∷ []) && not (has_dir (lit ".claude" ∷ [])), cursor)
      ∷ (has_dir (lit ".gemini" ∷ []), gemini)
      ∷ (
        has_dir (lit ".codex" ∷ [])
            && not (has_other_platform_dir ((lit ".codex" ∷ []) ∷ (lit ".agents" ∷ []) ∷ [])),
        codex,
      )
      ∷ (has_dir (lit ".kilocode" ∷ []), kilo)
      ∷ (
        has_dir (lit ".kiro" ∷ lit "skills" ∷ [])
            && not (has_other_platform_dir ((lit ".kiro" ∷ []) ∷ [])),
        kiro,
      )
      ∷ (
        has_dir (lit ".agent" ∷ lit "workflows" ∷ [])
            && not (has_other_platform_dir ((lit ".agent" ∷ []) ∷ (lit ".gemini" ∷ []) ∷ [])),
        antigravity,
      )
      ∷ (
        (has_dir (lit ".devin" ∷ lit "workflows" ∷ [])
              || has_dir (lit ".windsurf" ∷ lit "workflows" ∷ []))
            && not (has_other_platform_dir ((lit ".devin" ∷ []) ∷ (lit ".windsurf" ∷ []) ∷ [])),
        devin,
      )
      ∷ (has_dir (lit ".codebuddy" ∷ []), codebuddy)
      ∷ (has_dir (lit ".qoder" ∷ []), qoder)
      ∷ (has_dir (lit ".github" ∷ lit "copilot" ∷ []), copilot)
      ∷ (has_dir (lit ".factory" ∷ []), droid)
      ∷ (has_dir (lit ".pi" ∷ []), pi)
      ∷ (has_dir (lit ".trae" ∷ []), trae)
      ∷ (has_dir (lit ".omp" ∷ []), omp)
      ∷ (has_dir (lit ".grok" ∷ []), grok)
      ∷ (has_dir (lit ".kimi-code" ∷ []), kimi)
      ∷ (
        has_dir (lit ".agents" ∷ lit "skills" ∷ [])
            && (not (has_other_platform_dir [])
                && any_skill (disk.names (root ++ (lit ".agents" ∷ lit "skills" ∷ [])))),
        codex,
      )
      ∷ []

  unfoldable pub first_rule : List (Bool × Platform) → Platform
  first_rule [] = claude
  first_rule ((true, p) ∷ rest) = p
  first_rule ((false, p) ∷ rest) = first_rule rest

  abbrev pub or_rules : Option Platform → Platform
  or_rules (some p) = p
  or_rules none = first_rule rules

  abbrev variable : Option Text → Text
  variable none = []
  variable (some s) = s

  -- `detect_platform`; the argument is the value of TRELLIS_PLATFORM.
  unfoldable pub detect_platform : Option Text → Platform
  detect_platform value = or_rules (platform_in (current_name (lower (variable value))) platforms)
