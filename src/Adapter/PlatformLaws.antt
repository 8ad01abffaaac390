-- ===== src/Adapter/PlatformLaws.antt =====
-- .trellis/scripts/common/cli_adapter.py: the names of the platforms and their programs.
use taihu.Base.{
  ◌≡◌, refl, inl, inr, ◌⊎◌, true, false, Option, none, some, List, [], ◌∷◌, Text, lit, ◌==◌, lower,
}
use taihu.Tasks.Refs.{Disk}
use taihu.Files.Tree.{FilePath}
use taihu.Adapter.Platforms.{
  Platform, claude, opencode, cursor, iflow, codex, kilo, kiro, gemini, antigravity, devin, qoder,
  codebuddy, copilot, droid, pi, trae, omp, grok, kimi, platform_name, platform_in, get_cli_adapter,
}
use taihu.Adapter.Commands.{
  Run, build_run_command, build_resume_command, opencode_run, claude_run, cli_name,
  supports_cli_agents,
}
use taihu.Adapter.Detect.{detect_platform}

-- The adapter of a platform's name is that of the platform.
get_cli_adapter-platform_name : (p : Platform) → get_cli_adapter (platform_name p) ≡ some p
unfolding get_cli_adapter platform_in platform_name ◌==◌
get_cli_adapter-platform_name claude = refl
get_cli_adapter-platform_name opencode = refl
get_cli_adapter-platform_name cursor = refl
get_cli_adapter-platform_name iflow = refl
get_cli_adapter-platform_name codex = refl
get_cli_adapter-platform_name kilo = refl
get_cli_adapter-platform_name kiro = refl
get_cli_adapter-platform_name gemini = refl
get_cli_adapter-platform_name antigravity = refl
get_cli_adapter-platform_name devin = refl
get_cli_adapter-platform_name qoder = refl
get_cli_adapter-platform_name codebuddy = refl
get_cli_adapter-platform_name copilot = refl
get_cli_adapter-platform_name droid = refl
get_cli_adapter-platform_name pi = refl
get_cli_adapter-platform_name trae = refl
get_cli_adapter-platform_name omp = refl
get_cli_adapter-platform_name grok = refl
get_cli_adapter-platform_name kimi = refl

-- The environment decides before the directories do.
detect_platform-platform_name :
    (disk : Disk) (root : FilePath) (p : Platform)
    → detect_platform disk root (some (platform_name p)) ≡ p
unfolding detect_platform platform_in platform_name ◌==◌ lower
detect_platform-platform_name disk root claude = refl
detect_platform-platform_name disk root opencode = refl
detect_platform-platform_name disk root cursor = refl
detect_platform-platform_name disk root iflow = refl
detect_platform-platform_name disk root codex = refl
detect_platform-platform_name disk root kilo = refl
detect_platform-platform_name disk root kiro = refl
detect_platform-platform_name disk root gemini = refl
detect_platform-platform_name disk root antigravity = refl
detect_platform-platform_name disk root devin = refl
detect_platform-platform_name disk root qoder = refl
detect_platform-platform_name disk root codebuddy = refl
detect_platform-platform_name disk root copilot = refl
detect_platform-platform_name disk root droid = refl
detect_platform-platform_name disk root pi = refl
detect_platform-platform_name disk root trae = refl
detect_platform-platform_name disk root omp = refl
detect_platform-platform_name disk root grok = refl
detect_platform-platform_name disk root kimi = refl

-- The program of a command line.
abbrev program : Option (List Text) → Option Text
program none = none
program (some []) = none
program (some (word ∷ words)) = some word

-- An agent is run and a session resumed on the same platforms and by the same program.
build_resume_command-build_run_command :
    (p : Platform) (run : Run) (id : Text)
    → program (build_resume_command p id) ≡ program (build_run_command p run)
unfolding build_run_command build_resume_command opencode_run claude_run
build_resume_command-build_run_command claude run id = refl
build_resume_command-build_run_command opencode run id = refl
build_resume_command-build_run_command cursor run id = refl
build_resume_command-build_run_command iflow run id = refl
build_resume_command-build_run_command codex run id = refl
build_resume_command-build_run_command kilo run id = refl
build_resume_command-build_run_command kiro run id = refl
build_resume_command-build_run_command gemini run id = refl
build_resume_command-build_run_command antigravity run id = refl
build_resume_command-build_run_command devin run id = refl
build_resume_command-build_run_command qoder run id = refl
build_resume_command-build_run_command codebuddy run id = refl
build_resume_command-build_run_command copilot run id = refl
build_resume_command-build_run_command droid run id = refl
build_resume_command-build_run_command pi run id = refl
build_resume_command-build_run_command trae run id = refl
build_resume_command-build_run_command omp run id = refl
build_resume_command-build_run_command grok run id = refl
build_resume_command-build_run_command kimi run id = refl

-- Where agents are supported on the command line, they are run by the program that is named for the
-- platform, but for codex, for which the name is that of claude.
build_run_command-cli_name :
    (p : Platform) (run : Run)
    → supports_cli_agents p ≡ true
    → (program (build_run_command p run) ≡ some (cli_name p))
      ⊎ ((p ≡ codex)
          × (program (build_run_command p run) ≡ some (lit "codex"))
          × (cli_name p ≡ lit "claude"))
unfolding build_run_command opencode_run claude_run cli_name supports_cli_agents
build_run_command-cli_name claude run h = inl refl
build_run_command-cli_name opencode run h = inl refl
build_run_command-cli_name cursor run h = let c : false ≡ true = h in cc
build_run_command-cli_name iflow run h = inl refl
build_run_command-cli_name codex run h = inr (refl, refl, refl)
build_run_command-cli_name kilo run h = let c : false ≡ true = h in cc
build_run_command-cli_name kiro run h = let c : false ≡ true = h in cc
build_run_command-cli_name gemini run h = let c : false ≡ true = h in cc
build_run_command-cli_name antigravity run h = let c : false ≡ true = h in cc
build_run_command-cli_name devin run h = let c : false ≡ true = h in cc
build_run_command-cli_name qoder run h = let c : false ≡ true = h in cc
build_run_command-cli_name codebuddy run h = let c : false ≡ true = h in cc
build_run_command-cli_name copilot run h = let c : false ≡ true = h in cc
build_run_command-cli_name droid run h = let c : false ≡ true = h in cc
build_run_command-cli_name pi run h = inl refl
build_run_command-cli_name trae run h = let c : false ≡ true = h in cc
build_run_command-cli_name omp run h = let c : false ≡ true = h in cc
build_run_command-cli_name grok run h = inl refl
build_run_command-cli_name kimi run h = inl refl
