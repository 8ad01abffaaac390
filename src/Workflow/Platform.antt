-- ===== src/Workflow/Platform.antt =====
-- .trellis/scripts/common/workflow_phase.py: `resolve_effective_platform`.
use taihu.Base.{
  ◌≡◌, refl, Option, none, some, [], ◌∷◌, if◌then◌else◌, Text, lit, ◌==◌, is_space, strip, lower,
  arith, elem, ==_iff, ap,
}
use taihu.Yaml.Block.{Yaml, str, seq, dict, Entries}
use taihu.Config.Values.{
  get, word_of, DispatchMode, auto, inline, get_codex_dispatch_mode, mode_of_codex, mode_of_setting,
  mode_of_word,
}

-- `_PLATFORM_MARKER_LABELS`
unfoldable pub marker_label : Text → Option Text
unfolding ◌==◌
marker_label key =
    if key == lit "claude"
    then some (lit "Claude Code")
    else if key == lit "kimi"
    then some (lit "Kimi Code")
    else if key == lit "omp"
    then some (lit "Oh My Pi")
    else if key == lit "dsh"
    then some (lit "DeepSeek Harness")
    else none

unfoldable pub codex_word : Option Text → DispatchMode
codex_word none = inline
codex_word (some mode) =
    if mode == lit "inline"
    then inline
    else if elem mode (lit "auto" ∷ lit "sub-agent" ∷ [])
    then auto
    else inline

-- `codex_cfg.get("dispatch_mode", mode)`, where `mode` is "auto".
unfoldable pub codex_setting : Option Yaml → DispatchMode
unfolding codex_word
codex_setting none = auto
codex_setting (some raw) = codex_word (word_of raw)

unfoldable pub codex_mode : Option Yaml → DispatchMode
unfolding codex_setting
codex_mode none = auto
codex_mode (some (dict codex)) = codex_setting (get (lit "dispatch_mode") codex)
codex_mode (some _) = inline

abbrev pub codex_name : DispatchMode → Text
codex_name auto = lit "codex-sub-agent"
codex_name inline = lit "codex-inline"

unfoldable pub resolve_effective_platform : Text → Entries → Text
resolve_effective_platform platform config = elim (marker_label (lower (strip is_space platform))) [
  | some label ↦ label
  | none ↦
      if platform == lit "codex"
      then codex_name (codex_mode (get (lit "codex") config))
      else platform
]

codex_word-eq : (o : Option Text) → codex_word o ≡ (mode_of_word o).0
unfolding codex_word mode_of_word elem
codex_word-eq none = refl
codex_word-eq (some w) = ground (arith, ==_iff w (lit "auto"), ==_iff w (lit "inline"))

codex_setting-eq : (o : Option Yaml) → codex_setting o ≡ (mode_of_setting o).0
unfolding codex_setting mode_of_setting
codex_setting-eq none = refl
codex_setting-eq (some raw) = codex_word-eq (word_of raw)

codex_mode-eq : (o : Option Yaml) → codex_mode o ≡ (mode_of_codex o).0
unfolding codex_mode mode_of_codex
codex_mode-eq none = refl
codex_mode-eq (some (dict codex)) = codex_setting-eq (get (lit "dispatch_mode") codex)
codex_mode-eq (some (str s)) = refl
codex_mode-eq (some (seq s)) = refl

-- For the platform `codex` the name that selects the blocks of workflow.md follows the dispatch mode
-- that config.py reads from the same config, whatever the setting, valid or not.
pub resolve_effective_platform-codex :
    (config : Entries)
    → resolve_effective_platform (lit "codex") config
      ≡ codex_name (get_codex_dispatch_mode config).0
unfolding resolve_effective_platform get_codex_dispatch_mode marker_label lower strip is_space
resolve_effective_platform-codex config = ap codex_name (codex_mode-eq (get (lit "codex") config))
