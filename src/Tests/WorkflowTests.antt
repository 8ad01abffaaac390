-- ===== src/Tests/WorkflowTests.antt =====
-- .trellis/scripts/common/workflow_phase.py at concrete lines.
use taihu.Base.{
  ℕ, ◌≡◌, refl, Bool, true, false, some, [], ◌∷◌, ◌++◌, lit, ◌==◌, is_space, starts_with,
  if◌then◌else◌,
}
use taihu.Yaml.Block.{str, dict, Entries, end, entry}
use taihu.Workflow.Markers.{
  parse_marker, marker_open, marker_body, names_of, strip_all, split, filter_lines, outside,
  platform_matches,
}
use taihu.Workflow.Steps.{
  is_heading_of, ends_body, step_heading, after_hashes, step_number, dotted, minor_id, at_boundary,
  is_word, span_digits,
}
use taihu.Workflow.Laws.{IsPlain, filter_lines-block}

IsPlain-a : IsPlain (lit "a")
unfolding parse_marker marker_open
IsPlain-a = refl

IsPlain-b : IsPlain (lit "b")
unfolding parse_marker marker_open
IsPlain-b = refl

opening :
    parse_marker (lit "[Kiro, codex]")
    ≡ some (record { is_closing = false; names = lit "Kiro" ∷ lit "codex" ∷ [] })
unfolding parse_marker marker_open marker_body names_of strip_all split
opening = refl

closing :
    parse_marker (lit "[/Kiro, codex]")
    ≡ some (record { is_closing = true; names = lit "Kiro" ∷ lit "codex" ∷ [] })
unfolding parse_marker marker_open marker_body names_of strip_all split
closing = refl

filter_lines-block_example :
    filter_lines
      (lit "kiro")
      outside
      (lit "a" ∷ lit "[Kiro, codex]" ∷ lit "b" ∷ lit "[/Kiro, codex]" ∷ [])
    ≡ (lit "a" ∷ [])
      ++ ((if platform_matches (lit "kiro") (lit "Kiro" ∷ lit "codex" ∷ [])
            then lit "b" ∷ []
            else [])
          ++ filter_lines (lit "kiro") outside [])
filter_lines-block_example =
    filter_lines-block (lit "kiro") (lit "a" ∷ []) (lit "b" ∷ []) [] (lit "[Kiro, codex]")
      (lit "[/Kiro, codex]") (lit "Kiro" ∷ lit "codex" ∷ []) (lit "Kiro" ∷ lit "codex" ∷ [])
      (IsPlain-a, tt) (IsPlain-b, tt) opening closing

abbrev no_word_char : ℕ → Bool
no_word_char c = false

no_heading : is_heading_of no_word_char (lit "1.2") (lit "#### 1.1 First") ≡ false
unfolding is_heading_of step_heading after_hashes step_number dotted minor_id at_boundary is_word
    span_digits ◌==◌ starts_with is_space
no_heading = refl

heading : is_heading_of no_word_char (lit "1.2") (lit "#### 1.2 Second") ≡ true
unfolding is_heading_of step_heading after_hashes step_number dotted minor_id at_boundary is_word
    span_digits ◌==◌ starts_with is_space
heading = refl

in_body : ends_body (lit "text") ≡ false
unfolding ends_body starts_with
in_body = refl

behind_body : ends_body (lit "---") ≡ true
unfolding ends_body starts_with
behind_body = refl

abbrev inline_config : Entries
inline_config =
    entry (lit "codex") (dict (entry (lit "dispatch_mode") (str (lit "inline")) end)) end
