-- ===== src/Adapter/PathLaws.antt =====
-- .trellis/scripts/common/cli_adapter.py: the two ways to the file of a command.
use taihu.Base.{
  ◌≡◌, refl, ap, sym, ◌∙◌, Bool, true, false, ◌||◌, [], ◌∷◌, ◌++◌, Text, lit, ◌==◌, is_empty, has,
  ends_with, join,
}
use mathlib.Core.List
use mathlib.Core.List.{append_assoc}
use taihu.Files.Tree.{FilePath}
use taihu.Tasks.Refs.{join_at}
use taihu.Adapter.Platforms.{
  Platform, claude, opencode, cursor, iflow, codex, kilo, kiro, gemini, antigravity, devin, qoder,
  codebuddy, copilot, droid, pi, trae, omp, grok, kimi, config_dir_name,
}
use taihu.Adapter.Paths.{
  without_md, last, placed_parts, get_config_dir, get_commands_path, get_trellis_command_path,
  join_all,
}
use taihu.Tasks.Segments.{
  IsSegment, join_at-segment, join_at-two, join_at-three, in_dirs, suffixed-IsSegment, md-IsSegment,
  prefixed-IsSegment,
}

without_md-append : (name : Text) → without_md (name ++ lit ".md") ≡ name
unfolding without_md ends_with
without_md-append name = rw (List.reverse-append name (lit ".md")) (List.reverse-reverse name)

module _ (root : FilePath) (name : Text) (plain : has b'/' name ≡ false) where
  -- The file of a command, as its path and by its reference.
  abbrev Same : Platform → Type 0
  Same p =
      get_commands_path p root (lit "trellis" ∷ (name ++ lit ".md") ∷ [])
      ≡ join_at root (get_trellis_command_path p name)

  abbrev file_name : Text
  file_name = lit "trellis-" ++ (name ++ lit ".md")

  file_name-IsSegment : IsSegment file_name
  file_name-IsSegment = prefixed-IsSegment (name ++ lit ".md") (md-IsSegment name plain).no_slash

  -- The flat form, in a directory of the platform's own one.
  flat_path :
      (a x t : Text)
      → IsSegment a
      → IsSegment x
      → IsSegment t
      → join_at ((root ++ (a ∷ [])) ++ (x ∷ [])) t ≡ join_at root (a ++ (b'/' ∷ (x ++ (b'/' ∷ t))))
  flat_path a x t ha hx ht =
      join_at-segment ((root ++ (a ∷ [])) ++ (x ∷ [])) t ht
      ∙ (in_dirs root a x (t ∷ []) ∙ sym (join_at-two root a x t ha hx ht))

  trellis-IsSegment : IsSegment (lit "trellis")
  unfolding has ◌==◌
  trellis-IsSegment = record { no_slash = refl; kept = refl }

  nested_path :
      (a x : Text)
      → IsSegment a
      → IsSegment x
      → join_at (join_at ((root ++ (a ∷ [])) ++ (x ∷ [])) (lit "trellis")) (name ++ lit ".md")
        ≡ join_at root
            (a ++ (b'/' ∷ (x ++ (b'/' ∷ (lit "trellis" ++ (b'/' ∷ (name ++ lit ".md")))))))
  nested_path a x ha hx =
      let base = (root ++ (a ∷ [])) ++ (x ∷ []) in
      let hm = md-IsSegment name plain in
      rw (join_at-segment base (lit "trellis") trellis-IsSegment) (
        join_at-segment (base ++ (lit "trellis" ∷ [])) (name ++ lit ".md") hm
        ∙ (append_assoc base (lit "trellis" ∷ []) ((name ++ lit ".md") ∷ [])
            ∙ (in_dirs root a x (lit "trellis" ∷ (name ++ lit ".md") ∷ [])
                ∙ sym (
                    join_at-three root a x (lit "trellis") (name ++ lit ".md") ha hx
                      trellis-IsSegment hm))))

  literal : (s : Text) → has b'/' s ≡ false → (is_empty s || s == lit ".") ≡ false → IsSegment s
  literal s h k = record { no_slash = h; kept = k }

  copilot-Same : Same copilot
  unfolding get_commands_path get_trellis_command_path placed_parts get_config_dir config_dir_name
      last has ◌==◌
  copilot-Same =
      let t = name ++ lit ".prompt.md" in
      let ht = suffixed-IsSegment name (lit "rompt.md") b'.' b'p' plain refl in
      let dirs : FilePath = lit ".github" ∷ lit "prompts" ∷ [] in
      rw (without_md-append name) (
        join_at-segment (root ++ dirs) t ht
        ∙ (append_assoc root dirs (t ∷ [])
            ∙ sym (
                join_at-two root (lit ".github") (lit "prompts") t
                  (literal (lit ".github") refl refl) (literal (lit "prompts") refl refl) ht)))

  kimi-Same : Same kimi
  unfolding get_commands_path get_trellis_command_path placed_parts get_config_dir config_dir_name
      last has ◌==◌
  kimi-Same =
      let t = lit "trellis-" ++ name in
      let ht = prefixed-IsSegment name plain in
      let base = (root ++ (lit ".kimi-code" ∷ [])) ++ (lit "skills" ∷ []) in
      let skill : FilePath = lit "SKILL.md" ∷ [] in
      rw (without_md-append name) (
        ap (λ (q : FilePath). q ++ skill) (join_at-segment base t ht)
        ∙ (append_assoc base (t ∷ []) skill
            ∙ (in_dirs root (lit ".kimi-code") (lit "skills") (t ∷ skill)
                ∙ sym (
                    join_at-three root (lit ".kimi-code") (lit "skills") t (lit "SKILL.md")
                      (literal (lit ".kimi-code") refl refl) (literal (lit "skills") refl refl) ht
                      (literal (lit "SKILL.md") refl refl)))))

  -- The platforms whose references lead to a skill or to a file of another kind.
  abbrev pub refers_elsewhere : Platform → Bool
  refers_elsewhere codex = true
  refers_elsewhere kiro = true
  refers_elsewhere gemini = true
  refers_elsewhere p = false

  -- For a name without a slash the reference to a command names the file at which it lies, on every
  -- platform but codex, kiro and gemini.
  pub get_commands_path-get_trellis_command_path :
      (p : Platform) → refers_elsewhere p ≡ false → Same p
  unfolding get_commands_path get_trellis_command_path placed_parts get_config_dir config_dir_name
      join_all join last has ◌==◌
  get_commands_path-get_trellis_command_path claude h =
      nested_path (lit ".claude") (lit "commands") (literal (lit ".claude") refl refl)
        (literal (lit "commands") refl refl)
  get_commands_path-get_trellis_command_path opencode h =
      nested_path (lit ".opencode") (lit "commands") (literal (lit ".opencode") refl refl)
        (literal (lit "commands") refl refl)
  get_commands_path-get_trellis_command_path cursor h =
      flat_path (lit ".cursor") (lit "commands") file_name (literal (lit ".cursor") refl refl)
        (literal (lit "commands") refl refl) file_name-IsSegment
  get_commands_path-get_trellis_command_path iflow h =
      nested_path (lit ".iflow") (lit "commands") (literal (lit ".iflow") refl refl)
        (literal (lit "commands") refl refl)
  get_commands_path-get_trellis_command_path codex h = let c : true ≡ false = h in cc
  get_commands_path-get_trellis_command_path kilo h =
      flat_path (lit ".kilocode") (lit "workflows") (name ++ lit ".md")
        (literal (lit ".kilocode") refl refl) (literal (lit "workflows") refl refl)
        (md-IsSegment name plain)
  get_commands_path-get_trellis_command_path kiro h = let c : true ≡ false = h in cc
  get_commands_path-get_trellis_command_path gemini h = let c : true ≡ false = h in cc
  get_commands_path-get_trellis_command_path antigravity h =
      flat_path (lit ".agent") (lit "workflows") (name ++ lit ".md")
        (literal (lit ".agent") refl refl) (literal (lit "workflows") refl refl)
        (md-IsSegment name plain)
  get_commands_path-get_trellis_command_path devin h =
      flat_path (lit ".devin") (lit "workflows") file_name (literal (lit ".devin") refl refl)
        (literal (lit "workflows") refl refl) file_name-IsSegment
  get_commands_path-get_trellis_command_path qoder h =
      nested_path (lit ".qoder") (lit "commands") (literal (lit ".qoder") refl refl)
        (literal (lit "commands") refl refl)
  get_commands_path-get_trellis_command_path codebuddy h =
      nested_path (lit ".codebuddy") (lit "commands") (literal (lit ".codebuddy") refl refl)
        (literal (lit "commands") refl refl)
  get_commands_path-get_trellis_command_path copilot h = copilot-Same
  get_commands_path-get_trellis_command_path droid h =
      nested_path (lit ".factory") (lit "commands") (literal (lit ".factory") refl refl)
        (literal (lit "commands") refl refl)
  get_commands_path-get_trellis_command_path pi h = rw (without_md-append name) (
      flat_path (lit ".pi") (lit "prompts") file_name (literal (lit ".pi") refl refl)
        (literal (lit "prompts") refl refl) file_name-IsSegment)
  get_commands_path-get_trellis_command_path trae h =
      nested_path (lit ".trae") (lit "commands") (literal (lit ".trae") refl refl)
        (literal (lit "commands") refl refl)
  get_commands_path-get_trellis_command_path omp h = rw (without_md-append name) (
      flat_path (lit ".omp") (lit "commands") file_name (literal (lit ".omp") refl refl)
        (literal (lit "commands") refl refl) file_name-IsSegment)
  get_commands_path-get_trellis_command_path grok h = rw (without_md-append name) (
      flat_path (lit ".grok") (lit "commands") file_name (literal (lit ".grok") refl refl)
        (literal (lit "commands") refl refl) file_name-IsSegment)
  get_commands_path-get_trellis_command_path kimi h = kimi-Same
