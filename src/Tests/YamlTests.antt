-- ===== src/Tests/YamlTests.antt =====
-- .trellis/scripts/common/trellis_config.py at concrete texts.
use taihu.Base.{some, suc, ◌≡◌, refl, List, [], ◌∷◌, ◌++◌, Text, lit, length, splitlines}
use taihu.Yaml.Scalar.{mapping_in_list, block_scalar}
use taihu.Yaml.Block.{
  parse_block, start, str, seq, dict, end, entry, parsed, parse_simple_yaml, State,
}
use taihu.Yaml.Total.{parse_simple_yaml-total}

abbrev newline : Text
newline = 10 ∷ []

abbrev rows : List Text → Text
rows [] = []
rows (t ∷ ts) = t ++ (newline ++ rows ts)

abbrev config : Text
config = rows (
    lit "# settings"
    ∷ lit "message: \"chore: # x\"  # why"
    ∷ lit "hooks:"
    ∷ lit "  after:"
    ∷ lit "    - echo 'a'"
    ∷ lit "    - name: b"
    ∷ lit "      path: x"
    ∷ lit "note: |"
    ∷ lit "  text: 1"
    ∷ lit "n: 2000"
    ∷ lit "empty:"
    ∷ [])

config_runs :
    parse_simple_yaml config
    ≡ parsed
        (entry (lit "message") (str (lit "chore: # x")) (
          entry
            (lit "hooks")
            (dict (entry (lit "after") (seq (lit "echo 'a'" ∷ lit "name: b" ∷ [])) end))
            (entry (lit "n") (str (lit "2000")) (entry (lit "empty") (dict end) end))))
        (record { lineno = 7; line = lit "      path: x"; reason = mapping_in_list }
          ∷ record { lineno = 8; line = lit "note: |"; reason = block_scalar }
          ∷ [])
unfolding parse_simple_yaml
config_runs = refl

parse_simple_yaml-total_example :
    (s : State) × (parse_block (suc (length (splitlines config))) 0 (splitlines config) start
      ≡ some ([], s))
    × (parse_simple_yaml config ≡ parsed s.target s.warnings)
    × (s.i ≡ length (splitlines config))
parse_simple_yaml-total_example = parse_simple_yaml-total config
