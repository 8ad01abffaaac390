-- ===== src/Tests/ConfigTests.antt =====
-- .trellis/scripts/common/config.py at concrete settings.
use taihu.Base.{◌≡◌, refl, true, some, [], Text, lit, ◌==◌, ◌⊎◌, show_nat}
use taihu.Yaml.Block.{Yaml, str, dict, Entries, end, entry}
use taihu.Config.Values.{get}
use taihu.Config.Packages.{
  resolve_package, validate_package, is_monorepo, is_valid_in, get_packages, packages_of, dicts_of,
  none_if_empty, has_package, truthy, get_default_package, resolve_in, first_declared, declared,
}
use taihu.Config.Laws.{resolve_package-valid}

abbrev repr : Yaml → Text
repr v = []

abbrev monorepo : Entries
monorepo =
    entry (lit "packages")
      (dict (entry (lit "cli") (dict (entry (lit "path") (str (lit "cmd/cli")) end)) end))
      (entry (lit "session_auto_commit") (str (lit " Off ")) (
        entry (lit "context_injection")
          (dict (
            entry (lit "max_file_bytes") (str (lit "10")) (
              entry (lit "max_artifact_bytes") (str (lit "20"))
                (entry (lit "max_total_bytes") (str (lit "30")) end))))
          end))

abbrev limits : Entries
limits = entry (lit "max_file_bytes") (str (lit "10")) (
    entry (lit "max_artifact_bytes") (str (lit "20"))
      (entry (lit "max_total_bytes") (str (lit "30")) end))

cli_truthy : truthy (some (lit "cli")) ≡ some (lit "cli")
unfolding truthy
cli_truthy = refl

monorepo_configured : is_monorepo monorepo ≡ true
unfolding is_monorepo get_packages packages_of dicts_of none_if_empty get ◌==◌
monorepo_configured = refl

cli_valid : validate_package (lit "cli") monorepo ≡ true
unfolding validate_package is_valid_in get_packages packages_of dicts_of none_if_empty get
    has_package ◌==◌
cli_valid = refl

cli_resolved : resolve_package repr (some (lit "cli")) monorepo ≡ some (lit "cli")
unfolding resolve_package resolve_in first_declared declared truthy get_packages packages_of
    dicts_of none_if_empty get has_package get_default_package ◌==◌
cli_resolved = refl

resolve_package-valid_example :
    (is_monorepo monorepo ≡ true)
    × (validate_package (lit "cli") monorepo ≡ true)
    × ((truthy (some (lit "cli")) ≡ some (lit "cli"))
        ⊎ (truthy (get_default_package repr monorepo) ≡ some (lit "cli")))
resolve_package-valid_example =
    resolve_package-valid repr monorepo (some (lit "cli")) (lit "cli") cli_resolved

limits_found : get (lit "context_injection") monorepo ≡ some (dict limits)
unfolding get ◌==◌
limits_found = refl

file_found : get (lit "max_file_bytes") limits ≡ some (str (show_nat 10))
unfolding get ◌==◌ show_nat
file_found = refl

artifact_found : get (lit "max_artifact_bytes") limits ≡ some (str (show_nat 20))
unfolding get ◌==◌ show_nat
artifact_found = refl

total_found : get (lit "max_total_bytes") limits ≡ some (str (show_nat 30))
unfolding get ◌==◌ show_nat
total_found = refl
