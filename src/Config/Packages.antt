-- ===== src/Config/Packages.antt =====
-- .trellis/scripts/common/config.py: the packages of a monorepo.
use taihu.Base.{
  Bool, true, false, Option, none, some, List, [], ◌∷◌, ◌++◌, if◌then◌else◌, Text, lit, ◌==◌,
}
use taihu.Yaml.Block.{Yaml, str, seq, dict, Entries, end, entry}
use taihu.Config.Values.{get, is_true_config_value}

abbrev pub Packages : Type 0
Packages = List (Text × Entries)

-- The entries whose value is a dict.
unfoldable pub dicts_of : Entries → Packages
dicts_of end = []
dicts_of (entry k (dict v) d) = (k, v) ∷ dicts_of d
dicts_of (entry k (str v) d) = dicts_of d
dicts_of (entry k (seq v) d) = dicts_of d

unfoldable pub none_if_empty : Packages → Option Packages
none_if_empty [] = none
none_if_empty (p ∷ ps) = some (p ∷ ps)

unfoldable pub packages_of : Option Yaml → Option Packages
packages_of (some (dict packages)) = none_if_empty (dicts_of packages)
packages_of _ = none

unfoldable pub get_packages : Entries → Option Packages
get_packages config = packages_of (get (lit "packages") config)

-- `name in packages`
unfoldable pub has_package : Text → Packages → Bool
has_package name [] = false
has_package name ((k, v) ∷ ps) = if k == name then true else has_package name ps

-- `cfg.get("path", name)`
unfoldable pub path_of : Text → Entries → Yaml
path_of name cfg = elim (get (lit "path") cfg) [ none ↦ str name | some path ↦ path ]

unfoldable pub is_text : Text → Option Yaml → Bool
is_text t (some (str s)) = s == t
is_text t _ = false

-- The packages that pass a test, each with its path.
unfoldable pub select : (Entries → Bool) → Packages → List (Text × Yaml)
select test [] = []
select test ((name, cfg) ∷ ps) =
    let rest = select test ps in if test cfg then (name, path_of name cfg) ∷ rest else rest

unfoldable pub select_from : (Entries → Bool) → Option Packages → List (Text × Yaml)
select_from test none = []
select_from test (some packages) = select test packages

unfoldable pub is_submodule : Entries → Bool
is_submodule cfg = is_text (lit "submodule") (get (lit "type") cfg)

unfoldable pub is_git : Entries → Bool
is_git cfg = (is_true_config_value (get (lit "git") cfg)).0

unfoldable pub get_submodule_packages : Entries → List (Text × Yaml)
get_submodule_packages config = select_from is_submodule (get_packages config)

unfoldable pub get_git_packages : Entries → List (Text × Yaml)
get_git_packages config = select_from is_git (get_packages config)

abbrev pub is_configured : Option Packages → Bool
is_configured none = false
is_configured (some packages) = true

unfoldable pub is_monorepo : Entries → Bool
is_monorepo config = is_configured (get_packages config)

-- An argument that may be `None`, where the empty text counts as none.
unfoldable pub truthy : Option Text → Option Text
truthy none = none
truthy (some []) = none
truthy (some (c ∷ s)) = some (c ∷ s)

unfoldable pub spec_base : Option Text → Bool → Text
spec_base (some name) true = lit "spec/" ++ name
spec_base _ _ = lit "spec"

unfoldable pub get_spec_base : Option Text → Entries → Text
get_spec_base name config = spec_base (truthy name) (is_monorepo config)

unfoldable pub is_valid_in : Text → Option Packages → Bool
is_valid_in name none = true
is_valid_in name (some packages) = has_package name packages

unfoldable pub validate_package : Text → Entries → Bool
validate_package name config = is_valid_in name (get_packages config)

-- What a source of a package name gives: the name, if it is declared.
unfoldable pub declared : Packages → Option Text → Option Text
declared packages none = none
declared packages (some name) = if has_package name packages then some name else none

-- Each source is tried in turn; a name that is not declared is passed over with a warning.
unfoldable pub first_declared : Packages → Option Text → Option Text → Option Text
first_declared packages task_package default = elim (declared packages task_package) [
  | none ↦ declared packages default
  | some name ↦ some name
]

unfoldable pub resolve_in : Option Packages → Option Text → Option Text → Option Text
resolve_in none task_package default = none
resolve_in (some packages) task_package default = first_declared packages task_package default

-- `repr` is what `str` makes of a list or a dict.
module _ (repr : Yaml → Text) where
  abbrev default_of : Option Yaml → Option Text
  default_of none = none
  default_of (some (str s)) = truthy (some s)
  default_of (some (seq [])) = none
  default_of (some (dict end)) = none
  default_of (some value) = some (repr value)

  unfoldable pub get_default_package : Entries → Option Text
  get_default_package config = default_of (get (lit "default_package") config)

  -- `task_package` is `none` for what is no text.
  unfoldable pub resolve_package : Option Text → Entries → Option Text
  resolve_package task_package config =
      resolve_in (get_packages config) (truthy task_package) (truthy (get_default_package config))

pub data SpecScope : Type 0 where
  all_packages : SpecScope
  word : Text → SpecScope
  names : List Text → SpecScope

unfoldable pub scope_of : Option Yaml → SpecScope
scope_of (some (str scope)) = word scope
scope_of (some (seq scope)) = names scope
scope_of _ = all_packages

unfoldable pub scope_of_session : Option Yaml → SpecScope
scope_of_session (some (dict session)) = scope_of (get (lit "spec_scope") session)
scope_of_session _ = all_packages

unfoldable pub get_spec_scope : Entries → SpecScope
get_spec_scope config = scope_of_session (get (lit "session") config)
