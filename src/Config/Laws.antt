-- ===== src/Config/Laws.antt =====
-- .trellis/scripts/common/config.py: what the settings promise.
use taihu.Base.{
  ℕ, ◌≡◌, refl, all, all-elem, true, false, not, Option, none, some, Text, lit, ◌==◌, elem, arith,
  ◌⊎◌, ◌↔◌, show_nat, parse_int-show_nat,
}
use taihu.Yaml.Block.{Yaml, str, dict, Entries}
use taihu.Config.Values.{
  get, get_session_auto_commit, bool_or, coerce_config_bool, coerce_word, word_of,
  false_config_values, true_config_values, get_context_injection_limits, limit_of,
  limits_of_section, limit_of_int, int_of,
}
use taihu.Config.Packages.{
  Packages, validate_package, resolve_package, get_packages, resolve_in, first_declared, declared,
  has_package, truthy, is_valid_in, is_monorepo, is_configured, get_default_package,
}

declared-eq_some :
    (packages : Packages) (source : Option Text) (p : Text)
    → declared packages source ≡ some p
    → (source ≡ some p) × (has_package p packages ≡ true)
unfolding declared
declared-eq_some packages none p h = ground arith
declared-eq_some packages (some name) p h = ground arith

declared-eq_none :
    (packages : Packages) (p : Text)
    → declared packages (some p) ≡ none
    → has_package p packages ≡ false
unfolding declared
declared-eq_none packages p h = ground arith

first_declared-eq_some :
    (packages : Packages) (a b : Option Text) (p : Text)
    → first_declared packages a b ≡ some p
    → ((a ≡ some p) ⊎ (b ≡ some p)) × (has_package p packages ≡ true)
unfolding first_declared
first_declared-eq_some packages a b p h =
    ground (arith, declared-eq_some packages a p, declared-eq_some packages b p)

first_declared-left :
    (packages : Packages) (b : Option Text) (p : Text)
    → has_package p packages ≡ true
    → first_declared packages (some p) b ≡ some p
unfolding first_declared declared
first_declared-left packages b p h = ground arith

first_declared-right :
    (packages : Packages) (a : Option Text) (p : Text)
    → declared packages a ≡ none
    → has_package p packages ≡ true
    → first_declared packages a (some p) ≡ some p
unfolding first_declared declared
first_declared-right packages a p e h = ground arith

resolve_in-eq_some :
    (o : Option Packages) (a b : Option Text) (p : Text)
    → resolve_in o a b ≡ some p
    → (is_configured o ≡ true) × (is_valid_in p o ≡ true) × ((a ≡ some p) ⊎ (b ≡ some p))
unfolding resolve_in is_valid_in
resolve_in-eq_some none a b p h = ground arith
resolve_in-eq_some (some packages) a b p h = ground (arith, first_declared-eq_some packages a b p)

resolve_in-left :
    (o : Option Packages) (b : Option Text) (p : Text)
    → is_configured o ≡ true
    → is_valid_in p o ≡ true
    → resolve_in o (some p) b ≡ some p
unfolding resolve_in is_valid_in
resolve_in-left none b p c h = ground arith
resolve_in-left (some packages) b p c h = first_declared-left packages b p h

module _ (repr : Yaml → Text) (config : Entries) (task_package : Option Text) (p : Text) where
  -- A package that is resolved is declared in a monorepo, and is the task's or the default one.
  pub resolve_package-valid :
      resolve_package repr task_package config ≡ some p
      → (is_monorepo config ≡ true)
        × (validate_package p config ≡ true)
        × ((truthy task_package ≡ some p) ⊎ (truthy (get_default_package repr config) ≡ some p))
  unfolding resolve_package is_monorepo validate_package
  resolve_package-valid h =
      resolve_in-eq_some (get_packages config) (truthy task_package)
        (truthy (get_default_package repr config)) p h

  -- In a monorepo a task's package that is declared is resolved, whatever the default.
  pub resolve_package-task :
      truthy task_package ≡ some p
      → is_monorepo config ≡ true
      → validate_package p config ≡ true
      → resolve_package repr task_package config ≡ some p
  unfolding resolve_package is_monorepo validate_package
  resolve_package-task e c h =
      rw e (resolve_in-left (get_packages config) (truthy (get_default_package repr config)) p c h)

false_words_not-true : all (λ s. not (elem s true_config_values)) false_config_values ≡ true
unfolding elem ◌==◌
false_words_not-true = refl

coerce_word-false :
    (o : Option Text)
    → ((coerce_word o true).0 ≡ false)
      ↔ ((s : Text) × (o ≡ some s) × (elem s false_config_values ≡ true))
unfolding coerce_word
coerce_word-false none = ((λ h. ground arith), (λ h. ground arith))
coerce_word-false (some s) = (
  (λ h. (s, refl, ground arith)),
  (λ (t, e, h).
      let e' : s ≡ t = cc in
      rw e' (
        ground (
          arith,
          all-elem (λ s. not (elem s true_config_values)) false_config_values t false_words_not-true
              h,
        ))),
)

bool_or-false :
    (o : Option Yaml)
    → ((bool_or true o).0 ≡ false) ↔ (
        (v : Yaml) × (s : Text) × (o ≡ some v)
        × (word_of v ≡ some s)
        × (elem s false_config_values ≡ true))
unfolding bool_or coerce_config_bool
bool_or-false none = ((λ h. ground arith), (λ h. ground arith))
bool_or-false (some v) = (
  (λ h. let (s, e, m) = (coerce_word-false (word_of v)).0 h in (v, s, refl, e, m)),
  (λ (w, s, e, f, m). (coerce_word-false (word_of v)).1 (s, cc, m)),
)

-- Auto-commit is off exactly where the setting is one of the false words, in any case and with any
-- white space around it.
pub get_session_auto_commit-off :
    (config : Entries)
    → ((get_session_auto_commit config).0 ≡ false) ↔ (
        (v : Yaml) × (s : Text) × (get (lit "session_auto_commit") config ≡ some v)
        × (word_of v ≡ some s)
        × (elem s false_config_values ≡ true))
unfolding get_session_auto_commit
get_session_auto_commit-off config = bool_or-false (get (lit "session_auto_commit") config)

limit_of-show_nat : (default n : ℕ) → limit_of default (some (str (show_nat n))) ≡ (n, false)
unfolding limit_of limit_of_int int_of
limit_of-show_nat default n = rw (parse_int-show_nat n)

-- Limits that the config file writes as numbers are the limits in force, with no warning.
pub get_context_injection_limits-configured :
    (config section : Entries) (file artifact total : ℕ)
    → get (lit "context_injection") config ≡ some (dict section)
    → get (lit "max_file_bytes") section ≡ some (str (show_nat file))
    → get (lit "max_artifact_bytes") section ≡ some (str (show_nat artifact))
    → get (lit "max_total_bytes") section ≡ some (str (show_nat total))
    → get_context_injection_limits config ≡ record {
      max_file_bytes = (file, false);
      max_artifact_bytes = (artifact, false);
      max_total_bytes = (total, false);
    }
unfolding get_context_injection_limits limits_of_section
get_context_injection_limits-configured config section file artifact total c f a t = rw c (
    cc (
      f,
      a,
      t,
      limit_of-show_nat 32768 file,
      limit_of-show_nat 65536 artifact,
      limit_of-show_nat 131072 total,
    ))
