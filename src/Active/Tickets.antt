-- ===== src/Active/Tickets.antt =====
-- .trellis/scripts/common/active_task.py: shell tickets, and the context key of a session.
use taihu.Base.{
  ℕ, ◌+◌, Bool, true, false, not, ◌&&◌, ◌||◌, Option, none, some, List, [], ◌∷◌, ◌++◌, reverse, ltb,
  leb, if◌then◌else◌, Text, lit, ◌==◌, elem, is_abs,
}
use taihu.Json.{Json, null, str, arr, obj, Items, nil, cons, Fields, end, get, or_default}
use taihu.Files.Tree.{FilePath, same_path, within}
use taihu.Tasks.Refs.{Disk, dir_workflow, path_parts, normalize_task_ref, resolve_task_ref}
use taihu.Active.Keys.{
  Kind, session, conversation, transcript, session_keys, conversation_keys, transcript_keys,
  string_value, or_else, or_text, sanitize_key, lookup_string, detect_platform, context_key,
}
use taihu.Active.Env.{lookup_env_context_key}

-- The process: its file system, its environment, its arguments, its directory, the number of
-- microseconds that a JSON number stands for as a time, the time now, and SHA-256.
pub record Process : Type 0 where
  pub disk : Disk
  pub environ : Text → Option Text
  pub program : Text
  pub args : List Text
  pub cwd : FilePath
  pub epoch : Json → Option ℕ
  pub now : ℕ
  pub hash : Text → Text

abbrev pub ticket_ttl : ℕ
ticket_ttl = 30000000

module _ (proc : Process) where
  -- `_find_repo_root_from_cwd` from a path whose segments are reversed, up to the root.
  unfoldable pub find_root : List Text → Option FilePath
  find_root [] = if proc.disk.is_dir (dir_workflow ∷ []) then some [] else none
  find_root (a ∷ up) =
      let rest = find_root up in
      let here = reverse (a ∷ up) in
      if proc.disk.is_dir (here ++ (dir_workflow ∷ [])) then some here else rest

  -- `_task_refs_match`
  abbrev same_ref : Text → Text → Option FilePath → Option FilePath → Bool
  same_ref l r (some p) (some q) = same_path p q
  same_ref l r _ _ = normalize_task_ref l == normalize_task_ref r

  unfoldable pub task_refs_match : Option Text → Option Text → FilePath → Bool
  task_refs_match (some (c ∷ l)) (some (d ∷ r)) repo =
      same_ref (c ∷ l) (d ∷ r) (resolve_task_ref proc.disk (c ∷ l) repo)
        (resolve_task_ref proc.disk (d ∷ r) repo)
  task_refs_match _ _ repo = false

  abbrev second : List Text → Option Text
  second (a ∷ b ∷ args) = some b
  second _ = none

  abbrev is_named : Text → Option Text → Bool
  is_named s none = false
  is_named s (some t) = t == s

  -- A subcommand of the ticket that is the running command, and for `start` names its task.
  unfoldable pub subcommand_matches : FilePath → Text → Json → Bool
  subcommand_matches repo command (obj d) =
      is_named command (string_value (or_default null (get (lit "name") d)))
      && (not (command == lit "start")
          || task_refs_match (string_value (or_default null (get (lit "task_ref") d)))
              (second proc.args) repo)
  subcommand_matches repo command _ = false

  unfoldable pub any_subcommand : FilePath → Text → Items → Bool
  any_subcommand repo command nil = false
  any_subcommand repo command (cons v items) =
      subcommand_matches repo command v || any_subcommand repo command items

  abbrev listed_subcommand : FilePath → Text → Json → Bool
  listed_subcommand repo command (arr items) = any_subcommand repo command items
  listed_subcommand repo command _ = false

  abbrev session_command : FilePath → Fields → List Text → Bool
  session_command repo ticket [] = false
  session_command repo ticket (command ∷ args) =
      elem command (lit "start" ∷ lit "current" ∷ lit "finish" ∷ [])
      && listed_subcommand repo command (or_default null (get (lit "subcommands") ticket))

  unfoldable pub pending_ticket_matches_args : Fields → FilePath → Bool
  pending_ticket_matches_args ticket repo =
      proc.program == lit "task.py" && session_command repo ticket proc.args

  abbrev is_before : ℕ → Option ℕ → Bool
  is_before t none = false
  is_before t (some e) = ltb e t

  abbrev is_recent : Option ℕ → Bool
  is_recent none = true
  is_recent (some created) = leb proc.now (created + ticket_ttl)

  -- `_ticket_is_fresh`; a ticket that is not is removed.
  unfoldable pub ticket_is_fresh : Fields → Bool
  ticket_is_fresh ticket =
      not (is_before proc.now (proc.epoch (or_default null (get (lit "expires_at_epoch") ticket))))
      && is_recent (proc.epoch (or_default null (get (lit "created_at_epoch") ticket)))

  -- A failing `resolve`, which is not caught, counts as no match.
  abbrev dir_matches : FilePath → Option Text → Bool
  dir_matches repo none = true
  dir_matches repo (some s) =
      elim (proc.disk.resolve (if is_abs s then path_parts s else proc.cwd ++ path_parts s)) [
        | none ↦ false
        | some p ↦ within repo p
      ]

  unfoldable pub ticket_cwd_matches_repo : Fields → FilePath → Bool
  ticket_cwd_matches_repo ticket repo =
      dir_matches repo (string_value (or_default null (get (lit "cwd") ticket)))

  unfoldable pub matching_ticket_context_key : FilePath → Fields → Option Text
  matching_ticket_context_key repo ticket =
      if ticket_is_fresh ticket
        && ticket_cwd_matches_repo ticket repo
        && pending_ticket_matches_args ticket repo
      then string_value (or_default null (get (lit "context_key") ticket))
      else none

  -- The set of keys, as a list without doubles.
  abbrev pub add_key : Option Text → List Text → List Text
  add_key none keys = keys
  add_key (some k) keys = if elem k keys then keys else k ∷ keys

  -- The loop over the tickets of both directories that can be read, and the tickets it leaves.
  unfoldable pub candidates : FilePath → List Fields → List Text
  candidates repo [] = []
  candidates repo (t ∷ ts) = add_key (matching_ticket_context_key repo t) (candidates repo ts)

  unfoldable pub remaining : List Fields → List Fields
  remaining [] = []
  remaining (t ∷ ts) = let rest = remaining ts in if ticket_is_fresh t then t ∷ rest else rest

  abbrev pub the_only : List Text → Option Text
  the_only (k ∷ []) = some k
  the_only _ = none

  -- `_lookup_shell_ticket_context_key`
  unfoldable pub lookup_shell_ticket : List Fields → Option FilePath → Option Text
  lookup_shell_ticket tickets none = none
  lookup_shell_ticket tickets (some repo) = the_only (candidates repo tickets)

  abbrev pub platform_of : Fields → Option Text → Option Text
  platform_of end none = none
  platform_of end (some []) = none
  platform_of d p = some (detect_platform d p)

  abbrev pub platform_or_session : Option Text → Text
  platform_or_session none = lit "session"
  platform_or_session (some p) = or_text p (lit "session")

  abbrev pub keyed : Option Text → Kind → Option Text → Option Text
  keyed platform kind none = none
  keyed platform kind (some v) = some (context_key proc.hash (platform_or_session platform) kind v)

  -- The key that the input of a hook gives.
  unfoldable pub input_key : Fields → Option Text → Option Text
  input_key d platform = or_else (keyed platform session (lookup_string session_keys d)) (
      or_else (keyed platform conversation (lookup_string conversation_keys d))
        (keyed platform transcript (lookup_string transcript_keys d)))

  abbrev pub override_key : Option Text → Option Text
  override_key none = none
  override_key (some s) = elim (string_value (str s)) [
    | none ↦ none
    | some v ↦ some (or_text (sanitize_key v) (proc.hash v))
  ]

  -- `resolve_context_key`, where no input is the empty dict.
  unfoldable pub resolve_context_key : List Fields → Fields → Option Text → Bool → Option Text
  resolve_context_key tickets d platform true =
      or_else (override_key (proc.environ (lit "TRELLIS_CONTEXT_ID"))) (
        or_else (input_key d (platform_of d platform)) (
          or_else (lookup_env_context_key proc.hash proc.environ (platform_of d platform))
            (lookup_shell_ticket tickets (find_root (reverse proc.cwd)))))
  resolve_context_key tickets d platform false = input_key d (platform_of d platform)
