-- ===== src/Active/Sessions.antt =====
-- .trellis/scripts/common/active_task.py: the session files, which hold the active tasks.
use taihu.Base.{
  Bool, true, false, not, ◌||◌, Option, none, some, List, [], ◌∷◌, ◌++◌, if◌then◌else◌, Text, lit,
  ◌==◌, is_empty, is_abs, join,
}
use taihu.Json.{Json, null, obj, Fields, end, get, or_default}
use taihu.Files.Tree.{relative_to, FilePath}
use taihu.Tasks.Refs.{Disk, dir_workflow, path_parts, normalize_task_ref, resolve_task_ref}
use taihu.Active.Keys.{string_value}
use taihu.Active.Tickets.{Process}

-- The files `<key>.json` of the sessions' directory, with `null` for what is no JSON.
abbrev pub Sessions : Type 0
Sessions = List (Text × Json)

-- What the process adds for the store: the time as text, and the files that can be written or removed.
pub record Io : Type 0 where
  pub proc : Process
  pub utc_now : Text
  pub can_write : Text → Bool
  pub can_remove : Text → Bool

pub record ActiveTask : Type 0 where
  pub task_path : Option Text
  pub source_type : Text
  pub key : Option Text
  pub stale : Bool

abbrev labelled : Text → Option Text → Text
labelled kind none = kind
labelled kind (some []) = kind
labelled kind (some (c ∷ s)) = kind ++ (b':' ∷ c ∷ s)

-- `ActiveTask.source`
unfoldable pub source : ActiveTask → Text
source a =
    if a.source_type == lit "session" || a.source_type == lit "session-fallback"
    then labelled a.source_type a.key
    else a.source_type

unfoldable pub find_session : Text → Sessions → Json
find_session k [] = null
find_session k ((l, v) ∷ ss) = if l == k then v else find_session k ss

abbrev pub or_empty : Json → Fields
or_empty (obj d) = d
or_empty _ = end

-- `_read_json(path) or {}`
abbrev pub read_context : Text → Sessions → Fields
read_context k ss = or_empty (find_session k ss)

unfoldable pub write_session : Text → Json → Sessions → Sessions
write_session k v [] = (k, v) ∷ []
write_session k v ((l, w) ∷ ss) = if l == k then (l, v) ∷ ss else (l, w) ∷ write_session k v ss

unfoldable pub remove_session : Text → Sessions → Sessions
remove_session k [] = []
remove_session k ((l, w) ∷ ss) =
    let rest = remove_session k ss in if l == k then rest else (l, w) ∷ rest

abbrev pub current_of : Fields → Option Text
current_of d = string_value (or_default null (get (lit "current_task") d))

-- `as_posix`
abbrev pub as_posix : FilePath → Text
as_posix [] = lit "."
as_posix (a ∷ p) = join (lit "/") (a ∷ p)

abbrev posix_option : Option FilePath → Option Text
posix_option none = none
posix_option (some p) = some (as_posix p)

abbrev relative_in : FilePath → Option FilePath → Option Text
relative_in p none = none
relative_in p (some root) = posix_option (relative_to root p)

module _ (disk : Disk) (repo : FilePath) where
  abbrev canonical_of : Option FilePath → Option Text
  canonical_of none = none
  canonical_of (some p) = if disk.is_dir p then relative_in p (disk.resolve repo) else none

  unfoldable pub canonical_task_ref : Text → Option Text
  canonical_task_ref path =
      let normalized = normalize_task_ref path in
      if is_empty normalized then none else canonical_of (resolve_task_ref disk normalized repo)

  -- The in-repo form below the place where `.trellis` really lies, or the empty text.
  abbrev below_real : Option FilePath → Text
  below_real none = []
  below_real (some rel) = as_posix (dir_workflow ∷ rel)

  abbrev relative_from : Option FilePath → FilePath → FilePath → Text
  relative_from none resolved workflow_real = below_real (relative_to workflow_real resolved)
  relative_from (some rel) resolved workflow_real = as_posix rel

  abbrev relative_resolved : Option FilePath → Option FilePath → Option FilePath → Text
  relative_resolved (some resolved) (some root) (some workflow_real) =
      relative_from (relative_to root resolved) resolved workflow_real
  relative_resolved _ _ _ = []

  abbrev workflow_of : Option FilePath → Option FilePath
  workflow_of none = none
  workflow_of (some root) = disk.resolve (root ++ (dir_workflow ∷ []))

  unfoldable pub relative_task_ref : Text → Text
  relative_task_ref path =
      let normalized = normalize_task_ref path in
      if is_abs normalized
      then relative_resolved (disk.resolve (path_parts normalized)) (disk.resolve repo)
          (workflow_of (disk.resolve repo))
      else normalized

  abbrev pub is_stale : Option FilePath → Bool
  is_stale none = true
  is_stale (some p) = not (disk.is_dir p)

  unfoldable pub active_from_ref : Option Text → Text → Option Text → Option ActiveTask
  active_from_ref none source_type k = none
  active_from_ref (some ref) source_type k = some (record {
    task_path = some ref;
    source_type = source_type;
    key = k;
    stale = is_stale (resolve_task_ref disk ref repo);
  })

  -- `_resolve_single_session_fallback`
  unfoldable pub single_session_fallback : Sessions → Option ActiveTask
  single_session_fallback ((k, v) ∷ []) =
      active_from_ref (current_of (or_empty v)) (lit "session-fallback") (some k)
  single_session_fallback _ = none

  abbrev pub or_none : Option Text → Option ActiveTask → ActiveTask
  or_none k none = record { task_path = none; source_type = lit "none"; key = k; stale = false }
  or_none k (some a) = a

  abbrev pub fallback_of : Bool → Sessions → Option ActiveTask
  fallback_of false ss = none
  fallback_of true ss = single_session_fallback ss

  abbrev pub or_active : Option ActiveTask → Option ActiveTask → Option ActiveTask
  or_active none b = b
  or_active (some a) b = some a

  abbrev pub session_task : Option Text → Sessions → Option ActiveTask
  session_task none ss = none
  session_task (some []) ss = none
  session_task (some (c ∷ k)) ss =
      active_from_ref (current_of (read_context (c ∷ k) ss)) (lit "session") (some (c ∷ k))

  -- `resolve_active_task` for the context key that `resolve_context_key` gives.
  unfoldable pub resolve_active_task : Option Text → Bool → Sessions → ActiveTask
  resolve_active_task k fallback ss =
      or_none k (or_active (session_task k ss) (fallback_of fallback ss))
