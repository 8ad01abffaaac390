-- ===== src/Active/Pointer.antt =====
-- .trellis/scripts/common/active_task.py: the changes of the session files, which set, clear and move a task.
use taihu.Base.{
  ℕ, suc, Bool, true, false, ◌&&◌, ◌||◌, Option, none, some, List, [], ◌∷◌, ◌++◌, if◌then◌else◌,
  Text, lit, ◌==◌, is_empty, elem, partition,
}
use taihu.Json.{Json, null, str, obj, Fields, get, assign}
use taihu.Files.Tree.{FilePath}
use taihu.Tasks.Refs.{normalize_task_ref}
use taihu.Active.Keys.{
  session_keys, conversation_keys, transcript_keys, lookup_string, detect_platform,
}
use taihu.Active.Tickets.{resolve_context_key}
use taihu.Active.Sessions.{
  Sessions, Io, ActiveTask, or_empty, read_context, write_session, remove_session, current_of,
  canonical_task_ref, relative_task_ref, resolve_active_task,
}

abbrev pub known_platforms : List Text
known_platforms =
    lit "claude"
    ∷ lit "codex"
    ∷ lit "cursor"
    ∷ lit "opencode"
    ∷ lit "gemini"
    ∷ lit "droid"
    ∷ lit "qoder"
    ∷ lit "codebuddy"
    ∷ lit "kiro"
    ∷ lit "copilot"
    ∷ lit "pi"
    ∷ lit "trae"
    ∷ lit "grok"
    ∷ lit "kimi"
    ∷ lit "zcode"
    ∷ lit "snow"
    ∷ lit "dsh"
    ∷ []

abbrev pub identity_keys : List Text
identity_keys = session_keys ++ (conversation_keys ++ transcript_keys)

-- `metadata[key] = value` for each key of the input's identity.
unfoldable pub add_identity : Fields → List Text → Fields → Fields
add_identity d [] context = context
add_identity d (k ∷ ks) context = elim (lookup_string (k ∷ []) d) [
  | none ↦ add_identity d ks context
  | some v ↦ add_identity d ks (assign k (str v) context)
]

unfoldable pub platform_name : Fields → Option Text → Text → Text
platform_name d platform k =
    let name = detect_platform d platform in
    let (prefix, rest) = partition b'_' k in
    if name == lit "session" && elem prefix known_platforms then prefix else name

abbrev pub default_run : Option Json → Fields → Fields
default_run none context = assign (lit "current_run") null context
default_run (some v) context = context

module _ (io : Io) (repo : FilePath) where
  -- The context with `_context_metadata` and the task.
  unfoldable pub pointed : Fields → Option Text → Text → Text → Fields → Fields
  pointed d platform k ref context =
      let named = assign (lit "platform") (str (platform_name d platform k)) context in
      let seen = assign (lit "last_seen_at") (str io.utc_now) named in
      assign (lit "current_task") (str ref) (add_identity d identity_keys seen)

  unfoldable pub updated : Fields → Option Text → Text → Text → Fields → Fields
  updated d platform k ref context =
      let next = pointed d platform k ref context in default_run (get (lit "current_run") next) next

  abbrev pub set_in :
      Fields → Option Text → Option Text → Option Text → Sessions → Option ActiveTask × Sessions
  set_in d platform (some ref) (some (c ∷ k)) ss =
      if io.can_write (c ∷ k)
      then (
        some (record {
          task_path = some ref;
          source_type = lit "session";
          key = some (c ∷ k);
          stale = false;
        }),
        write_session (c ∷ k) (obj (updated d platform (c ∷ k) ref (read_context (c ∷ k) ss))) ss,
      )
      else (none, ss)
  set_in d platform _ _ ss = (none, ss)

  unfoldable pub set_active_task :
      List Fields → Text → Fields → Option Text → Sessions → Option ActiveTask × Sessions
  set_active_task tickets path d platform ss =
      set_in d platform (canonical_task_ref io.proc.disk repo path)
        (resolve_context_key io.proc tickets d platform true) ss

  abbrev pub clear_key : Text → Sessions → Sessions
  clear_key k ss = if io.can_remove k then remove_session k ss else ss

  abbrev pub clear_previous : ActiveTask → Sessions → Sessions
  clear_previous a ss = elim a.task_path [
    | none ↦ ss
    | some path ↦ elim a.key [
      | none ↦ ss
      | some k ↦ if is_empty path || is_empty k then ss else clear_key k ss
    ]
  ]

  abbrev pub clear_for : Option Text → Sessions → ActiveTask × Sessions
  clear_for none ss =
      (record { task_path = none; source_type = lit "none"; key = none; stale = false }, ss)
  clear_for (some []) ss =
      (record { task_path = none; source_type = lit "none"; key = none; stale = false }, ss)
  clear_for (some (c ∷ k)) ss =
      let previous = resolve_active_task io.proc.disk repo (some (c ∷ k)) false ss in
      (previous, clear_previous previous ss)

  unfoldable pub clear_active_task :
      List Fields → Fields → Option Text → Sessions → ActiveTask × Sessions
  clear_active_task tickets d platform ss =
      clear_for (resolve_context_key io.proc tickets d platform true) ss

  abbrev or_ref : Option Text → Text → Text
  or_ref none t = t
  or_ref (some []) t = t
  or_ref (some (c ∷ s)) t = c ∷ s

  unfoldable pub ref_or_normal : Text → Text
  ref_or_normal path = or_ref (canonical_task_ref io.proc.disk repo path) (normalize_task_ref path)

  unfoldable pub points_at : Text → Option Text → Bool
  points_at target none = false
  points_at target (some ref) = ref_or_normal ref == target

  -- The loop of `clear_task_from_sessions`.
  unfoldable pub clear_pointing : Text → Sessions → ℕ × Sessions
  clear_pointing target [] = (0, [])
  clear_pointing target ((k, v) ∷ ss) =
      let (cleared, rest) = clear_pointing target ss in
      if points_at target (current_of (or_empty v)) && io.can_remove k
      then (suc cleared, rest)
      else (cleared, (k, v) ∷ rest)

  unfoldable pub clear_task_from_sessions : Text → Sessions → ℕ × Sessions
  clear_task_from_sessions path ss =
      let target = ref_or_normal path in
      if is_empty target then (0, ss) else clear_pointing target ss

  unfoldable pub moved_from : Text → Option Text → Bool
  moved_from target none = false
  moved_from target (some ref) =
      or_ref (canonical_task_ref io.proc.disk repo ref) (relative_task_ref io.proc.disk repo ref)
      == target

  -- The loop of `repoint_task_in_sessions`.
  unfoldable pub repoint : Text → Text → Sessions → ℕ × Sessions
  repoint target replacement [] = (0, [])
  repoint target replacement ((k, v) ∷ ss) =
      let (moved, rest) = repoint target replacement ss in
      if moved_from target (current_of (or_empty v)) && io.can_write k
      then (suc moved, (k, obj (assign (lit "current_task") (str replacement) (or_empty v))) ∷ rest)
      else (moved, (k, v) ∷ rest)

  unfoldable pub repoint_task_in_sessions : Text → Text → Sessions → ℕ × Sessions
  repoint_task_in_sessions old new ss =
      let target = relative_task_ref io.proc.disk repo old in
      let replacement = relative_task_ref io.proc.disk repo new in
      if is_empty target || is_empty replacement then (0, ss) else repoint target replacement ss
