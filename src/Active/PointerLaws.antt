-- ===== src/Active/PointerLaws.antt =====
-- .trellis/scripts/common/active_task.py: setting and clearing the task of one session.
use taihu.Base.{
  ◌≡◌, refl, ◌∙◌, arith, inl, inr, Bool, true, false, Bool-cases, Option, none, some, Option-cases,
  List, [], ◌∷◌, Text, lit, ◌==◌, ==_refl, is_empty, strip, is_space,
}
use taihu.Json.{Json, null, flag, int, float, str, arr, obj, Fields, get, or_default}
use taihu.Files.Tree.{FilePath}
use taihu.Tasks.Refs.{resolve_task_ref}
use taihu.Active.Keys.{string_value, nonempty}
use taihu.Active.Tickets.{resolve_context_key}
use taihu.Active.Sessions.{
  Sessions, Io, ActiveTask, find_session, read_context, write_session, remove_session, current_of,
  canonical_task_ref, active_from_ref, resolve_active_task, is_stale,
}
use taihu.Active.Pointer.{
  pointed, updated, default_run, set_active_task, set_in, clear_active_task, clear_for,
  clear_previous,
}
use taihu.Json.{get-assign}
use taihu.Active.SessionLaws.{find-write, find-remove, current_of-assign}

run-is_no_task : (lit "current_run" == lit "current_task") ≡ false
unfolding ◌==◌
run-is_no_task = refl

module _ (io : Io) (repo : FilePath) where
  default_run-current_of :
      (o : Option Json) (d : Fields) → current_of (default_run o d) ≡ current_of d
  default_run-current_of none d =
      rw (get-assign (lit "current_run") (lit "current_task") null d, run-is_no_task) refl
  default_run-current_of (some v) d = refl

  pointed-current_of :
      (d : Fields) (platform : Option Text) (k ref : Text) (context : Fields)
      → current_of (pointed io repo d platform k ref context) ≡ string_value (str ref)
  unfolding pointed
  pointed-current_of d platform k ref context = current_of-assign ref _

  updated-current_of :
      (d : Fields) (platform : Option Text) (k ref : Text) (context : Fields)
      → current_of (updated io repo d platform k ref context) ≡ string_value (str ref)
  unfolding updated
  updated-current_of d platform k ref context =
      default_run-current_of (get (lit "current_run") (pointed io repo d platform k ref context))
        (pointed io repo d platform k ref context)
      ∙ pointed-current_of d platform k ref context

  resolved-task :
      (k ref : Text) (fallback : Bool) (ss : Sessions)
      → current_of (read_context k ss) ≡ some ref
      → is_empty k ≡ false
      → resolve_active_task io.proc.disk repo (some k) fallback ss ≡ record {
        task_path = some ref;
        source_type = lit "session";
        key = some k;
        stale = is_stale io.proc.disk repo (resolve_task_ref io.proc.disk ref repo);
      }
  unfolding resolve_active_task active_from_ref
  resolved-task [] ref fallback ss e n = ground arith
  resolved-task (x ∷ k) ref fallback ss e n = rw e refl

  unset :
      (k : Text) (ss : Sessions)
      → current_of (read_context k ss) ≡ none
      → (resolve_active_task io.proc.disk repo (some k) false ss).task_path ≡ none
  unfolding resolve_active_task active_from_ref
  unset [] ss e = refl
  unset (x ∷ k) ss e = rw e refl

  no_key :
      (ss : Sessions) → (resolve_active_task io.proc.disk repo (some []) false ss).task_path ≡ none
  unfolding resolve_active_task
  no_key ss = refl

  removed-unset :
      (k : Text) (ss : Sessions) → current_of (read_context k (remove_session k ss)) ≡ none
  unfolding string_value get
  removed-unset k ss = rw (find-remove k ss) refl

  string_value-nonempty : (v : Json) (s : Text) → string_value v ≡ some s → is_empty s ≡ false
  unfolding string_value
  string_value-nonempty (str t) s h = filled (strip is_space t) h
    where
      filled : (t : Text) → nonempty t ≡ some s → is_empty s ≡ false
      filled [] k = ground arith
      filled (c ∷ t) k = let e : s ≡ c ∷ t = cc in rw e refl
  string_value-nonempty null s h = ground arith
  string_value-nonempty (flag b) s h = ground arith
  string_value-nonempty (int n) s h = ground arith
  string_value-nonempty (float t) s h = ground arith
  string_value-nonempty (arr items) s h = ground arith
  string_value-nonempty (obj d) s h = ground arith

  nothing_cleared :
      (a : ActiveTask) (ss : Sessions) → a.task_path ≡ none → clear_previous io repo a ss ≡ ss
  nothing_cleared a ss h = rw h refl

  -- A task that has been set is the one that its session resolves to, as long as the reference has no
  -- space at its ends.
  pub set_active_task-resolve :
      (tickets : List Fields) (path : Text) (d : Fields) (platform : Option Text) (fallback : Bool)
      (ss : Sessions) (a : ActiveTask) (ref k : Text)
      → canonical_task_ref io.proc.disk repo path ≡ some ref
      → resolve_context_key io.proc tickets d platform true ≡ some k
      → string_value (str ref) ≡ some ref
      → (set_active_task io repo tickets path d platform ss).0 ≡ some a
      → resolve_active_task io.proc.disk repo
          (some k)
          fallback
          (set_active_task io repo tickets path d platform ss).1
        ≡ record a { stale = is_stale io.proc.disk repo (resolve_task_ref io.proc.disk ref repo) }
  unfolding set_active_task
  set_active_task-resolve tickets path d platform fallback ss a ref k c key clean h =
      rw (c, key) (go k (rw (set_active_task, c, key) at h))
    where
      after : Text → Sessions
      after k = write_session k (obj (updated io repo d platform k ref (read_context k ss))) ss

      current : (k : Text) → current_of (read_context k (after k)) ≡ some ref
      current k =
          rw
            (
              find-write k k (obj (updated io repo d platform k ref (read_context k ss))) ss,
              ==_refl k,
            )
            (updated-current_of d platform k ref (read_context k ss) ∙ clean)

      go :
          (k : Text)
          → (set_in io repo d platform (some ref) (some k) ss).0 ≡ some a
          → resolve_active_task io.proc.disk repo
              (some k)
              fallback
              (set_in io repo d platform (some ref) (some k) ss).1
            ≡ record a {
              stale = is_stale io.proc.disk repo (resolve_task_ref io.proc.disk ref repo);
            }
      go [] h = ground arith
      go (x ∷ k) h = elim (Bool-cases (io.can_write (x ∷ k))) [
        | inl w ↦
            let e : a ≡ record {
              task_path = some ref;
              source_type = lit "session";
              key = some (x ∷ k);
              stale = false;
            } =
              ground arith in
            rw (w, e) (resolved-task (x ∷ k) ref fallback (after (x ∷ k)) (current (x ∷ k)) refl)
        | inr w ↦ ground arith
      ]

  -- Setting the task of a session changes no other session.
  pub set_active_task-others :
      (tickets : List Fields) (path : Text) (d : Fields) (platform : Option Text) (ss : Sessions)
      (k l : Text)
      → resolve_context_key io.proc tickets d platform true ≡ some k
      → (k == l) ≡ false
      → find_session l (set_active_task io repo tickets path d platform ss).1 ≡ find_session l ss
  unfolding set_active_task
  set_active_task-others tickets path d platform ss k l key other =
      rw key (go (canonical_task_ref io.proc.disk repo path) k other)
    where
      go :
          (ref : Option Text) (k : Text)
          → (k == l) ≡ false
          → find_session l (set_in io repo d platform ref (some k) ss).1 ≡ find_session l ss
      go none k e = refl
      go (some ref) [] e = refl
      go (some ref) (c ∷ k) e = elim (Bool-cases (io.can_write (c ∷ k))) [
        | inl w ↦
            rw
              (
                w,
                find-write (c ∷ k) l
                    (obj (updated io repo d platform (c ∷ k) ref (read_context (c ∷ k) ss))) ss,
                e,
              )
              refl
        | inr w ↦ rw w refl
      ]

  -- Clearing the task of a session leaves it without one, if its file can be removed.
  pub clear_active_task-resolve :
      (tickets : List Fields) (d : Fields) (platform : Option Text) (ss : Sessions) (k : Text)
      → resolve_context_key io.proc tickets d platform true ≡ some k
      → io.can_remove k ≡ true
      → (resolve_active_task io.proc.disk repo
          (some k)
          false
          (clear_active_task io repo tickets d platform ss).1).task_path
        ≡ none
  unfolding clear_active_task
  clear_active_task-resolve tickets d platform ss k key can = rw key (go k can)
    where
      go :
          (k : Text)
          → io.can_remove k ≡ true
          → (resolve_active_task io.proc.disk repo
              (some k)
              false
              (clear_for io repo (some k) ss).1).task_path
            ≡ none
      go [] c = no_key ss
      go (c ∷ k) can = elim (Option-cases (current_of (read_context (c ∷ k) ss))) [
        | inl e ↦
            let path = unset (c ∷ k) ss e in
            rw
              (nothing_cleared (resolve_active_task io.proc.disk repo (some (c ∷ k)) false ss) ss
                path)
              path
        | inr (ref, e) ↦
            let current = or_default null (get (lit "current_task") (read_context (c ∷ k) ss)) in
            rw (resolved-task (c ∷ k) ref false ss e refl, string_value-nonempty current ref e, can)
              (unset (c ∷ k) (remove_session (c ∷ k) ss) (removed-unset (c ∷ k) ss))
      ]
