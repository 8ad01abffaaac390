-- ===== src/Tests/ActiveTests.antt =====
-- .trellis/scripts/common/active_task.py at concrete sessions.
use taihu.Base.{
  ◌+◌, ◌≡◌, refl, true, false, none, some, [], ◌∷◌, Text, lit, ◌==◌, All, length, reverse,
  starts_with, is_abs, strip, is_space, split_slash, is_empty, elem, join,
}
use taihu.Json.{Json, str, arr, obj, nil, cons, Fields, end, field, get}
use taihu.Files.Tree.{relative_to, FilePath, within}
use taihu.Tasks.Refs.{
  Disk, resolve_task_ref, normalize_task_ref, candidate_of, contained, path_parts, drop_dots,
  forward,
}
use taihu.Active.Keys.{
  is_safe, sanitize_key, string_value, lookup_string, lookup_from, first_string, detect_platform,
  context_key, aliased, depth,
}
use taihu.Active.Tickets.{
  Process, resolve_context_key, lookup_shell_ticket, find_root, candidates,
  matching_ticket_context_key, ticket_is_fresh, ticket_cwd_matches_repo,
  pending_ticket_matches_args, any_subcommand, subcommand_matches, input_key,
}
use taihu.Active.SafeTexts.{IsSafe}
use taihu.Active.Safe.{SafeOr, resolve_context_key-safe}
use taihu.Active.Isolation.{Agrees, lookup_shell_ticket-Agrees}
use taihu.Active.Sessions.{
  Sessions, Io, ActiveTask, canonical_task_ref, relative_task_ref, resolve_active_task, is_stale,
}
use taihu.Active.Pointer.{
  ref_or_normal, moved_from, set_active_task, clear_task_from_sessions, repoint_task_in_sessions,
}
use taihu.Active.SessionLaws.{
  Kept, Moved, Cleared, Repointed, clear_task_from_sessions-Kept, repoint_task_in_sessions-Moved,
}
use taihu.Active.PointerLaws.{set_active_task-resolve}

-- A disk without links, on which every path is a directory.
abbrev disk : Disk
disk = record { resolve = λ p. some p; is_dir = λ p. true; names = λ p. [] }

abbrev repo : FilePath
repo = lit "w" ∷ []

abbrev proc : Process
proc = record {
  disk = disk;
  environ = λ name. none;
  program = lit "task.py";
  args = lit "current" ∷ [];
  cwd = repo;
  epoch = λ v. none;
  now = 0;
  hash = λ s. lit "0";
}

digest : (s : Text) → IsSafe (proc.hash s)
unfolding is_safe
digest s = refl

abbrev input : Fields
input = field (lit "session_id") (str (lit "a/b")) end

resolve_context_key-safe_example :
    SafeOr proc digest
      (lookup_shell_ticket proc [] (find_root proc (reverse proc.cwd)))
      (resolve_context_key proc [] input (some (lit "claude")) true)
resolve_context_key-safe_example =
    resolve_context_key-safe proc digest [] input (some (lit "claude")) true

abbrev ticket : Fields
ticket = field (lit "context_key") (str (lit "cursor_1")) (
    field (lit "subcommands") (arr (cons (obj (field (lit "name") (str (lit "current")) end)) nil))
      end)

ticket_run : lookup_shell_ticket proc (ticket ∷ ticket ∷ []) (some repo) ≡ some (lit "cursor_1")
unfolding lookup_shell_ticket candidates matching_ticket_context_key ticket_is_fresh
    ticket_cwd_matches_repo pending_ticket_matches_args any_subcommand subcommand_matches
    string_value strip is_space get elem ◌==◌
ticket_run = refl

lookup_shell_ticket-Agrees_example : All (Agrees proc repo (lit "cursor_1")) (ticket ∷ ticket ∷ [])
lookup_shell_ticket-Agrees_example =
    lookup_shell_ticket-Agrees proc (ticket ∷ ticket ∷ []) repo (lit "cursor_1") ticket_run

abbrev io : Io
io = record { proc = proc; utc_now = lit "now"; can_write = λ k. true; can_remove = λ k. true }

abbrev pointing : Text → Json
pointing ref = obj (field (lit "current_task") (str ref) end)

abbrev sessions : Sessions
sessions =
    (lit "claude_x", pointing (lit ".trellis/tasks/a"))
    ∷ (lit "codex_y", pointing (lit ".trellis/tasks/b"))
    ∷ []

abbrev claude_x : Fields
claude_x = field (lit "session_id") (str (lit "x")) end

key_run : resolve_context_key proc [] claude_x (some (lit "claude")) true ≡ some (lit "claude_x")
unfolding resolve_context_key input_key lookup_string lookup_from first_string string_value get ◌==◌
    strip is_space depth detect_platform context_key sanitize_key aliased
key_run = refl

ref_run : canonical_task_ref disk repo (lit ".trellis/tasks/b") ≡ some (lit ".trellis/tasks/b")
unfolding canonical_task_ref resolve_task_ref normalize_task_ref candidate_of contained path_parts
    drop_dots forward within relative_to ◌==◌ strip is_space starts_with split_slash is_abs join
ref_run = refl

clean_run : string_value (str (lit ".trellis/tasks/b")) ≡ some (lit ".trellis/tasks/b")
unfolding string_value strip is_space
clean_run = refl

abbrev active_b : ActiveTask
active_b = record {
  task_path = some (lit ".trellis/tasks/b");
  source_type = lit "session";
  key = some (lit "claude_x");
  stale = false;
}

set_run :
    (set_active_task io repo [] (lit ".trellis/tasks/b") claude_x (some (lit "claude")) sessions).0
    ≡ some active_b
unfolding set_active_task
set_run = rw (ref_run, key_run) refl

set_active_task-resolve_example :
    resolve_active_task disk repo
      (some (lit "claude_x"))
      true
      (set_active_task io repo []
        (lit ".trellis/tasks/b")
        claude_x
        (some (lit "claude"))
        sessions).1
    ≡ record active_b {
      stale = is_stale disk repo (resolve_task_ref disk (lit ".trellis/tasks/b") repo);
    }
set_active_task-resolve_example =
    set_active_task-resolve io repo [] (lit ".trellis/tasks/b") claude_x (some (lit "claude")) true
      sessions active_b (lit ".trellis/tasks/b") (lit "claude_x") ref_run key_run clean_run set_run

other_key : (lit "claude_x" == lit "codex_y") ≡ false
unfolding ◌==◌
other_key = refl

target_run : is_empty (ref_or_normal io repo (lit ".trellis/tasks/b")) ≡ false
unfolding ref_or_normal
target_run = rw ref_run refl

clear_task_from_sessions-Kept_example :
    Cleared io repo
      (ref_or_normal io repo (lit ".trellis/tasks/b"))
      sessions
      (clear_task_from_sessions io repo (lit ".trellis/tasks/b") sessions).1
    × All
        (Kept io repo (ref_or_normal io repo (lit ".trellis/tasks/b")))
        (clear_task_from_sessions io repo (lit ".trellis/tasks/b") sessions).1
    × ((clear_task_from_sessions io repo (lit ".trellis/tasks/b") sessions).0
          + length (clear_task_from_sessions io repo (lit ".trellis/tasks/b") sessions).1
        ≡ length sessions)
clear_task_from_sessions-Kept_example =
    clear_task_from_sessions-Kept io repo (lit ".trellis/tasks/b") sessions target_run

old_run : relative_task_ref disk repo (lit ".trellis/tasks/b") ≡ lit ".trellis/tasks/b"
unfolding relative_task_ref normalize_task_ref drop_dots forward strip is_space starts_with is_abs
old_run = refl

new_run : relative_task_ref disk repo (lit ".trellis/tasks/c") ≡ lit ".trellis/tasks/c"
unfolding relative_task_ref normalize_task_ref drop_dots forward strip is_space starts_with is_abs
new_run = refl

moved_run :
    moved_from io repo (lit ".trellis/tasks/b") (string_value (str (lit ".trellis/tasks/c")))
    ≡ false
unfolding moved_from string_value canonical_task_ref resolve_task_ref normalize_task_ref
    candidate_of contained path_parts drop_dots forward within relative_to ◌==◌ strip is_space
    starts_with split_slash is_abs join
moved_run = refl

repoint_task_in_sessions-Moved_example :
    All
      (Moved io repo (lit ".trellis/tasks/b"))
      (repoint_task_in_sessions io repo
        (lit ".trellis/tasks/b")
        (lit ".trellis/tasks/c")
        sessions).1
    × Repointed io repo
        (lit ".trellis/tasks/b")
        (lit ".trellis/tasks/c")
        sessions
        (repoint_task_in_sessions io repo
          (lit ".trellis/tasks/b")
          (lit ".trellis/tasks/c")
          sessions).1
repoint_task_in_sessions-Moved_example =
    repoint_task_in_sessions-Moved io repo (lit ".trellis/tasks/b") (lit ".trellis/tasks/c")
      (lit ".trellis/tasks/b") (lit ".trellis/tasks/c") sessions old_run new_run refl moved_run
