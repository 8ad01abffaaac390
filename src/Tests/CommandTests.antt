-- ===== src/Tests/CommandTests.antt =====
-- .trellis/scripts/common/task_store.py: archiving, renaming and creating a concrete task.
use taihu.Base.{
  ℕ, zero, suc, ◌≡◌, ◌≤◌, refl, inl, inr, ◌⊎◌, arith, Bool, true, false, none, some, List, [], ◌∷◌,
  ◌++◌, Text, lit, ◌==◌,
}
use taihu.Json.{Json, null, str, arr, obj, nil, cons, Fields, end, field, get, assign}
use taihu.Files.Tree.{FilePath, NodeOf, dir, file, TreeOf, make_dirs, write_file}
use taihu.Files.Laws.{empty-IsRooted, IsRooted, make_dirs-IsRooted, write_file-IsRooted}
use taihu.Tasks.Refs.{Disk}
use taihu.Tasks.Info.{Read, parsed, Checked, read, read_json_checked}
use taihu.Tasks.Dirs.{resolve_task_dir}
use taihu.Active.Sessions.{Io}
use taihu.Store.State.{
  Content, json, text, Store, Host, disk_of, doc_at, put_doc, Exit, done, refused, outside,
}
use taihu.Store.Unlinking.{
  Found, nothing, child, Taken, Ended, finished, stopped, unlink_children, restore_child_links,
}
use taihu.Store.UnlinkingLaws.{restore_child_links-unlink_children}
use taihu.Store.RestoreLaws.{SameDoc}
use taihu.Store.OrphanLaws.{Readable, Names, Orphan, OnlyOrphaned, unlink_children-finished}
use taihu.Store.Archiving.{ArchiveRun, cmd_archive}
use taihu.Store.ArchiveLaws.{IsLate, cmd_archive-Keeps}
use taihu.Store.ArchivedLaws.{Completed, cmd_archive-Completed}
use taihu.Store.Renaming.{RenameRun}
use taihu.Store.Drafts.{CreateRun}
use taihu.Store.Creating.{cmd_create}
use taihu.Yaml.Block
use taihu.Commit.Git.{GitRun}
use taihu.Tests.StoreTests.{
  repo, tasks, task_a, task_b, doc_a, doc_b, dirs, tree, host, store, arg_a, a_run, a_doc,
}

abbrev bare_a : TreeOf Content
bare_a =
    (lit "r" ∷ [], dir) ∷ (lit "r" ∷ lit ".trellis" ∷ [], dir) ∷ (tasks, dir) ∷ (task_a, dir) ∷ []

abbrev one_file : TreeOf Content
one_file = dirs ++ ((task_a ++ (lit "task.json" ∷ []), file (json (parsed (obj doc_a)))) ∷ [])

a_made : make_dirs {A = Content} task_a [] ≡ some bare_a
unfolding make_dirs taihu.Files.Tree.node_at taihu.Files.Tree.find taihu.Files.Tree.set_node
    taihu.Files.Tree.same_path ◌==◌
a_made = refl

b_made : make_dirs task_b bare_a ≡ some dirs
unfolding make_dirs taihu.Files.Tree.node_at taihu.Files.Tree.find taihu.Files.Tree.same_path ◌==◌
    taihu.Files.Tree.set_node
b_made = refl

a_written :
    write_file (task_a ++ (lit "task.json" ∷ [])) (json (parsed (obj doc_a))) dirs ≡ some one_file
unfolding write_file taihu.Files.Tree.is_dir taihu.Files.Tree.node_at taihu.Files.Tree.parent
    taihu.Files.Tree.find taihu.Files.Tree.same_path ◌==◌ taihu.Files.Tree.set_node
a_written = refl

b_written :
    write_file (task_b ++ (lit "task.json" ∷ [])) (json (parsed (obj doc_b))) one_file ≡ some tree
unfolding write_file taihu.Files.Tree.is_dir taihu.Files.Tree.node_at taihu.Files.Tree.parent
    taihu.Files.Tree.find taihu.Files.Tree.same_path ◌==◌ taihu.Files.Tree.set_node
b_written = refl

tree-IsRooted : IsRooted tree
tree-IsRooted =
    write_file-IsRooted (task_b ++ (lit "task.json" ∷ [])) (json (parsed (obj doc_b))) one_file
      (write_file-IsRooted (task_a ++ (lit "task.json" ∷ [])) (json (parsed (obj doc_a))) dirs
        (make_dirs-IsRooted task_b bare_a dirs
          (make_dirs-IsRooted task_a [] bare_a empty-IsRooted a_made).0 b_made).0
        a_written)
      b_written

abbrev io : Io
io = record {
  proc = record {
    disk = disk_of host tree;
    environ = λ name. none;
    program = [];
    args = [];
    cwd = [];
    epoch = λ v. none;
    now = 0;
    hash = λ s. s;
  };
  utc_now = lit "now";
  can_write = λ k. true;
  can_remove = λ k. true;
}

abbrev silent : GitRun
silent = record { returncode = 0; stdout = []; stderr = [] }

abbrev archive_run : Text → ArchiveRun
archive_run name = record {
  name = name;
  skip_branch_validation = true;
  no_commit = true;
  today = lit "2026-11-26";
  year_month = lit "2026-11";
  io = io;
  session_auto_commit = false;
  has_remote = false;
  git = record {
    ls_files = silent;
    add = λ n. silent;
    rm = λ n. silent;
    diff = silent;
    commit = λ n. silent;
  };
}

a_read : read_json_checked (parsed (obj doc_a)) ≡ read doc_a
unfolding read_json_checked
a_read = refl

archived_run : (cmd_archive host repo (archive_run arg_a) store).0 ≡ done
unfolding cmd_archive taihu.Store.Archiving.archive_resolved resolve_task_dir
    taihu.Tasks.Dirs.task_candidate taihu.Base.is_abs taihu.Files.Tree.relative_to
    taihu.Tasks.Dirs.get_tasks_dir taihu.Tasks.Refs.path_parts taihu.Base.split_slash ◌==◌
    taihu.Files.Tree.is_dir taihu.Files.Tree.node_at taihu.Files.Tree.find
    taihu.Files.Tree.same_path taihu.Tasks.Dirs.is_within_tasks_dir taihu.Files.Tree.parent
    taihu.Tasks.Dirs.path_name taihu.Files.Tree.exists taihu.Tasks.Archive.archive_destination_for
    doc_at read_json_checked taihu.Store.Archiving.validate_branch_metadata
    taihu.Store.State.write_json taihu.Store.Unlinking.child_names taihu.Json.is_true get
    taihu.Store.Archiving.completed taihu.Json.assign unlink_children
    taihu.Store.Archiving.archive_move taihu.Tasks.Archive.archive_task_dir
    taihu.Store.State.put_doc taihu.Files.Tree.set_node make_dirs taihu.Active.Keys.string_value
    taihu.Active.Pointer.clear_pointing taihu.Active.Pointer.clear_task_from_sessions
    taihu.Active.Pointer.points_at taihu.Active.Pointer.ref_or_normal
    taihu.Active.Sessions.canonical_task_ref taihu.Base.ends_with taihu.Base.has taihu.Base.is_space
    taihu.Base.join taihu.Base.leading_slashes taihu.Base.lower taihu.Base.lower_char
    taihu.Base.lstrip taihu.Base.rstrip taihu.Base.starts_with taihu.Base.strip
    taihu.Commit.Git.contains taihu.Commit.Git.is_locked taihu.Commit.Git.retry
    taihu.Commit.Git.run_git_retry_index_lock taihu.Commit.Git.stderr_indicates_index_lock
    taihu.Commit.Paths.safe_archive_paths_to_add taihu.Commit.Paths.safe_git_add
    taihu.Commit.Paths.wide_paths taihu.Files.Move.move_tree taihu.Files.Tree.child_name
    taihu.Files.Tree.enter_dir taihu.Files.Tree.insert_sorted taihu.Files.Tree.list_dir
    taihu.Files.Tree.make_dirs_below taihu.Files.Tree.text_le taihu.Files.Tree.within
    taihu.Store.Archiving.auto_commit_archive taihu.Store.Archiving.source_was_tracked
    taihu.Store.Archiving.task_branch_field taihu.Store.Links.lists taihu.Store.Slugs.is_blank
    taihu.Store.Slugs.strip_blank taihu.Store.Unlinking.look_up taihu.Store.Unlinking.remember
    restore_child_links taihu.Store.Unlinking.taken_at taihu.Store.Unlinking.visit
    taihu.Tasks.Archive.move_to taihu.Tasks.Dirs.find_task_by_name taihu.Tasks.Dirs.is_invalid_name
    taihu.Tasks.Refs.join_at taihu.Tasks.Dirs.suffix_matches taihu.Tasks.Info.tuple
    taihu.Tasks.Refs.candidate_of taihu.Tasks.Refs.contained taihu.Tasks.Refs.drop_dots
    taihu.Tasks.Refs.forward taihu.Tasks.Refs.normalize_task_ref taihu.Tasks.Refs.parts
    taihu.Tasks.Refs.resolve_task_ref
archived_run = refl

cmd_archive-Completed_example :
    Completed host repo
      (archive_run arg_a)
      task_a
      (cmd_archive host repo (archive_run arg_a) store).1.tree
cmd_archive-Completed_example =
    cmd_archive-Completed host repo (archive_run arg_a) task_a doc_a store tree-IsRooted a_run a_doc
      a_read archived_run

outside_run : (cmd_archive host repo (archive_run (lit "/x")) store).0 ≡ refused outside
unfolding cmd_archive taihu.Store.Archiving.archive_resolved resolve_task_dir
    taihu.Tasks.Dirs.task_candidate taihu.Base.is_abs taihu.Files.Tree.relative_to
    taihu.Tasks.Dirs.get_tasks_dir taihu.Tasks.Refs.path_parts taihu.Base.split_slash ◌==◌
outside_run = refl

outside_early : ¬ IsLate outside
outside_early (inl h) = ground arith
outside_early (inr (inl h)) = ground arith
outside_early (inr (inr h)) = ground arith

cmd_archive-Keeps_example :
    ((cmd_archive host repo (archive_run (lit "/x")) store).1.tree ≡ tree)
    × ((cmd_archive host repo (archive_run (lit "/x")) store).1.sessions ≡ [])
cmd_archive-Keeps_example =
    cmd_archive-Keeps host repo (archive_run (lit "/x")) store outside outside_run outside_early

abbrev rename_run : RenameRun
rename_run = record {
  name = arg_a;
  new_slug = lit "new";
  dry_run = false;
  io_after = io;
  wide = λ c. none;
}

abbrev create_run : CreateRun
create_run = record {
  title = lit "New task";
  priority = lit "P2";
  description = some (lit "what it delivers");
  package_name = none;
  assignee = some (lit "x");
  slug = none;
  parent = some arg_a;
  base_branch = none;
  meta = [];
  force = false;
  no_start = true;
  config = Block.end;
  repr = λ v. [];
  developer = none;
  default_branch = none;
  branch_out = [];
  today = lit "2026-11-26";
  date_prefix = lit "11-26";
  wide = λ c. none;
  io = io;
  tickets = [];
}

created_run : (cmd_create host repo create_run store).0 ≡ done
unfolding cmd_create taihu.Store.Slugs.strip_blank taihu.Base.strip taihu.Store.Slugs.is_blank
    taihu.Base.is_space taihu.Store.Slugs.parse_meta_pairs taihu.Config.Packages.is_monorepo
    taihu.Config.Packages.get_packages taihu.Config.Packages.packages_of taihu.Config.Values.get
    taihu.Config.Packages.truthy taihu.Store.Creating.ensure_tasks_dir taihu.Files.Tree.exists
    taihu.Files.Tree.node_at taihu.Tasks.Dirs.get_tasks_dir taihu.Files.Tree.find
    taihu.Files.Tree.same_path ◌==◌ taihu.Store.Creating.mkdir make_dirs
    taihu.Store.Slugs.create_slug taihu.Store.Slugs.slugify taihu.Store.Slugs.squeeze
    taihu.Store.Slugs.dashed taihu.Store.Slugs.slug_char taihu.Base.lower_char
    taihu.Store.Drafts.parent_of resolve_task_dir taihu.Tasks.Dirs.task_candidate taihu.Base.is_abs
    taihu.Files.Tree.relative_to taihu.Tasks.Refs.path_parts taihu.Base.split_slash doc_at
    taihu.Files.Tree.set_node read_json_checked taihu.Store.Renaming.find_archived_task
    taihu.Files.Tree.is_dir taihu.Store.Renaming.find_in_months taihu.Files.Tree.list_dir
    taihu.Store.State.write_json taihu.Store.Creating.write_beside
    taihu.Store.Drafts.has_subagent_platform taihu.Store.Drafts.any_dir put_doc
    taihu.Store.Renaming.write_text taihu.Store.Links.lists get
created_run = refl

-- The second write of the loop fails.
abbrev lands : ℕ → Bool
lands zero = true
lands (suc zero) = false
lands (suc (suc n)) = true

abbrev failing : Host
failing = record { resolve = some; lands = lands }

abbrev both : Json → Found
both (str s) = child (tasks ++ (s ∷ []))
both v = nothing

abbrev names : List Json
names = str (lit "a") ∷ str (lit "b") ∷ []

abbrev taken : Taken
taken = (task_a, null) ∷ []

abbrev stopped_at : Store
stopped_at = record {
  tree = put_doc task_a (assign (lit "parent") null doc_a) tree;
  sessions = [];
  writes = 2;
}

stopped_run : unlink_children failing both names [] [] store ≡ stopped taken stopped_at
unfolding unlink_children taihu.Store.Unlinking.visit doc_at taihu.Files.Tree.find
    taihu.Files.Tree.same_path ◌==◌ read_json_checked taihu.Store.State.write_json put_doc
    taihu.Files.Tree.set_node taihu.Store.Unlinking.remember taihu.Store.Unlinking.taken_at get
stopped_run = refl

later_writes : (n : ℕ) → 2 ≤ n → lands n ≡ true
later_writes zero h = ground arith
later_writes (suc zero) h = ground arith
later_writes (suc (suc n)) h = refl

restore_child_links-unlink_children_example :
    SameDoc (doc_at task_a tree) (doc_at task_a (restore_child_links failing taken stopped_at).tree)
restore_child_links-unlink_children_example =
    restore_child_links-unlink_children failing both names taken store stopped_at stopped_run
      later_writes task_a

abbrev finished_at : Store
finished_at = record {
  tree =
      put_doc task_b (assign (lit "parent") null doc_b)
        (put_doc task_a (assign (lit "parent") null doc_a) tree);
  sessions = [];
  writes = 2;
}

finished_run :
    unlink_children host both names [] [] store ≡ finished (lit "a" ∷ lit "b" ∷ []) finished_at
unfolding unlink_children taihu.Store.Unlinking.visit doc_at taihu.Files.Tree.find
    taihu.Files.Tree.same_path ◌==◌ read_json_checked taihu.Store.State.write_json put_doc
    taihu.Files.Tree.set_node taihu.Tasks.Dirs.path_name
finished_run = refl

unlink_children-finished_example :
    ((p : FilePath) → Readable p tree → Names host both p names → Orphan p finished_at.tree)
    × ((q : FilePath) → OnlyOrphaned (doc_at q tree) (doc_at q finished_at.tree))
    × ((q : FilePath) → ¬ (Names host both q names) → doc_at q finished_at.tree ≡ doc_at q tree)
unlink_children-finished_example =
    unlink_children-finished host both names (lit "a" ∷ lit "b" ∷ []) store finished_at finished_run
