-- ===== src/Store/Creating.antt =====
-- .trellis/scripts/common/task_store.py: `cmd_create`.
use taihu.Base.{
  suc, Bool, true, false, ◌&&◌, Option, none, some, [], ◌∷◌, ◌++◌, if◌then◌else◌, Text, lit,
  is_empty,
}
use taihu.Json.{str, Fields, end, assign}
use taihu.Files.Tree.{FilePath, TreeOf, exists, make_dirs, remove_tree, list_dir}
use taihu.Config.Packages.{truthy}
use taihu.Tasks.Dirs.{get_tasks_dir, path_name}
use taihu.Active.Tickets.{resolve_context_key}
use taihu.Active.Pointer.{set_active_task}
use taihu.Store.State.{
  Content, Store, Host, write_json, Problem, Exit, done, refused, crashed, no_title, no_description,
  bad_meta, bad_package, no_developer, bad_slug, already_archived, already_there, not_written,
  not_linked, half_written,
}
use taihu.Store.Slugs.{strip_blank, create_slug, parse_meta_pairs, default_prd_content}
use taihu.Store.Links.{children_of, lists, add_child}
use taihu.Store.Renaming.{find_archived_task, repo_relative_path, and_then, write_text}
use taihu.Store.Drafts.{
  CreateRun, Draft, package_of, or_else_text, text_or, task_data, has_subagent_platform, Parent,
  parent_of, no_link, link_to, broken,
}

-- An OSError that nothing catches.
abbrev pub or_crash : (Store → Exit × Store) → Bool × Store → Exit × Store
or_crash next (false, s) = (crashed, s)
or_crash next (true, s) = next s

abbrev pub or_refuse : Problem → (Store → Exit × Store) → Bool × Store → Exit × Store
or_refuse problem next (false, s) = (refused problem, s)
or_refuse problem next (true, s) = next s

abbrev pub with_tree : Option (TreeOf Content) → Store → Bool × Store
with_tree none s = (false, record s { writes = suc s.writes })
with_tree (some t) s = (true, record s { tree = t; writes = suc s.writes })

module _ (host : Host) where
  -- `p.mkdir(parents=True)`
  unfoldable pub mkdir : FilePath → Store → Bool × Store
  mkdir p s =
      if host.lands s.writes
      then with_tree (make_dirs p s.tree) s
      else (false, record s { writes = suc s.writes })

  -- `p.mkdir(parents=True)` where nothing is at `p`.
  abbrev pub ensure_dir : FilePath → Store → Bool × Store
  ensure_dir p s = if exists s.tree p then (true, s) else mkdir p s

  unfoldable pub ensure_tasks_dir : FilePath → Store → Bool × Store
  ensure_tasks_dir repo s =
      and_then (ensure_dir (get_tasks_dir repo ++ (lit "archive" ∷ [])))
        (ensure_dir (get_tasks_dir repo) s)

  -- `p.rmdir()`, whose OSError is caught.
  unfoldable pub rmdir : FilePath → Store → Store
  rmdir p s =
      if host.lands s.writes && is_empty (list_dir p s.tree)
      then (with_tree (remove_tree p s.tree) s).1
      else record s { writes = suc s.writes }

  abbrev pub write_new : FilePath → Text → Store → Bool × Store
  write_new p new s = if exists s.tree p then (true, s) else write_text host p new s

  -- The parent's task.json, if it does not list the task yet.
  abbrev pub list_child : FilePath → FilePath → Fields → Store → Bool × Store
  list_child task p pd s =
      if lists (path_name task) (children_of pd)
      then (true, s)
      else write_json host p (add_child (path_name task) pd) s

module _ (repo : FilePath) (run : CreateRun) where
  -- The session, unless `--no-start` was given.
  unfoldable pub activate : FilePath → Store → Store
  activate task s =
      if run.no_start then s else elim (resolve_context_key run.io.proc run.tickets end none true) [
        | none ↦ s
        | some key ↦ record s {
          sessions =
              (set_active_task run.io repo run.tickets (repo_relative_path task repo) end none
                s.sessions).1;
        }
      ]

  abbrev pub finish : FilePath → Store → Exit × Store
  finish task s = (done, activate task s)

abbrev pub dir_name : CreateRun → Draft → Text
dir_name run draft = run.date_prefix ++ (b'-' ∷ draft.slug)

module _ (host : Host) (repo : FilePath) (run : CreateRun) where
  abbrev pub link_parent : FilePath → Draft → Parent → Store → Exit × Store
  link_parent task draft (link_to p pd) s =
      or_refuse not_linked
        (λ u. or_refuse half_written (finish repo run task) (
          write_json host task (assign (lit "parent") (str (path_name p)) (task_data run draft)) u))
        (list_child host task p pd s)
  link_parent task draft no_link s = finish repo run task s
  link_parent task draft (broken problem) s = (refused problem, s)

  -- The files beside the task.json.
  unfoldable pub write_beside : FilePath → Store → Bool × Store
  write_beside task s =
      let jsonl = λ (name : Text) (u : Store). write_new host (task ++ (name ∷ [])) [] u in
      let prd =
        write_new host (task ++ (lit "prd.md" ∷ []))
          (default_prd_content run.title (some (strip_blank run.description))) s in
      if has_subagent_platform s.tree repo run.config
      then and_then (jsonl (lit "check.jsonl")) (and_then (jsonl (lit "implement.jsonl")) prd)
      else prd

  abbrev pub create_written : FilePath → Draft → Parent → Bool → Bool × Store → Exit × Store
  create_written task draft parent created (false, s) =
      (refused not_written, if created then rmdir host task s else s)
  create_written task draft parent created (true, s) =
      or_crash (link_parent task draft parent) (write_beside task s)

  abbrev pub create_in : FilePath → Draft → Parent → Bool → Store → Exit × Store
  create_in task draft parent created s =
      create_written task draft parent created (write_json host task (task_data run draft) s)

  abbrev pub create_free : FilePath → Draft → Parent → Option FilePath → Store → Exit × Store
  create_free task draft parent (some archived) s = (refused already_archived, s)
  create_free task draft parent none s =
      if exists s.tree task
      then (if run.force then create_in task draft parent false s else (refused already_there, s))
      else or_crash (create_in task draft parent true) (mkdir host task s)

  abbrev pub create_linked : Draft → Parent → Store → Exit × Store
  create_linked draft (broken problem) s = (refused problem, s)
  create_linked draft parent s =
      create_free (get_tasks_dir repo ++ (dir_name run draft ∷ [])) draft parent
        (find_archived_task s.tree (get_tasks_dir repo) (dir_name run draft)) s

  abbrev pub create_named : (Text → Draft) → Option Text → Store → Exit × Store
  create_named draft none s = (refused bad_slug, s)
  create_named draft (some slug) s =
      create_linked (draft slug) (parent_of host repo s.tree (truthy run.parent)) s

  abbrev pub create_owned : Fields → Option Text → Option Text → Store → Exit × Store
  create_owned meta chosen none s = (refused no_developer, s)
  create_owned meta chosen (some assignee) s =
      or_crash
        (create_named
          (λ slug. record {
            meta = meta;
            package_name = chosen;
            assignee = assignee;
            creator = text_or (truthy run.developer) assignee;
            slug = slug;
          })
          (create_slug run.wide run.slug run.title run.date_prefix))
        (ensure_tasks_dir host repo s)

  abbrev pub create_packaged : Fields → Option (Option Text) → Store → Exit × Store
  create_packaged meta none s = (refused bad_package, s)
  create_packaged meta (some chosen) s =
      create_owned meta chosen (or_else_text (truthy run.assignee) (truthy run.developer)) s

  abbrev pub create_described : Option Fields → Store → Exit × Store
  create_described none s = (refused bad_meta, s)
  create_described (some meta) s = create_packaged meta (package_of run) s

  unfoldable pub cmd_create : Store → Exit × Store
  cmd_create s =
      if is_empty (strip_blank (some run.title))
      then (refused no_title, s)
      else if is_empty (strip_blank run.description)
      then (refused no_description, s)
      else create_described (parse_meta_pairs run.meta end) s
