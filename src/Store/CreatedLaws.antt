-- ===== src/Store/CreatedLaws.antt =====
-- .trellis/scripts/common/task_store.py: a create from the place of the task on.
use taihu.Base.{
  suc, ◌≡◌, refl, ◌∙◌, Bool, true, false, Bool-cases, inl, inr, ◌⊎◌, Option, none, some, [], ◌∷◌,
  Text, ◌++◌, if◌then◌else◌,
}
use taihu.Files.Tree.{FilePath, TreeOf, exists}
use taihu.Files.Laws.{IsRooted, same_path_iff}
use taihu.Tasks.Dirs.{get_tasks_dir, resolve_task_dir}
use taihu.Store.State.{
  disk_of, Content, Store, Host, put_doc, doc_at-put_doc, write_json, Exit, done, refused, crashed,
  already_there,
}
use taihu.Store.Slugs.{create_slug}
use taihu.Store.ShapeLaws.{Wrote}
use taihu.Config.Packages.{truthy}
use taihu.Store.Drafts.{CreateRun, Draft, task_data, Parent, no_link, link_to, broken}
use taihu.Store.Creating.{
  ensure_tasks_dir, or_crash, mkdir, write_beside, link_parent, create_written, create_in,
  create_free, dir_name,
}
use taihu.Store.MadeLaws.{SameDocs, MadeIn, MadeIn-trans, mkdir-MadeIn, not_there_before}
use taihu.Store.CreateLaws.{
  Linked, LinkedOr, WasRead, JustWritten, IsLate, link_parent-Linked, write_beside-SameDocs,
}
use taihu.Store.RmdirLaws.{rmdir-SameDocs}

-- What the parent is by `--parent`: nothing without it, and with it the task that the argument
-- resolves to in the tree. A problem ends the command.
abbrev pub AskedFor : Host → FilePath → TreeOf Content → Option Text → Parent → Type 0
AskedFor host repo tree none no_link = Unit
AskedFor host repo tree none (link_to p pd) = ⊥
AskedFor host repo tree (some name) no_link = ⊥
AskedFor host repo tree (some name) (link_to p pd) =
    resolve_task_dir (disk_of host tree) name repo ≡ some p
AskedFor host repo tree o (broken problem) = Unit

-- The tree in which the parent is looked up: the one with the tasks' directories.
abbrev pub looked_in : Host → FilePath → Store → TreeOf Content
looked_in host repo s = (ensure_tasks_dir host repo s).1.tree

module _ (host : Host) (repo : FilePath) (run : CreateRun) (s : Store) where
  abbrev pub task_of : Draft → FilePath
  task_of draft = get_tasks_dir repo ++ (dir_name run draft ∷ [])

  -- The task stands directly below the tasks' directory, under the day and the slug; nothing stood
  -- there before unless the command was forced, and the parent is linked that `--parent` resolves to.
  pub record Created (u : TreeOf Content) : Type 0 where
    pub draft : Draft
    pub parent : Parent
    pub slug_made : create_slug run.wide run.slug run.title run.date_prefix ≡ some draft.slug
    pub free : (exists s.tree (task_of draft) ≡ false) ⊎ (run.force ≡ true)
    pub asked : AskedFor host repo (looked_in host repo s) (truthy run.parent) parent
    pub linked : Linked host repo run s (task_of draft) draft parent u

  -- How the command ends: with a task that is as asked for, with every task.json and the sessions as
  -- they were, or with a problem that comes up when the task is there already.
  abbrev pub Outcome : Exit × Store → Type 0
  Outcome (done, u) = Created u.tree
  Outcome (refused p, u) = (SameDocs s.tree u.tree × (u.sessions ≡ s.sessions)) ⊎ IsLate (refused p)
  Outcome (crashed, u) = Unit

  module _ (rooted : IsRooted s.tree) (draft : Draft) (parent : Parent) where
    -- The slug, the place and the parent of the task are as asked for.
    abbrev pub Asked : Type 0
    Asked =
        (create_slug run.wide run.slug run.title run.date_prefix ≡ some draft.slug)
        × (AskedFor host repo (looked_in host repo s) (truthy run.parent) parent)
        × WasRead host repo run s (task_of draft) draft parent

    abbrev pub Free : Type 0
    Free = (exists s.tree (task_of draft) ≡ false) ⊎ (run.force ≡ true)

    finished :
        (x : Exit × Store)
        → Asked
        → Free
        → LinkedOr host repo run s (task_of draft) draft parent x
        → Outcome x
    finished (done, u) (m, a, r) f l = record {
      draft = draft;
      parent = parent;
      slug_made = m;
      free = f;
      asked = a;
      linked = l;
    }
    finished (refused p, u) asked f l = inr l
    finished (crashed, u) asked f l = tt

    beside_written :
        (x : Bool × Store)
        → Asked
        → Free
        → Wrote (JustWritten host repo run s (task_of draft) draft) x
        → Outcome (or_crash (link_parent host repo run (task_of draft) draft parent) x)
    beside_written (false, u) asked f w = tt
    beside_written (true, u) (m, a, r) f w =
        finished (link_parent host repo run (task_of draft) draft parent u) (m, a, r) f
          (link_parent-Linked host repo run s (task_of draft) draft parent u r (w refl))

    create_in-Outcome :
        (created : Bool) (u : Store)
        → MadeIn s u
        → Asked
        → Free
        → (created ≡ true → exists s.tree (task_of draft) ≡ false)
        → Outcome (create_in host repo run (task_of draft) draft parent created u)
    unfolding write_json
    create_in-Outcome created u made asked f new = elim (Bool-cases (host.lands u.writes)) [
      | inl l ↦
          let task = task_of draft in
          let d = task_data run draft in
          let v : Store = record u { tree = put_doc task d u.tree; writes = suc u.writes } in
          rw l (
            beside_written (write_beside host repo run task v) asked f (λ w.
              let (same, sessions) = write_beside-SameDocs host repo run task v w in
              (
                same task
                    ∙ rw (doc_at-put_doc task task d u.tree, (same_path_iff task task).1 refl) refl,
                λ q n. same q ∙ (rw (doc_at-put_doc task q d u.tree, n) (made.tree.docs q)),
              )))
      | inr l ↦ rw l (undone created new)
    ]
      where
        undone :
            (b : Bool)
            → (b ≡ true → exists s.tree (task_of draft) ≡ false)
            → Outcome (
                create_written host repo run
                  (task_of draft)
                  draft
                  parent
                  b
                  (false, record u { writes = suc u.writes }))
        undone true n =
            let v : Store = record u { writes = suc u.writes } in
            let (same, sessions) =
              rmdir-SameDocs host (task_of draft) s.tree v rooted (n refl) made.tree.docs in
            inl (same, sessions ∙ made.sessions)
        undone false n = inl (made.tree.docs, made.sessions)

    dir_made :
        (x : Bool × Store)
        → Wrote (MadeIn s) x
        → Asked
        → exists s.tree (task_of draft) ≡ false
        → Outcome (or_crash (create_in host repo run (task_of draft) draft parent true) x)
    dir_made (false, u) made asked free = tt
    dir_made (true, u) made asked free =
        create_in-Outcome true u (made refl) asked (inl free) (λ e. free)

    pub create_free-Outcome :
        (o : Option FilePath) (u : Store)
        → MadeIn s u
        → Asked
        → Outcome (create_free host repo run (task_of draft) draft parent o u)
    create_free-Outcome (some archived) u made asked = inl (made.tree.docs, made.sessions)
    create_free-Outcome none u made asked = elim (Bool-cases (exists u.tree (task_of draft))) [
      | inl e ↦ rw e (forced run.force refl)
      | inr e ↦ rw e (
          dir_made (mkdir host (task_of draft) u)
            (λ w. MadeIn-trans made (mkdir-MadeIn host (task_of draft) u w)) asked
            (not_there_before (get_tasks_dir repo) (dir_name run draft) made.tree e))
    ]
      where
        forced :
            (b : Bool)
            → run.force ≡ b
            → Outcome (
                if b
                then create_in host repo run (task_of draft) draft parent false u
                else (refused already_there, u))
        forced true f =
            create_in-Outcome false u made asked (inr f) (λ x. let c : false ≡ true = x in cc)
        forced false f = inl (made.tree.docs, made.sessions)
