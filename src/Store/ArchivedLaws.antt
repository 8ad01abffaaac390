-- ===== src/Store/ArchivedLaws.antt =====
-- .trellis/scripts/common/task_store.py: what an archive that is done has written.
use taihu.Base.{
  suc, ◌≡◌, refl, ap, ◌∙◌, inl, inr, arith, Bool-cases, Option, none, some, List, [], ◌∷◌, ◌++◌,
  Text, lit, ◌==◌, is_empty,
}
use taihu.Json.{Json, str, obj, Fields, get, assign, get-assign}
use taihu.Files.Tree.{FilePath, NodeOf, dir, file, TreeOf, find, node_at, is_dir, exists, set_node}
use taihu.Files.Laws.{IsRooted, set_node-IsRooted, same_path_iff}
use taihu.Tasks.Info.{Read, parsed, read, read_json_checked}
use taihu.Tasks.Dirs.{get_tasks_dir, resolve_task_dir, is_within_tasks_dir}
use taihu.Tasks.Archive.{archive_destination_for, archive_task_dir, archive_task_dir-find}
use taihu.Store.State.{
  Content, json, text, Store, Host, disk_of, file_task_json, doc_at, doc_of, put_doc,
  doc_at-put_doc, write_json, done, refused, missing_argument, outside, not_a_task, already_there,
  bad_branch, not_written,
}
use taihu.Store.Unlinking.{
  look_up, child_names, Ended, finished, stopped, failed_on_type, unlink_children,
}
use taihu.Store.OrphanLaws.{OnlyOrphaned, Stable, Ends, unlink_children-Stable, OnlyOrphaned-Stable}
use taihu.Store.Archiving.{
  ArchiveRun, cmd_archive, archive_resolved, archive_doc, archive_marked, archive_children,
  archive_unlinked, archive_move, commit_moved, completed, validate_branch_metadata,
}

doc_of-parsed :
    (o : Option (NodeOf Content)) (d : Fields)
    → doc_of o ≡ some (parsed (obj d))
    → o ≡ some (file (json (parsed (obj d))))
doc_of-parsed none d h = cc
doc_of-parsed (some dir) d h = cc
doc_of-parsed (some (file (json r))) d h = cc
doc_of-parsed (some (file (text t))) d h = ground arith

replace-IsRooted :
    (a : Text) (p : FilePath) (b c : Content) (t : TreeOf Content)
    → IsRooted t
    → find (a ∷ p) t ≡ some (file b)
    → IsRooted (set_node (a ∷ p) (file c) t)
unfolding exists is_dir node_at
replace-IsRooted a p b c t r h =
    set_node-IsRooted a p (file c) t r (r.parents (a ∷ p) (rw h refl)) (inl (rw h refl))

-- A task.json that is there is written anew.
put_doc-IsRooted :
    (p : FilePath) (d e : Fields) (t : TreeOf Content)
    → doc_at p t ≡ some (parsed (obj e))
    → IsRooted t
    → IsRooted (put_doc p d t)
unfolding doc_at put_doc
put_doc-IsRooted [] d e t h r =
    replace-IsRooted file_task_json [] (json (parsed (obj e))) (json (parsed (obj d))) t r
      (doc_of-parsed (find (file_task_json ∷ []) t) e h)
put_doc-IsRooted (a ∷ p) d e t h r =
    replace-IsRooted a (p ++ (file_task_json ∷ [])) (json (parsed (obj e))) (json (parsed (obj d)))
      t r (doc_of-parsed (find (a ∷ (p ++ (file_task_json ∷ []))) t) e h)

IsRooted-Stable : Stable IsRooted
IsRooted-Stable q d t h r = put_doc-IsRooted q _ d t h r

module _ (host : Host) (repo : FilePath) (run : ArchiveRun) (task : FilePath) where
  abbrev dest : FilePath
  dest = archive_destination_for run.year_month task

  commit_moved-store :
      (modified : List Text) (o : Option FilePath) (s : Store)
      → (commit_moved host repo run task modified o s).1 ≡ s
  commit_moved-store modified none s = refl
  commit_moved-store modified (some d) s = ground arith

  commit_moved-done :
      (modified : List Text) (o : Option FilePath) (s : Store)
      → (commit_moved host repo run task modified o s).0 ≡ done
      → (d : FilePath) × (o ≡ some d)
  commit_moved-done modified none s h = cc
  commit_moved-done modified (some d) s h = (d, refl)

  archive_move-doc :
      (modified : List Text) (e : Fields) (s : Store)
      → IsRooted s.tree
      → doc_at task s.tree ≡ some (parsed (obj e))
      → (archive_move host repo run task modified s).0 ≡ done
      → doc_at dest (archive_move host repo run task modified s).1.tree ≡ some (parsed (obj e))
  unfolding archive_move doc_at
  archive_move-doc modified e s r f h =
      let (d, o) = commit_moved-done modified (archive_task_dir run.year_month task s.tree).0 _ h in
      let node = doc_of-parsed (find (task ++ (file_task_json ∷ [])) s.tree) e f in
      let (same, there) =
        archive_task_dir-find run.year_month task d (file_task_json ∷ []) _ s.tree r o node in
      rw (commit_moved-store modified (archive_task_dir run.year_month task s.tree).0 _)
        (rw same at (ap doc_of there))

  -- The document in the archive, with the fields that the first one has for two keys.
  abbrev Kept : Fields → TreeOf Content → Type 0
  Kept d t =
      (e : Fields) × (doc_at dest t ≡ some (parsed (obj e)))
      × (get (lit "status") e ≡ get (lit "status") d)
      × (get (lit "completedAt") e ≡ get (lit "completedAt") d)

  orphaned_doc :
      (d : Fields) (o u : Option Read)
      → OnlyOrphaned o u
      → o ≡ some (parsed (obj d))
      → (e : Fields) × (u ≡ some (parsed (obj e)))
        × (get (lit "status") e ≡ get (lit "status") d)
        × (get (lit "completedAt") e ≡ get (lit "completedAt") d)
  unfolding ◌==◌
  orphaned_doc d o u (inl e) h = (d, e ∙ h, refl, refl)
  orphaned_doc d o u (inr (x, e, f, g, n, same)) h =
      let y : x ≡ d = cc in
      (e, g, rw y at (same (lit "status") refl), rw y at (same (lit "completedAt") refl))

  archive_unlinked-Kept :
      (d : Fields) (t : TreeOf Content) (x : Ended)
      → Ends IsRooted x
      → Ends (λ u. OnlyOrphaned (doc_at task t) (doc_at task u)) x
      → doc_at task t ≡ some (parsed (obj d))
      → (archive_unlinked host repo run task x).0 ≡ done
      → Kept d (archive_unlinked host repo run task x).1.tree
  archive_unlinked-Kept d t (stopped links s) r o f h = cc
  archive_unlinked-Kept d t (failed_on_type s) r o f h = cc
  archive_unlinked-Kept d t (finished modified s) r o f h =
      let (e, there, status, at_time) = orphaned_doc d (doc_at task t) (doc_at task s.tree) o f in
      (e, archive_move-doc modified e s r there h, status, at_time)

  archive_children-Kept :
      (d : Fields) (names : Option (List Json)) (s : Store)
      → IsRooted s.tree
      → doc_at task s.tree ≡ some (parsed (obj d))
      → (archive_children host repo run task names s).0 ≡ done
      → Kept d (archive_children host repo run task names s).1.tree
  archive_children-Kept d none s r f h = cc
  archive_children-Kept d (some names) s r f h =
      let look = λ (v : Json). look_up (disk_of host s.tree) v (get_tasks_dir repo) in
      archive_unlinked-Kept d s.tree (unlink_children host look names [] [] s)
        (unlink_children-Stable host look IsRooted IsRooted-Stable names [] [] s r)
        (unlink_children-Stable host look (λ u. OnlyOrphaned (doc_at task s.tree) (doc_at task u))
          (OnlyOrphaned-Stable task s.tree) names [] [] s (inl refl))
        f h

  completed-fields :
      (today : Text) (d : Fields)
      → (get (lit "status") (completed today d) ≡ some (str (lit "completed")))
        × (get (lit "completedAt") (completed today d) ≡ some (str today))
  unfolding completed ◌==◌
  completed-fields today d = (
    rw
        (get-assign (lit "completedAt") (lit "status") (str today)
          (assign (lit "status") (str (lit "completed")) d))
        (rw (get-assign (lit "status") (lit "status") (str (lit "completed")) d) refl),
    rw
        (get-assign (lit "completedAt") (lit "completedAt") (str today)
          (assign (lit "status") (str (lit "completed")) d))
        refl,
  )

  -- The document in the archive says that the task was completed on the day of the run.
  abbrev pub Completed : TreeOf Content → Type 0
  Completed t =
      (e : Fields) × (doc_at dest t ≡ some (parsed (obj e)))
      × (get (lit "status") e ≡ some (str (lit "completed")))
      × (get (lit "completedAt") e ≡ some (str run.today))

  archive_marked-Completed :
      (d : Fields) (s : Store)
      → IsRooted s.tree
      → doc_at task s.tree ≡ some (parsed (obj d))
      → (archive_marked host repo run task
          (completed run.today d)
          (write_json host task (completed run.today d) s)).0
        ≡ done
      → Completed
          (archive_marked host repo run task
            (completed run.today d)
            (write_json host task (completed run.today d) s)).1.tree
  unfolding write_json
  archive_marked-Completed d s r f h = elim (Bool-cases (host.lands s.writes)) [
    | inr b ↦ let k : refused not_written ≡ done = rw b at h in cc
    | inl b ↦
        let new = completed run.today d in
        let after : Store = record s { tree = put_doc task new s.tree; writes = suc s.writes } in
        let here : doc_at task (put_doc task new s.tree) ≡ some (parsed (obj new)) =
          rw (doc_at-put_doc task task new s.tree, (same_path_iff task task).1 refl) refl in
        let (e, there, status, at_time) =
          archive_children-Kept new (child_names new) after (put_doc-IsRooted task new d s.tree f r)
            here (rw b at h) in
        let (x, y) = completed-fields run.today d in rw b (e, there, status ∙ x, at_time ∙ y)
  ]

  archive_doc-Completed :
      (d : Fields) (s : Store)
      → IsRooted s.tree
      → doc_at task s.tree ≡ some (parsed (obj d))
      → read_json_checked (parsed (obj d)) ≡ read d
      → (archive_doc host repo run task (doc_at task s.tree) s).0 ≡ done
      → Completed (archive_doc host repo run task (doc_at task s.tree) s).1.tree
  archive_doc-Completed d s r f c h =
      elim (Bool-cases (validate_branch_metadata d run.skip_branch_validation run.has_remote)) [
        | inl b ↦ rw (f, c, b) (archive_marked-Completed d s r f (rw (f, c, b) at h))
        | inr b ↦ let k : refused bad_branch ≡ done = rw (f, c, b) at h in cc
      ]

  archive_resolved-Completed :
      (d : Fields) (s : Store)
      → IsRooted s.tree
      → doc_at task s.tree ≡ some (parsed (obj d))
      → read_json_checked (parsed (obj d)) ≡ read d
      → (archive_resolved host repo run (some task) s).0 ≡ done
      → Completed (archive_resolved host repo run (some task) s).1.tree
  unfolding archive_resolved
  archive_resolved-Completed d s r f c h = elim (Bool-cases (is_dir s.tree task)) [
    | inr a ↦ let k : refused not_a_task ≡ done = rw a at h in cc
    | inl a ↦ elim (Bool-cases (is_within_tasks_dir (disk_of host s.tree) task repo)) [
      | inr b ↦ let k : refused outside ≡ done = rw (a, b) at h in cc
      | inl b ↦ elim (Bool-cases (exists s.tree dest)) [
        | inl x ↦ let k : refused already_there ≡ done = rw (a, b, x) at h in cc
        | inr x ↦ rw (a, b, x) (archive_doc-Completed d s r f c (rw (a, b, x) at h))
      ]
    ]
  ]

  -- An archive of a task whose file can be read, once it is done, has that file in the archive, with
  -- the status `completed` and the day.
  pub cmd_archive-Completed :
      (d : Fields) (s : Store)
      → IsRooted s.tree
      → resolve_task_dir (disk_of host s.tree) run.name repo ≡ some task
      → doc_at task s.tree ≡ some (parsed (obj d))
      → read_json_checked (parsed (obj d)) ≡ read d
      → (cmd_archive host repo run s).0 ≡ done
      → Completed (cmd_archive host repo run s).1.tree
  unfolding cmd_archive
  cmd_archive-Completed d s r t f c h = elim (Bool-cases (is_empty run.name)) [
    | inl a ↦ let k : refused missing_argument ≡ done = rw a at h in cc
    | inr a ↦ rw (a, t) (archive_resolved-Completed d s r f c (rw (a, t) at h))
  ]
