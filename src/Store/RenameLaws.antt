-- ===== src/Store/RenameLaws.antt =====
-- .trellis/scripts/common/task_store.py: what a rename that is done has made of the task and of the others.
use taihu.Base.{
  lit, ◌≡◌, refl, ap, sym, ◌∙◌, arith, Bool, true, false, Bool-cases, inl, inr, Option, none, some,
  List, [], ◌∷◌, ◌++◌, Text, is_empty,
}
use taihu.Json.{obj, Fields}
use taihu.Files.Tree.{FilePath, NodeOf, find, same_path, TreeOf, exists, list_dir, relative_to}
use taihu.Files.Move.{find-move_tree, find-move_tree_elsewhere, relative_to-append}
use taihu.Files.Laws.{IsRooted, same_path_iff}
use taihu.Tasks.Info.{Read, parsed}
use taihu.Tasks.Dirs.{get_tasks_dir, path_name}
use taihu.Active.Sessions.{Io}
use taihu.Active.Pointer.{repoint_task_in_sessions}
use taihu.Store.State.{
  Content, json, Store, Host, file_task_json, doc_of, doc_at, put_doc, doc_at-put_doc, done,
  refused, not_moved,
}
use taihu.Store.Archiving.{path_text}
use taihu.Store.Renaming.{
  RenamePlan, plan_rename, repo_relative_path, with_identity, changed_fields,
  rename_identity_fields, and_then, write_files, write_changes, write_identity, move_dir,
  changes_written, identity_written, apply_rename,
}
use taihu.Store.BackrefLaws.{among, RewrittenAt, write_changes-RewrittenAt}
use taihu.Store.ShapeLaws.{
  SameShape, SameShape-refl, set_node-SameShape, SameShape-IsFree, Wrote, and_then-Wrote,
  write_json-Wrote, write_changes-SameShape, write_files-SameShape,
}
use taihu.Store.PlanLaws.{
  write_changes-sessions, write_files-sessions, doc_at-IsFile, plan_backrefs-Present,
  plan_jsonl_rewrites-Sound, write_files-doc,
}
use taihu.Store.ContextLaws.{
  is_document, NodesAre, context_files, with_replaced, put_doc-NodesAre, write_changes-NodesAre,
  write_files-NodesAre, with_replaced-elsewhere,
}
use taihu.Store.IdentityLaws.{Identified, with_identity-Identified, no_change-Identified}

-- The task itself is none of the other tasks.
among_self :
    (t : TreeOf Content) (tasks task : FilePath) (names : List Text)
    → among t tasks task task names ≡ false
unfolding among
among_self t tasks task [] = refl
among_self t tasks task (name ∷ names) = ground (arith, among_self t tasks task names)

not_below :
    (p q : FilePath) → relative_to p (q ++ (file_task_json ∷ [])) ≡ none → same_path p q ≡ false
not_below p q h = elim (Bool-cases (same_path p q)) [
  | inr e ↦ e
  | inl e ↦
      let path : p ≡ q = (same_path_iff p q).0 e in
      let k : none ≡ some (file_task_json ∷ []) =
        sym (rw path at h) ∙ relative_to-append q (file_task_json ∷ []) in
      cc
]

module _ (host : Host) (repo task new_dir : FilePath) (slug : Text) (d : Fields) (s : Store) where
  abbrev plan : RenamePlan
  plan = plan_rename repo task new_dir slug d s

  abbrev tasks : FilePath
  tasks = get_tasks_dir repo

  abbrev renamed : Fields
  renamed = with_identity slug (changed_fields slug d rename_identity_fields) d

  record AfterIdentity (u : Store) : Type 0 where
    shape : SameShape s.tree u.tree
    here : doc_at task u.tree ≡ some (parsed (obj renamed))
    there : (q : FilePath) → same_path task q ≡ false → doc_at q u.tree ≡ doc_at q s.tree
    nodes : NodesAre (λ q. find q s.tree) u
    sessions : u.sessions ≡ s.sessions

  write_identity-AfterIdentity :
      doc_at task s.tree ≡ some (parsed (obj d)) → Wrote AfterIdentity (write_identity host plan s)
  unfolding write_identity put_doc
  write_identity-AfterIdentity f =
      elim (Bool-cases (is_empty (changed_fields slug d rename_identity_fields))) [
        | inl e ↦ rw e (λ w. record {
          shape = SameShape-refl s.tree;
          here = rw (no_change-Identified slug d e) f;
          there = λ q n. refl;
          nodes = λ q n. refl;
          sessions = refl;
        })
        | inr e ↦
            let file_path = task ++ (file_task_json ∷ []) in
            rw e (
              write_json-Wrote host AfterIdentity task renamed s (record {
                nodes = put_doc-NodesAre task renamed s;
                shape =
                    set_node-SameShape file_path (json (parsed (obj renamed))) s.tree
                      (doc_at-IsFile task (parsed (obj d)) s.tree f);
                here =
                    rw (doc_at-put_doc task task renamed s.tree, (same_path_iff task task).1 refl)
                      refl;
                there = λ q n. rw (doc_at-put_doc task q renamed s.tree, n) refl;
                sessions = refl;
              }))
      ]

  -- The references to the old name of the task, by which `u` differs from the document `o`.
  abbrev pub OtherRewritten : FilePath → Option Read → Type 0
  OtherRewritten q u =
      RewrittenAt (path_name task) (path_name new_dir) tasks task s.tree q (doc_at q s.tree) u

  -- What a path that is no task.json leads to after the writes: in the two context files of the task,
  -- the path of the task with a slash behind it is replaced wherever it stands in a line, and all else
  -- is as it was.
  abbrev pub rewritten_node : FilePath → Option (NodeOf Content)
  rewritten_node =
      with_replaced (repo_relative_path task repo ++ lit "/")
        (repo_relative_path new_dir repo ++ lit "/") task s.tree context_files

  record AfterWrites (u : Store) : Type 0 where
    shape : SameShape s.tree u.tree
    here : doc_at task u.tree ≡ some (parsed (obj renamed))
    there : (q : FilePath) → same_path task q ≡ false → OtherRewritten q (doc_at q u.tree)
    nodes : NodesAre rewritten_node u
    sessions : u.sessions ≡ s.sessions

  record AfterFiles (u : Store) : Type 0 where
    shape : SameShape s.tree u.tree
    here : doc_at task u.tree ≡ some (parsed (obj renamed))
    there : (q : FilePath) → same_path task q ≡ false → doc_at q u.tree ≡ doc_at q s.tree
    nodes : NodesAre rewritten_node u
    sessions : u.sessions ≡ s.sessions

  write_files-AfterFiles :
      (u : Store) → AfterIdentity u → Wrote AfterFiles (write_files host plan.jsonl u)
  write_files-AfterFiles u a = λ h.
      let (files, beside) =
        plan_jsonl_rewrites-Sound (repo_relative_path task repo) (repo_relative_path new_dir repo)
          task s.tree in
      record {
        shape = write_files-SameShape host s.tree plan.jsonl u files a.shape h;
        here = write_files-doc host task task plan.jsonl u beside h ∙ a.here;
        there = λ q n. write_files-doc host task q plan.jsonl u beside h ∙ a.there q n;
        nodes =
            write_files-NodesAre host (repo_relative_path task repo)
              (repo_relative_path new_dir repo) task s.tree u a.nodes h;
        sessions = write_files-sessions host plan.jsonl u h ∙ a.sessions;
      }

  write_changes-AfterWrites :
      (u : Store) → AfterFiles u → Wrote AfterWrites (write_changes host plan.backrefs u)
  write_changes-AfterWrites u a = λ h.
      let rewritten = λ (q : FilePath).
        write_changes-RewrittenAt (path_name task) (path_name new_dir) host tasks task s.tree u q
          h in
      record {
        shape =
            write_changes-SameShape host s.tree plan.backrefs u
              (plan_backrefs-Present s.tree tasks task (path_name task) (path_name new_dir)) a.shape
              h;
        here =
            (rewritten task).elsewhere (among_self s.tree tasks task (list_dir tasks s.tree))
            ∙ a.here;
        there = λ q n. rw (a.there q n) at (rewritten q);
        nodes = write_changes-NodesAre host rewritten_node plan.backrefs u a.nodes h;
        sessions = write_changes-sessions host plan.backrefs u h ∙ a.sessions;
      }

  -- The task lies at the new path with the slug in its identity fields and nothing else changed, each
  -- other task refers to the new name in place of the old one and has changed in nothing else, whatever
  -- else was in the task's directory is at the same place in the new one, with the references in the
  -- lines of the context files replaced, what is no task.json outside of the two is as it was, and the
  -- sessions point to the new path.
  pub record Renamed (io : Io) (u : Store) : Type 0 where
    pub document : Fields
    pub moved : doc_at new_dir u.tree ≡ some (parsed (obj document))
    pub identified : Identified slug d document
    pub others :
        (q : FilePath)
        → relative_to task (q ++ (file_task_json ∷ [])) ≡ none
        → relative_to new_dir (q ++ (file_task_json ∷ [])) ≡ none
        → OtherRewritten q (doc_at q u.tree)
    pub carried :
        (r : FilePath)
        → is_document (task ++ r) ≡ false
        → find (new_dir ++ r) u.tree ≡ rewritten_node (task ++ r)
    pub elsewhere :
        (q : FilePath)
        → relative_to task q ≡ none
        → relative_to new_dir q ≡ none
        → is_document q ≡ false
        → find q u.tree ≡ find q s.tree
    pub sessions :
        u.sessions
        ≡ (repoint_task_in_sessions io repo (path_text task) (path_text new_dir) s.sessions).1

  move_dir-Renamed :
      (io : Io) (u : Store)
      → IsRooted s.tree
      → exists s.tree new_dir ≡ false
      → AfterWrites u
      → (move_dir host io repo plan u).0 ≡ done
      → Renamed io (move_dir host io repo plan u).1
  unfolding doc_at
  move_dir-Renamed io u r free a h = elim (Bool-cases (host.lands u.writes)) [
    | inr l ↦ let k : refused not_moved ≡ done = rw l at h in cc
    | inl l ↦ rw l (record {
      document = renamed;
      moved =
          ap doc_of (
            find-move_tree task new_dir (file_task_json ∷ []) u.tree
              (SameShape-IsFree new_dir a.shape r free))
          ∙ a.here;
      identified = with_identity-Identified slug d;
      others = λ q x y.
          rw
            (ap doc_of
              (find-move_tree_elsewhere task new_dir (q ++ (file_task_json ∷ [])) u.tree x y))
            (a.there q (not_below task q x));
      carried = λ p n.
          find-move_tree task new_dir p u.tree (SameShape-IsFree new_dir a.shape r free)
          ∙ a.nodes (task ++ p) n;
      elsewhere = λ q x y n.
          find-move_tree_elsewhere task new_dir q u.tree x y
          ∙ (a.nodes q n
              ∙ with_replaced-elsewhere (repo_relative_path task repo ++ lit "/")
                  (repo_relative_path new_dir repo ++ lit "/") task s.tree context_files q x);
      sessions =
          ap (λ x. (repoint_task_in_sessions io repo (path_text task) (path_text new_dir) x).1)
            a.sessions;
    })
  ]

  changes_written-Renamed :
      (io : Io) (x : Bool × Store)
      → IsRooted s.tree
      → exists s.tree new_dir ≡ false
      → Wrote AfterWrites x
      → (changes_written host io repo plan x).0 ≡ done
      → Renamed io (changes_written host io repo plan x).1
  changes_written-Renamed io (false, u) r free a h = cc
  changes_written-Renamed io (true, u) r free a h = move_dir-Renamed io u r free (a refl) h

  identity_written-Renamed :
      (io : Io) (x : Bool × Store)
      → IsRooted s.tree
      → exists s.tree new_dir ≡ false
      → Wrote AfterIdentity x
      → (identity_written host io repo plan x).0 ≡ done
      → Renamed io (identity_written host io repo plan x).1
  identity_written-Renamed io (false, u) r free a h = cc
  identity_written-Renamed io (true, u) r free a h =
      changes_written-Renamed io
        (and_then (write_changes host plan.backrefs) (write_files host plan.jsonl u)) r free
        (and_then-Wrote AfterFiles AfterWrites (write_changes host plan.backrefs)
          (write_files host plan.jsonl u) (write_files-AfterFiles u (a refl))
          write_changes-AfterWrites)
        h

  pub apply_rename-Renamed :
      (io : Io)
      → IsRooted s.tree
      → exists s.tree new_dir ≡ false
      → doc_at task s.tree ≡ some (parsed (obj d))
      → (apply_rename host io repo plan s).0 ≡ done
      → Renamed io (apply_rename host io repo plan s).1
  unfolding apply_rename
  apply_rename-Renamed io r free f h =
      identity_written-Renamed io (write_identity host plan s) r free
        (write_identity-AfterIdentity f) h
