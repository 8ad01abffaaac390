-- ===== src/Store/CreateLaws.antt =====
-- .trellis/scripts/common/task_store.py: what a create that is done has written, and what a refused one
-- leaves alone.
use taihu.Base.{
  ◌≡◌, refl, ◌∙◌, Bool, true, false, Bool-cases, inl, inr, none, some, Option-cases, [], ◌∷◌, ◌++◌,
  Text, lit, ◌==◌,
}
use taihu.Json.{str, obj, Fields, end, assign}
use taihu.Files.Tree.{FilePath, same_path, TreeOf, exists}
use taihu.Files.Laws.{same_path_iff}
use taihu.Tasks.Info.{parsed}
use taihu.Tasks.Dirs.{path_name}
use taihu.Active.Tickets.{resolve_context_key}
use taihu.Store.State.{
  Content, text, Store, Host, file_task_json, doc_at, doc_at-put_doc, write_json, Exit, done,
  refused, crashed, not_linked, half_written,
}
use taihu.Store.Slugs.{default_prd_content, strip_blank}
use taihu.Store.Links.{children_of, lists, add_child}
use taihu.Store.LinkLaws.{lists-add_child}
use taihu.Store.ShapeLaws.{Wrote, and_then-Wrote, write_json-Wrote, write_text-Wrote}
use taihu.Store.PlanLaws.{doc_at-set_text}
use taihu.Store.Drafts.{
  CreateRun, Draft, task_data, Parent, no_link, link_to, broken, has_subagent_platform,
}
use taihu.Store.Creating.{
  or_refuse, write_new, activate, finish, list_child, link_parent, write_beside,
}
use taihu.Store.MadeLaws.{SameDocs}

write_new-SameDocs :
    (host : Host) (task : FilePath) (name new : Text) (s : Store)
    → (name == file_task_json) ≡ false
    → Wrote
        (λ u. SameDocs s.tree u.tree × (u.sessions ≡ s.sessions))
        (write_new host (task ++ (name ∷ [])) new s)
write_new-SameDocs host task name new s n =
    elim (Bool-cases (exists s.tree (task ++ (name ∷ [])))) [
      | inl e ↦ rw e (λ w. (λ q. refl, refl))
      | inr e ↦ rw e (
          write_text-Wrote host (λ u. SameDocs s.tree u.tree × (u.sessions ≡ s.sessions))
            (task ++ (name ∷ [])) new s
            (λ q. doc_at-set_text task q name (text (some new)) s.tree n, refl))
    ]

-- The two problems that can come up when the task is there already.
abbrev pub IsLate : Exit → Type 0
IsLate (refused not_linked) = Unit
IsLate (refused half_written) = Unit
IsLate crashed = Unit
IsLate _ = ⊥

module _ (host : Host) (repo : FilePath) (run : CreateRun) where
  -- The files beside the task.json change no task.json.
  pub write_beside-SameDocs :
      (task : FilePath) (s : Store)
      → Wrote
          (λ u. SameDocs s.tree u.tree × (u.sessions ≡ s.sessions))
          (write_beside host repo run task s)
  unfolding write_beside ◌==◌
  write_beside-SameDocs task s =
      let P = λ (u : Store). SameDocs s.tree u.tree × (u.sessions ≡ s.sessions) in
      let prd =
        write_new-SameDocs host task (lit "prd.md")
          (default_prd_content run.title (some (strip_blank run.description))) s refl in
      elim (Bool-cases (has_subagent_platform s.tree repo run.config)) [
        | inr e ↦ rw e prd
        | inl e ↦ rw e (
            and_then-Wrote P P _ _
              (and_then-Wrote P P _ _ prd (then_jsonl (lit "implement.jsonl") refl))
              (then_jsonl (lit "check.jsonl") refl))
      ]
    where
      then_jsonl :
          (name : Text)
          → (name == file_task_json) ≡ false
          → (u : Store) → SameDocs s.tree u.tree × (u.sessions ≡ s.sessions)
          → Wrote
              (λ v. SameDocs s.tree v.tree × (v.sessions ≡ s.sessions))
              (write_new host (task ++ (name ∷ [])) [] u)
      then_jsonl name n u (docs, sessions) w =
          let (more, same) = write_new-SameDocs host task name [] u n w in
          (λ q. more q ∙ docs q, same ∙ sessions)

  activate-tree : (task : FilePath) (s : Store) → (activate repo run task s).tree ≡ s.tree
  unfolding activate
  activate-tree task s = elim (Bool-cases run.no_start) [
    | inl e ↦ rw e refl
    | inr e ↦ elim (Option-cases (resolve_context_key run.io.proc run.tickets end none true)) [
      | inl f ↦ rw (e, f) refl
      | inr (key, f) ↦ rw (e, f) refl
    ]
  ]

  module _ (s : Store) (task : FilePath) (draft : Draft) where
    -- What the new task and its parent are: without one, only the new task.json differs, and with one
    -- the two tasks refer to each other and no other task.json differs.
    abbrev pub Linked : Parent → TreeOf Content → Type 0
    Linked no_link u =
        (doc_at task u ≡ some (parsed (obj (task_data run draft))))
        × ((q : FilePath) → same_path task q ≡ false → doc_at q u ≡ doc_at q s.tree)
    Linked (link_to p pd) u =
        (doc_at p s.tree ≡ some (parsed (obj pd)))
        × (doc_at task u
            ≡ some (parsed (obj (assign (lit "parent") (str (path_name p)) (task_data run draft)))))
        × (same_path task p ≡ false
            → (e : Fields) × (doc_at p u ≡ some (parsed (obj e)))
              × (lists (path_name task) (children_of e) ≡ true))
        × ((q : FilePath)
            → same_path task q ≡ false
            → same_path p q ≡ false
            → doc_at q u ≡ doc_at q s.tree)
    Linked (broken problem) u = ⊥

    -- The parent has been read before.
    abbrev pub WasRead : Parent → Type 0
    WasRead (link_to p pd) = doc_at p s.tree ≡ some (parsed (obj pd))
    WasRead no_link = Unit
    WasRead (broken problem) = ⊥

    -- How the command ends once the task.json has been written.
    abbrev pub LinkedOr : Parent → Exit × Store → Type 0
    LinkedOr parent (done, u) = Linked parent u.tree
    LinkedOr parent (x, u) = IsLate x

    abbrev pub JustWritten : Store → Type 0
    JustWritten u =
        (doc_at task u.tree ≡ some (parsed (obj (task_data run draft))))
        × ((q : FilePath) → same_path task q ≡ false → doc_at q u.tree ≡ doc_at q s.tree)

    -- The parent's list has the child.
    abbrev ParentWritten : FilePath → Store → Type 0
    ParentWritten p u =
        (same_path task p ≡ false
          → (e : Fields) × (doc_at p u.tree ≡ some (parsed (obj e)))
            × (lists (path_name task) (children_of e) ≡ true))
        × ((q : FilePath)
            → same_path task q ≡ false
            → same_path p q ≡ false
            → doc_at q u.tree ≡ doc_at q s.tree)

    list_child-ParentWritten :
        (p : FilePath) (pd : Fields) (u : Store)
        → doc_at p s.tree ≡ some (parsed (obj pd))
        → JustWritten u
        → Wrote (ParentWritten p) (list_child host task p pd u)
    list_child-ParentWritten p pd u f (here, there) =
        elim (Bool-cases (lists (path_name task) (children_of pd))) [
          | inl e ↦ rw e (λ w. (λ n. (pd, there p n ∙ f, e), λ q n m. there q n))
          | inr e ↦
              let new = add_child (path_name task) pd in
              rw e (
                write_json-Wrote host (ParentWritten p) p new u (
                  λ n. (
                    new,
                    rw (doc_at-put_doc p p new u.tree, (same_path_iff p p).1 refl) refl,
                    lists-add_child (path_name task) pd,
                  ),
                  λ q n m. rw (doc_at-put_doc p q new u.tree, m) (there q n),
                ))
        ]

    half_linked :
        (p : FilePath) (pd : Fields) (x : Bool × Store)
        → doc_at p s.tree ≡ some (parsed (obj pd))
        → Wrote (λ u. Linked (link_to p pd) u.tree) x
        → LinkedOr (link_to p pd) (or_refuse half_written (finish repo run task) x)
    half_linked p pd (false, u) f h = tt
    half_linked p pd (true, u) f h = rw (activate-tree task u) (h refl)

    child_written :
        (p : FilePath) (pd : Fields) (x : Bool × Store)
        → doc_at p s.tree ≡ some (parsed (obj pd))
        → Wrote (ParentWritten p) x
        → LinkedOr (link_to p pd) (
            or_refuse not_linked
              (λ u. or_refuse half_written (finish repo run task) (
                write_json host task
                  (assign (lit "parent") (str (path_name p)) (task_data run draft))
                  u))
              x)
    child_written p pd (false, u) f h = tt
    child_written p pd (true, u) f h =
        let (listed, there) = h refl in
        let new = assign (lit "parent") (str (path_name p)) (task_data run draft) in
        half_linked p pd (write_json host task new u) f (
          write_json-Wrote host (λ v. Linked (link_to p pd) v.tree) task new u
            (
              f,
              rw (doc_at-put_doc task task new u.tree, (same_path_iff task task).1 refl) refl,
              λ n. let (e, a, b) = listed n in (e, rw (doc_at-put_doc task p new u.tree, n) a, b),
              λ q n m. rw (doc_at-put_doc task q new u.tree, n) (there q n m),
            ))

    pub link_parent-Linked :
        (parent : Parent) (u : Store)
        → WasRead parent
        → JustWritten u
        → LinkedOr parent (link_parent host repo run task draft parent u)
    link_parent-Linked no_link u r w = rw (activate-tree task u) w
    link_parent-Linked (link_to p pd) u r w =
        child_written p pd (list_child host task p pd u) r (list_child-ParentWritten p pd u r w)
    link_parent-Linked (broken problem) u r w = absurd r
