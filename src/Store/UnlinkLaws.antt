-- ===== src/Store/UnlinkLaws.antt =====
-- .trellis/scripts/common/task_store.py: what unlinking does, what a refused command leaves alone, and a
-- task that is linked to itself.
use taihu.Base.{
  ◌≡◌, ◌≢◌, refl, ap, sym, ◌∙◌, inl, inr, arith, false, Bool-cases, Option, none, some, Text, lit,
  ◌==◌,
}
use taihu.Json.{Json, null, str, obj, Fields, get, assign, get-assign, is_true, or_default}
use taihu.Files.Tree.{FilePath, same_path, TreeOf}
use taihu.Tasks.Info.{Read, parsed, Checked, read, failed, read_json_checked}
use taihu.Tasks.Dirs.{path_name, resolve_task_dir}
use taihu.Store.State.{
  Content, Store, Host, disk_of, doc_at, put_doc, doc_at-put_doc, write_json, Problem, half_written,
  Exit, done, refused,
}
use taihu.Store.Links.{
  children_of, lists, add_child, drop_child, Pair, write_both, with_checked, with_reads, with_pair,
  link, unlink, cmd_add_subtask, cmd_remove_subtask,
}
use taihu.Store.LinkLaws.{
  Records, OthersSame, write_both-tree, put_both, same_self, with_reads-done, link-done,
  get_parent-assign, children_of-drop_child-add_child,
}

-- The task at `p` has children that the first document has too.
abbrev pub SameChildren : FilePath → TreeOf Content → TreeOf Content → Type 0
SameChildren p t u =
    (d e : Fields) × (doc_at p t ≡ some (parsed (obj d)))
    × (doc_at p u ≡ some (parsed (obj e)))
    × (children_of e ≡ children_of d)

pub doc_eq :
    (o : Option Read) (d e : Fields) → o ≡ some (parsed (obj d)) → o ≡ some (parsed (obj e)) → d ≡ e
doc_eq o d e h k = cc

children_of-parent :
    (v : Json) (d : Fields) → children_of (assign (lit "parent") v d) ≡ children_of d
unfolding ◌==◌
children_of-parent v d = rw (get-assign (lit "parent") (lit "children") v d) refl

module _ (host : Host) where
  unlink-done :
      (p : FilePath) (pd : Fields) (c : FilePath) (cd : Fields) (s : Store)
      → (unlink host p pd c cd s).0 ≡ done
      → (unlink host p pd c cd s).1.tree
        ≡ put_doc c (assign (lit "parent") null cd) (put_doc p (drop_child (path_name c) pd) s.tree)
  unfolding unlink
  unlink-done p pd c cd s h =
      write_both-tree host p (drop_child (path_name c) pd) c (assign (lit "parent") null cd) s
      ∙ rw h refl

  -- A refusal after which nothing has changed.
  abbrev Keeps : Exit × Store → Store → Type 0
  Keeps x s = (e : Problem) → x.0 ≡ refused e → e ≢ half_written → x.1.tree ≡ s.tree

  write_both-Keeps :
      (p : FilePath) (pd : Fields) (c : FilePath) (cd : Fields) (s : Store)
      → Keeps (write_both host p pd c cd s) s
  unfolding write_both write_json
  write_both-Keeps p pd c cd s e h n = ground arith

  module _ (act : Pair host)
      (keep : (p : FilePath) (pd : Fields) (c : FilePath) (cd : Fields) (s : Store)
        → Keeps (act p pd c cd s) s) where
    with_checked-Keeps :
        (p c : FilePath) (a b : Checked) (s : Store) → Keeps (with_checked host act p c a b s) s
    with_checked-Keeps p c (failed r) b s e h n = refl
    with_checked-Keeps p c (read pd) (failed r) s e h n = refl
    with_checked-Keeps p c (read pd) (read cd) s e h n = keep p pd c cd s e h n

    with_reads-Keeps :
        (p c : FilePath) (a b : Option Read) (s : Store) → Keeps (with_reads host act p c a b s) s
    with_reads-Keeps p c none b s e h n = refl
    with_reads-Keeps p c (some a) none s e h n = refl
    with_reads-Keeps p c (some a) (some b) s e h n =
        with_checked-Keeps p c (read_json_checked a) (read_json_checked b) s e h n

    with_pair-Keeps : (p c : Option FilePath) (s : Store) → Keeps (with_pair host act p c s) s
    with_pair-Keeps none c s e h n = refl
    with_pair-Keeps (some p) none s e h n = refl
    with_pair-Keeps (some p) (some c) s e h n =
        with_reads-Keeps p c (doc_at p s.tree) (doc_at c s.tree) s e h n

  link-Keeps :
      (p : FilePath) (pd : Fields) (c : FilePath) (cd : Fields) (s : Store)
      → Keeps (link host p pd c cd s) s
  unfolding link
  link-Keeps p pd c cd s e h n =
      elim (Bool-cases (is_true (or_default null (get (lit "parent") cd)))) [
        | inl b ↦ rw b refl
        | inr b ↦ rw b (
            write_both-Keeps p (add_child (path_name c) pd) c
              (assign (lit "parent") (str (path_name p)) cd) s e (rw b at h) n)
      ]

  unlink-Keeps :
      (p : FilePath) (pd : Fields) (c : FilePath) (cd : Fields) (s : Store)
      → Keeps (unlink host p pd c cd s) s
  unfolding unlink
  unlink-Keeps p pd c cd s =
      write_both-Keeps p (drop_child (path_name c) pd) c (assign (lit "parent") null cd) s

  module _ (repo : FilePath) (parent_arg child_arg : Text) where
    -- A link that is made and taken away again leaves the children of the parent as they were, the
    -- child without a parent, and every other task alone.
    pub cmd_remove_subtask-cmd_add_subtask :
        (p c : FilePath) (s t u : Store)
        → (resolve_task_dir (disk_of host s.tree) parent_arg repo ≡ some p)
        → (resolve_task_dir (disk_of host s.tree) child_arg repo ≡ some c)
        → (resolve_task_dir (disk_of host t.tree) parent_arg repo ≡ some p)
        → (resolve_task_dir (disk_of host t.tree) child_arg repo ≡ some c)
        → same_path c p ≡ false
        → cmd_add_subtask host repo parent_arg child_arg s ≡ (done, t)
        → cmd_remove_subtask host repo parent_arg child_arg t ≡ (done, u)
        → ((d : Fields)
            → doc_at p s.tree ≡ some (parsed (obj d))
            → lists (path_name c) (children_of d) ≡ false)
        → SameChildren p s.tree u.tree × Records c null u.tree × OthersSame p c s.tree u.tree
    unfolding cmd_add_subtask cmd_remove_subtask
    cmd_remove_subtask-cmd_add_subtask p c s t u fp fc gp gc n a r fresh =
        let name = path_name c in
        let k : with_reads host (link host) p c (doc_at p s.tree) (doc_at c s.tree) s ≡ (done, t) =
          rw (fp, fc) at a in
        let l : with_reads host (unlink host) p c (doc_at p t.tree) (doc_at c t.tree) t
            ≡ (done, u) =
          rw (gp, gc) at r in
        let (pd, cd, e, f, same) =
          with_reads-done host (link host) p c (doc_at p s.tree) (doc_at c s.tree) s
            (ap (λ (x : Exit × Store). x.0) k) in
        let (qd, kd, e', f', same') =
          with_reads-done host (unlink host) p c (doc_at p t.tree) (doc_at c t.tree) t
            (ap (λ (x : Exit × Store). x.0) l) in
        let lk : link host p pd c cd s ≡ (done, t) = sym same ∙ k in
        let ul : unlink host p qd c kd t ≡ (done, u) = sym same' ∙ l in
        let (free, linked) = link-done host p pd c cd s (ap (λ (x : Exit × Store). x.0) lk) in
        let t_tree = rw lk at linked in
        let u_tree = rw ul at (unlink-done p qd c kd t (ap (λ (x : Exit × Store). x.0) ul)) in
        let (x, y, z) =
          put_both host p (add_child name pd) c (assign (lit "parent") (str (path_name p)) cd)
            s.tree n in
        let (x', y', z') =
          put_both host p (drop_child name qd) c (assign (lit "parent") null kd) t.tree n in
        let added : qd ≡ add_child name pd = doc_eq (doc_at p t.tree) qd _ e' (rw t_tree x) in
        rw u_tree (
          (
            pd,
            drop_child name qd,
            e,
            x',
            rw added (children_of-drop_child-add_child name pd (fresh pd e)),
          ),
          (assign (lit "parent") null kd, y', get_parent-assign null kd),
          λ q g h. z' q g h ∙ rw t_tree (z q g h),
        )

    -- A refused link or unlinking changes no file, but for the one refusal that says that the parent's
    -- file was written and the child's was not.
    pub subtask-refused :
        (s : Store) (e : Problem)
        → e ≢ half_written
        → ((cmd_add_subtask host repo parent_arg child_arg s).0 ≡ refused e
            → (cmd_add_subtask host repo parent_arg child_arg s).1.tree ≡ s.tree)
          × ((cmd_remove_subtask host repo parent_arg child_arg s).0 ≡ refused e
              → (cmd_remove_subtask host repo parent_arg child_arg s).1.tree ≡ s.tree)
    unfolding cmd_add_subtask cmd_remove_subtask
    subtask-refused s e n = (
      λ h.
          with_pair-Keeps (link host) link-Keeps
            (resolve_task_dir (disk_of host s.tree) parent_arg repo)
            (resolve_task_dir (disk_of host s.tree) child_arg repo) s e h n,
      λ h.
          with_pair-Keeps (unlink host) unlink-Keeps
            (resolve_task_dir (disk_of host s.tree) parent_arg repo)
            (resolve_task_dir (disk_of host s.tree) child_arg repo) s e h n,
    )

    -- A task is linked to itself without a refusal, and then it records itself as its parent and has
    -- the children that it had, itself not added.
    pub cmd_add_subtask_self :
        (p : FilePath) (s : Store)
        → (resolve_task_dir (disk_of host s.tree) parent_arg repo ≡ some p)
        → (resolve_task_dir (disk_of host s.tree) child_arg repo ≡ some p)
        → (cmd_add_subtask host repo parent_arg child_arg s).0 ≡ done
        → Records p (str (path_name p)) (cmd_add_subtask host repo parent_arg child_arg s).1.tree
          × SameChildren p s.tree (cmd_add_subtask host repo parent_arg child_arg s).1.tree
    unfolding cmd_add_subtask
    cmd_add_subtask_self p s fp fc h =
        let k = rw (fp, fc) at h in
        let (pd, cd, e, f, same) =
          with_reads-done host (link host) p p (doc_at p s.tree) (doc_at p s.tree) s k in
        let (free, tree) = link-done host p pd p cd s (rw same at k) in
        let last = assign (lit "parent") (str (path_name p)) cd in
        let x : doc_at p (put_doc p last (put_doc p (add_child (path_name p) pd) s.tree))
            ≡ some (parsed (obj last)) =
          rw
            (
              doc_at-put_doc p p last (put_doc p (add_child (path_name p) pd) s.tree),
              same_self host p,
            )
            refl in
        rw (fp, fc, same, tree)
          (
            (last, x, get_parent-assign (str (path_name p)) cd),
            (cd, last, f, x, children_of-parent (str (path_name p)) cd),
          )
