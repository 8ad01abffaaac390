-- ===== src/Store/LinkLaws.antt =====
-- .trellis/scripts/common/task_store.py: what linking and unlinking do to the two tasks, and to no other.
use taihu.Base.{
  ◌≡◌, refl, ap, ◌∙◌, inl, inr, arith, true, false, Bool-cases, Option, none, some, Text, lit,
  ==_refl,
}
use taihu.Json.{
  Json, null, str, arr, obj, Items, nil, cons, Fields, end, field, get, assign, get-assign, is_true,
  or_default,
}
use taihu.Files.Tree.{FilePath, same_path, TreeOf}
use taihu.Files.Laws.{same_path_iff}
use taihu.Tasks.Info.{
  Read, missing, undecodable, unreadable, invalid, parsed, Checked, read, failed, read_json_checked,
}
use taihu.Tasks.Dirs.{path_name, resolve_task_dir}
use taihu.Store.State.{
  Content, Store, Host, disk_of, doc_at, put_doc, doc_at-put_doc, write_json, Exit, done, refused,
  already_a_child, half_written,
}
use taihu.Store.Links.{
  ensure_children_list, children_of, list_or_nil, lists, append, remove_first, add_child,
  drop_child, repaired, Pair, write_both, with_checked, with_reads, link, cmd_add_subtask,
}

pub read_json_checked-parsed :
    (r : Read) (d : Fields) → read_json_checked r ≡ read d → r ≡ parsed (obj d)
unfolding read_json_checked
read_json_checked-parsed missing d h = cc
read_json_checked-parsed undecodable d h = cc
read_json_checked-parsed unreadable d h = cc
read_json_checked-parsed invalid d h = cc
read_json_checked-parsed (parsed (obj end)) d h = cc
read_json_checked-parsed (parsed (obj (field k v e))) d h = ground arith
read_json_checked-parsed (parsed _) d h = cc

lists-append : (name : Text) (items : Items) → lists name (append name items) ≡ true
unfolding lists append
lists-append name nil = rw (==_refl name) refl
lists-append name (cons v items) = ground (arith, lists-append name items)

remove_first-append :
    (name : Text) (items : Items)
    → lists name items ≡ false
    → remove_first name (append name items) ≡ items
unfolding lists append remove_first
remove_first-append name nil h = rw (==_refl name) refl
remove_first-append name (cons v items) h = ground (arith, remove_first-append name items)

abbrev k_children : Text
k_children = lit "children"

children_of-assign :
    (items : Items) (d : Fields) → children_of (assign k_children (arr items) d) ≡ items
children_of-assign items d =
    rw (get-assign k_children k_children (arr items) d, ==_refl k_children) refl

children_of-repaired :
    (o : Option Json) (d : Fields)
    → get k_children d ≡ o
    → children_of (repaired o d) ≡ list_or_nil o
children_of-repaired none d e = children_of-assign nil d
children_of-repaired (some (arr items)) d e = rw e refl
children_of-repaired (some _) d e = children_of-assign nil d

-- The children of a repaired document are those that were read.
children_of-ensure : (d : Fields) → children_of (ensure_children_list d) ≡ children_of d
unfolding ensure_children_list
children_of-ensure d = children_of-repaired (get k_children d) d refl

pub lists-add_child :
    (name : Text) (d : Fields) → lists name (children_of (add_child name d)) ≡ true
unfolding add_child
lists-add_child name d = elim (Bool-cases (lists name (children_of d))) [
  | inl e ↦ rw (e, children_of-ensure d) e
  | inr e ↦
      rw (e, children_of-assign (append name (children_of d)) (ensure_children_list d))
        (lists-append name (children_of d))
]

-- A child that was added and is dropped again leaves the children as they were.
pub children_of-drop_child-add_child :
    (name : Text) (d : Fields)
    → lists name (children_of d) ≡ false
    → children_of (drop_child name (add_child name d)) ≡ children_of d
unfolding drop_child
children_of-drop_child-add_child name d h =
    let added : children_of (add_child name d) ≡ append name (children_of d) =
      unfold add_child in
      rw h (children_of-assign (append name (children_of d)) (ensure_children_list d)) in
    rw (lists-add_child name d) (
      children_of-assign (remove_first name (children_of (add_child name d))) _
      ∙ rw added (remove_first-append name (children_of d) h))

-- The task at `p` lists a child of that name, and the task at `c` records that value as its parent.
abbrev pub Lists : FilePath → Text → TreeOf Content → Type 0
Lists p name t =
    (d : Fields) × (doc_at p t ≡ some (parsed (obj d))) × (lists name (children_of d) ≡ true)

abbrev pub Records : FilePath → Json → TreeOf Content → Type 0
Records c v t =
    (d : Fields) × (doc_at c t ≡ some (parsed (obj d))) × (get (lit "parent") d ≡ some v)

-- Every task.json but those of the two directories is the same.
abbrev pub OthersSame : FilePath → FilePath → TreeOf Content → TreeOf Content → Type 0
OthersSame p c t u =
    (q : FilePath) → same_path p q ≡ false → same_path c q ≡ false → doc_at q u ≡ doc_at q t

pub get_parent-assign :
    (v : Json) (d : Fields) → get (lit "parent") (assign (lit "parent") v d) ≡ some v
get_parent-assign v d =
    rw (get-assign (lit "parent") (lit "parent") v d, ==_refl (lit "parent")) refl

module _ (host : Host) where
  -- The tree after both writes, the first, or none of them.
  abbrev pub written :
      Exit → FilePath → Fields → FilePath → Fields → TreeOf Content → TreeOf Content
  written done p pd c cd t = put_doc c cd (put_doc p pd t)
  written (refused half_written) p pd c cd t = put_doc p pd t
  written _ p pd c cd t = t

  pub write_both-tree :
      (p : FilePath) (pd : Fields) (c : FilePath) (cd : Fields) (s : Store)
      → (write_both host p pd c cd s).1.tree
        ≡ written (write_both host p pd c cd s).0 p pd c cd s.tree
  unfolding write_both write_json
  write_both-tree p pd c cd s = ground arith

  pub same_self : (p : FilePath) → same_path p p ≡ true
  same_self p = (same_path_iff p p).1 refl

  -- After both writes.
  pub put_both :
      (p : FilePath) (pd : Fields) (c : FilePath) (cd : Fields) (t : TreeOf Content)
      → same_path c p ≡ false
      → (doc_at p (put_doc c cd (put_doc p pd t)) ≡ some (parsed (obj pd)))
        × (doc_at c (put_doc c cd (put_doc p pd t)) ≡ some (parsed (obj cd)))
        × OthersSame p c t (put_doc c cd (put_doc p pd t))
  put_both p pd c cd t n = (
    rw (doc_at-put_doc c p cd (put_doc p pd t), n, doc_at-put_doc p p pd t, same_self p) refl,
    rw (doc_at-put_doc c c cd (put_doc p pd t), same_self c) refl,
    λ q a b. rw (doc_at-put_doc c q cd (put_doc p pd t), b, doc_at-put_doc p q pd t, a) refl,
  )

  with_checked-done :
      (act : Pair host) (p c : FilePath) (a b : Read) (s : Store)
      → (with_checked host act p c (read_json_checked a) (read_json_checked b) s).0 ≡ done
      → (pd cd : Fields) × (a ≡ parsed (obj pd))
        × (b ≡ parsed (obj cd))
        × (with_checked host act p c (read_json_checked a) (read_json_checked b) s
            ≡ act p pd c cd s)
  with_checked-done act p c a b s h = go (read_json_checked a) (read_json_checked b) refl refl h
    where
      go :
          (x y : Checked)
          → read_json_checked a ≡ x
          → read_json_checked b ≡ y
          → (with_checked host act p c x y s).0 ≡ done
          → (pd cd : Fields) × (a ≡ parsed (obj pd))
            × (b ≡ parsed (obj cd))
            × (with_checked host act p c (read_json_checked a) (read_json_checked b) s
                ≡ act p pd c cd s)
      go (failed r) y e f k = cc
      go (read pd) (failed r) e f k = cc
      go (read pd) (read cd) e f k =
          (pd, cd, read_json_checked-parsed a pd e, read_json_checked-parsed b cd f, rw (e, f) refl)

  -- A command on two tasks that succeeds has read both of them.
  pub with_reads-done :
      (act : Pair host) (p c : FilePath) (a b : Option Read) (s : Store)
      → (with_reads host act p c a b s).0 ≡ done
      → (pd cd : Fields) × (a ≡ some (parsed (obj pd)))
        × (b ≡ some (parsed (obj cd)))
        × (with_reads host act p c a b s ≡ act p pd c cd s)
  with_reads-done act p c none b s h = cc
  with_reads-done act p c (some a) none s h = cc
  with_reads-done act p c (some a) (some b) s h =
      let (pd, cd, e, f, same) = with_checked-done act p c a b s h in
      (pd, cd, ap some e, ap some f, same)

  pub link-done :
      (p : FilePath) (pd : Fields) (c : FilePath) (cd : Fields) (s : Store)
      → (link host p pd c cd s).0 ≡ done
      → (is_true (or_default null (get (lit "parent") cd)) ≡ false)
        × ((link host p pd c cd s).1.tree
            ≡ put_doc c
                (assign (lit "parent") (str (path_name p)) cd)
                (put_doc p (add_child (path_name c) pd) s.tree))
  unfolding link
  link-done p pd c cd s h = elim (Bool-cases (is_true (or_default null (get (lit "parent") cd)))) [
    | inl e ↦ let k : refused already_a_child ≡ done = rw e at h in cc
    | inr e ↦
        let k = rw e at h in
        (e, rw e (write_both-tree p (add_child (path_name c) pd) c _ s ∙ rw k refl))
  ]

  module _ (repo : FilePath) (parent_arg child_arg : Text) (p c : FilePath) (s : Store) where
    -- A link of two different tasks that succeeds is in both files, and in no other: the parent lists
    -- the child, and the child records the parent.
    pub cmd_add_subtask-Linked :
        (resolve_task_dir (disk_of host s.tree) parent_arg repo ≡ some p)
        → (resolve_task_dir (disk_of host s.tree) child_arg repo ≡ some c)
        → same_path c p ≡ false
        → (cmd_add_subtask host repo parent_arg child_arg s).0 ≡ done
        → Lists p (path_name c) (cmd_add_subtask host repo parent_arg child_arg s).1.tree
          × Records c (str (path_name p)) (cmd_add_subtask host repo parent_arg child_arg s).1.tree
          × OthersSame p c s.tree (cmd_add_subtask host repo parent_arg child_arg s).1.tree
    unfolding cmd_add_subtask
    cmd_add_subtask-Linked fp fc n h =
        let k = rw (fp, fc) at h in
        let (pd, cd, e, f, same) =
          with_reads-done (link host) p c (doc_at p s.tree) (doc_at c s.tree) s k in
        let (free, tree) = link-done p pd c cd s (rw same at k) in
        let (x, y, z) =
          put_both p (add_child (path_name c) pd) c (assign (lit "parent") (str (path_name p)) cd)
            s.tree n in
        rw (fp, fc, same, tree)
          (
            (add_child (path_name c) pd, x, lists-add_child (path_name c) pd),
            (
              assign (lit "parent") (str (path_name p)) cd,
              y,
              get_parent-assign (str (path_name p)) cd,
            ),
            z,
          )
