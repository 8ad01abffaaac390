-- ===== src/Store/FieldLaws.antt =====
-- .trellis/scripts/common/task_store.py: what `cmd_set_branch`, `cmd_set_base_branch`, `cmd_set_scope` and
-- `cmd_set_meta` change.
use taihu.Base.{
  ◌≡◌, ◌≢◌, refl, ap, ◌∙◌, inl, inr, arith, false, Bool-cases, Option, none, some, Text, lit,
  ==_refl, ==_iff, is_empty,
}
use taihu.Json.{Json, str, obj, Fields, get, assign, get-assign}
use taihu.Files.Tree.{FilePath, same_path, TreeOf}
use taihu.Tasks.Info.{Read, parsed, Checked, read, failed, read_json_checked}
use taihu.Tasks.Dirs.{resolve_task_dir}
use taihu.Store.State.{
  Content, Store, Host, disk_of, doc_at, put_doc, doc_at-put_doc, write_json, done, refused,
  not_written, missing_argument,
}
use taihu.Store.Links.{
  change_task, set_read, set_checked, set_written, set_text, with_meta, cmd_set_meta, dict_or_end,
}
use taihu.Store.LinkLaws.{read_json_checked-parsed, same_self}

-- The task at `p` was changed by that function, and no other task was.
abbrev pub ChangedBy : (Fields → Fields) → FilePath → TreeOf Content → TreeOf Content → Type 0
ChangedBy change p t u =
    ((d : Fields) × (doc_at p t ≡ some (parsed (obj d)))
      × (doc_at p u ≡ some (parsed (obj (change d)))))
    × ((q : FilePath) → same_path p q ≡ false → doc_at q u ≡ doc_at q t)

module _ (host : Host) (change : Fields → Fields) (p : FilePath) where
  put-ChangedBy :
      (d : Fields) (t : TreeOf Content)
      → doc_at p t ≡ some (parsed (obj d))
      → ChangedBy change p t (put_doc p (change d) t)
  put-ChangedBy d t e = (
    (d, e, rw (doc_at-put_doc p p (change d) t, same_self host p) refl),
    λ q n. rw (doc_at-put_doc p q (change d) t, n) refl,
  )

  written-ChangedBy :
      (d : Fields) (s : Store)
      → doc_at p s.tree ≡ some (parsed (obj d))
      → (set_written host (write_json host p (change d) s)).0 ≡ done
      → ChangedBy change p s.tree (set_written host (write_json host p (change d) s)).1.tree
  unfolding write_json
  written-ChangedBy d s e h = elim (Bool-cases (host.lands s.writes)) [
    | inl b ↦ rw b (put-ChangedBy d s.tree e)
    | inr b ↦ let k : refused not_written ≡ done = rw b at h in cc
  ]

  read-ChangedBy :
      (o : Option Read) (s : Store)
      → doc_at p s.tree ≡ o
      → (set_read host change p o s).0 ≡ done
      → ChangedBy change p s.tree (set_read host change p o s).1.tree
  read-ChangedBy none s e h = cc
  read-ChangedBy (some r) s e h = go (read_json_checked r) refl h
    where
      go :
          (c : Checked)
          → read_json_checked r ≡ c
          → (set_checked host change p c s).0 ≡ done
          → ChangedBy change p s.tree (set_checked host change p c s).1.tree
      go (failed x) f k = cc
      go (read d) f k = written-ChangedBy d s (e ∙ ap some (read_json_checked-parsed r d f)) k

  -- A change that is done is that of the one task.
  change_task-ChangedBy :
      (given : Text) (s : Store)
      → (change_task host change given (some p) s).0 ≡ done
      → ChangedBy change p s.tree (change_task host change given (some p) s).1.tree
  unfolding change_task
  change_task-ChangedBy given s h = elim (Bool-cases (is_empty given)) [
    | inl b ↦ let k : refused missing_argument ≡ done = rw b at h in cc
    | inr b ↦ rw b (read-ChangedBy (doc_at p s.tree) s refl (rw b at h))
  ]

other_key : (k j : Text) (v : Json) (d : Fields) → k ≢ j → get j (assign k v d) ≡ get j d
other_key k j v d n = ground (arith, get-assign k j v d, ==_iff k j)

-- The second document has that text under the key, and is the same under every other one.
abbrev pub SetTo : Text → Json → Fields → Fields → Type 0
SetTo key v d e = (get key e ≡ some v) × ((j : Text) → key ≢ j → get j e ≡ get j d)

assign-SetTo : (key : Text) (v : Json) (d : Fields) → SetTo key v d (assign key v d)
assign-SetTo key v d = (rw (get-assign key key v d, ==_refl key) refl, λ j n. other_key key j v d n)

-- What a change of the task at `p` by setting `key` comes to.
abbrev pub SetIn : FilePath → Text → Json → TreeOf Content → TreeOf Content → Type 0
SetIn p key v t u =
    ((d e : Fields) × (doc_at p t ≡ some (parsed (obj d)))
      × (doc_at p u ≡ some (parsed (obj e)))
      × SetTo key v d e)
    × ((q : FilePath) → same_path p q ≡ false → doc_at q u ≡ doc_at q t)

module _ (host : Host) (repo : FilePath) (arg : Text) (p : FilePath) (s : Store) where
  -- A field that is set has its value in the one task's file, where every other field is as before,
  -- and no other task is touched.
  pub set_text-SetIn :
      (key value : Text)
      → resolve_task_dir (disk_of host s.tree) arg repo ≡ some p
      → (set_text host key repo arg value s).0 ≡ done
      → SetIn p key (str value) s.tree (set_text host key repo arg value s).1.tree
  unfolding set_text
  set_text-SetIn key value f h =
      let ((d, e, g), others) =
        change_task-ChangedBy host (assign key (str value)) p value s (rw f at h) in
      rw f ((d, assign key (str value) d, e, g, assign-SetTo key (str value) d), others)

  -- A metadata key that is set has its value in the task's `meta`, where every other key is as before,
  -- if that was a dict; nothing else in the file changes, and no other task is touched.
  pub cmd_set_meta-SetIn :
      (key value : Text)
      → resolve_task_dir (disk_of host s.tree) arg repo ≡ some p
      → (cmd_set_meta host repo arg key value s).0 ≡ done
      → ((old new : Fields) × ((d : Fields) × (doc_at p s.tree ≡ some (parsed (obj d)))
            × (dict_or_end (get (lit "meta") d) ≡ old))
          × SetTo key (str value) old new
          × SetIn p (lit "meta") (obj new) s.tree (cmd_set_meta host repo arg key value s).1.tree)
  unfolding cmd_set_meta with_meta
  cmd_set_meta-SetIn key value f h =
      let ((d, e, g), others) =
        change_task-ChangedBy host (with_meta key value) p key s (rw f at h) in
      let old = dict_or_end (get (lit "meta") d) in
      let new = assign key (str value) old in
      rw f (
        old,
        new,
        (d, e, refl),
        assign-SetTo key (str value) old,
        ((d, assign (lit "meta") (obj new) d, e, g, assign-SetTo (lit "meta") (obj new) d), others),
      )
