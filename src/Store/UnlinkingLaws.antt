-- ===== src/Store/UnlinkingLaws.antt =====
-- .trellis/scripts/common/task_store.py: what the loop over the children of an archived task keeps.
use taihu.Base.{
  ℕ, ◌≤◌, ◌≡◌, refl, ap, sym, ◌∙◌, inl, inr, arith, true, false, Bool-cases, Option, none, some,
  Option-cases, List, [], ◌∷◌, ◌++◌, if◌then◌else◌, Text,
}
use taihu.Json.{Json, null, obj, Fields, assign}
use taihu.Files.Tree.{FilePath, same_path, TreeOf}
use taihu.Files.Laws.{same_path_iff}
use taihu.Tasks.Info.{Read, parsed, Checked, read, failed, read_json_checked}
use taihu.Tasks.Dirs.{path_name}
use taihu.Store.State.{Content, Store, Host, doc_at, put_doc, doc_at-put_doc, write_json}
use taihu.Store.LinkLaws.{read_json_checked-parsed}
use taihu.Store.Unlinking.{
  Taken, taken_at, remember, remember_new, parent_of, Visit, skipped, raised, cleared, blocked,
  visit, visit_doc, visit_checked, visit_written, Found, nothing, type_error, child, Ended,
  finished, stopped, failed_on_type, unlink_children, restore_child_links,
}
use taihu.Store.RestoreLaws.{
  SameDoc, key_parent, Off, Track, Tracked, Distinct, value-assign_other, read-assign,
  restore_child_links-SameDoc,
}

taken_at-concat :
    (p q : FilePath) (v : Json) (links : Taken)
    → taken_at q links ≡ none
    → taken_at q (links ++ ((p, v) ∷ [])) ≡ (if same_path p q then some v else none)
unfolding taken_at
taken_at-concat p q v [] h = refl
taken_at-concat p q v ((r, w) ∷ links) h = ground (arith, taken_at-concat p q v links)

taken_at-concat_other :
    (p q : FilePath) (v : Json) (links : Taken)
    → same_path p q ≡ false
    → taken_at q (links ++ ((p, v) ∷ [])) ≡ taken_at q links
unfolding taken_at
taken_at-concat_other p q v [] h = rw h refl
taken_at-concat_other p q v ((r, w) ∷ links) h = ground (arith, taken_at-concat_other p q v links h)

concat-Distinct :
    (p : FilePath) (v : Json) (links : Taken)
    → taken_at p links ≡ none
    → Distinct links
    → Distinct (links ++ ((p, v) ∷ []))
unfolding Distinct taken_at
concat-Distinct p v [] n apart = (refl, tt)
concat-Distinct p v ((r, w) ∷ links) n (m, apart) = (
  ground (arith, taken_at-concat p r v links, same_path_iff p r, same_path_iff r p),
  concat-Distinct p v links (ground arith) apart,
)

remember-Distinct :
    (p : FilePath) (v : Json) (links : Taken) → Distinct links → Distinct (remember p v links)
unfolding remember
remember-Distinct p v links apart = elim (Option-cases (taken_at p links)) [
  | inl n ↦ rw n (concat-Distinct p v links n apart)
  | inr (w, e) ↦ rw e apart
]

-- The parent of a document that was as it was at first is taken away.
same-Off :
    (o : Option Read) (d : Fields)
    → SameDoc o (some (parsed (obj d)))
    → Off (parent_of d) o (some (parsed (obj (assign key_parent null d))))
same-Off o d (inl e) = (
  d,
  assign key_parent null d,
  sym e,
  refl,
  read-assign key_parent null d,
  refl,
  λ k n. value-assign_other key_parent k null d n,
)
same-Off o d (inr (x, e, f, g, same)) =
    let y : e ≡ d = cc in
    (
      x,
      assign key_parent null d,
      f,
      refl,
      read-assign key_parent null d,
      rw y at (same key_parent),
      λ k n. value-assign_other key_parent k null d n ∙ rw y at (same k),
    )

-- It is taken away again.
assign-Off :
    (v : Json) (o : Option Read) (d : Fields)
    → Off v o (some (parsed (obj d)))
    → Off v o (some (parsed (obj (assign key_parent null d))))
assign-Off v o d (x, e, f, g, r, p, same) =
    let y : e ≡ d = cc in
    (
      x,
      assign key_parent null d,
      f,
      refl,
      read-assign key_parent null d,
      p,
      λ k n. value-assign_other key_parent k null d n ∙ rw y at (same k n),
    )

module _ (p : FilePath) (d : Fields) (links : Taken) (t u : TreeOf Content) where
  taken_here :
      doc_at p u ≡ some (parsed (obj d))
      → (o : Option Json) → taken_at p links ≡ o
      → Track o (doc_at p t) (doc_at p u)
      → Track
          (taken_at p (remember_new o p (parent_of d) links))
          (doc_at p t)
          (some (parsed (obj (assign key_parent null d))))
  taken_here h none n tracked =
      rw (taken_at-concat p p (parent_of d) links n, (same_path_iff p p).1 refl)
        (same-Off (doc_at p t) d (rw h at tracked))
  taken_here h (some w) n tracked = rw n (assign-Off w (doc_at p t) d (rw h at tracked))

  taken_elsewhere :
      (q : FilePath)
      → same_path p q ≡ false
      → (o : Option Json) → taken_at q (remember_new o p (parent_of d) links) ≡ taken_at q links
  taken_elsewhere q other none = taken_at-concat_other p q (parent_of d) links other
  taken_elsewhere q other (some w) = refl

  -- A visit that takes a parent away keeps the links true.
  visit-Tracked :
      doc_at p u ≡ some (parsed (obj d))
      → Tracked links t u
      → Tracked (remember p (parent_of d) links) t (put_doc p (assign key_parent null d) u)
  unfolding remember
  visit-Tracked h tracked q = elim (Bool-cases (same_path p q)) [
    | inl same ↦
        let path : p ≡ q = (same_path_iff p q).0 same in
        rw (← path) (
          rw (doc_at-put_doc p p (assign key_parent null d) u, (same_path_iff p p).1 refl)
            (taken_here h (taken_at p links) refl (tracked p)))
    | inr other ↦
        rw
          (
            doc_at-put_doc p q (assign key_parent null d) u,
            other,
            taken_elsewhere q other (taken_at p links),
          )
          (tracked q)
  ]

module _ (host : Host) where
  -- What each visit does to the files.
  abbrev pub Facts : Visit → Store → Type 0
  Facts skipped s = Unit
  Facts raised s = Unit
  Facts (blocked after) s = after.tree ≡ s.tree
  Facts (cleared p v after) s =
      (d : Fields) × (doc_at p s.tree ≡ some (parsed (obj d)))
      × (v ≡ parent_of d)
      × (after.tree ≡ put_doc p (assign key_parent null d) s.tree)

  visit_written-Facts :
      (p : FilePath) (d : Fields) (s : Store)
      → doc_at p s.tree ≡ some (parsed (obj d))
      → Facts
          (visit_written host p (parent_of d) (write_json host p (assign key_parent null d) s))
          s
  unfolding write_json
  visit_written-Facts p d s h = elim (Bool-cases (host.lands s.writes)) [
    | inl e ↦ rw e (d, h, refl, refl)
    | inr e ↦ rw e refl
  ]

  visit_doc-Facts :
      (p : FilePath) (o : Option Read) (s : Store)
      → doc_at p s.tree ≡ o
      → Facts (visit_doc host p o s) s
  visit_doc-Facts p none s h = tt
  visit_doc-Facts p (some r) s h = go (read_json_checked r) refl
    where
      go : (c : Checked) → read_json_checked r ≡ c → Facts (visit_checked host p c s) s
      go (failed x) e = tt
      go (read d) e = visit_written-Facts p d s (h ∙ ap some (read_json_checked-parsed r d e))

  pub visit-Facts : (f : Found) (s : Store) → Facts (visit host f s) s
  unfolding visit
  visit-Facts nothing s = tt
  visit-Facts type_error s = tt
  visit-Facts (child p) s = visit_doc-Facts p (doc_at p s.tree) s refl

  abbrev Stop : Ended → TreeOf Content → Type 0
  Stop (finished modified s) t = Unit
  Stop (failed_on_type s) t = Unit
  Stop (stopped links s) t = Distinct links × Tracked links t s.tree

  -- Where the loop stops, its links say what was taken away since it began.
  unlink_children-Stop :
      (find : Json → Found) (vs : List Json) (links : Taken) (modified : List Text)
      (t : TreeOf Content) (s : Store)
      → Distinct links
      → Tracked links t s.tree
      → Stop (unlink_children host find vs links modified s) t
  unfolding unlink_children
  unlink_children-Stop find [] links modified t s apart tracked = tt
  unlink_children-Stop find (v ∷ vs) links modified t s apart tracked =
      go (λ l m u. unlink_children-Stop find vs l m t u) (visit host (find v) s) refl
        (visit-Facts (find v) s)
    where
      go :
          ((l : Taken) (m : List Text) (u : Store)
            → Distinct l
            → Tracked l t u.tree
            → Stop (unlink_children host find vs l m u) t)
          → (w : Visit) → visit host (find v) s ≡ w
          → Facts w s
          → Stop (unlink_children host find (v ∷ vs) links modified s) t
      go ih skipped e f = rw (unlink_children, e) (ih links modified s apart tracked)
      go ih raised e f = rw (unlink_children, e) tt
      go ih (blocked after) e f = rw (unlink_children, e) (apart, rw f tracked)
      go ih (cleared p w after) e (d, h, q, u) =
          rw (unlink_children, e)
            (ih (remember p w links) (modified ++ (path_name p ∷ [])) after
              (remember-Distinct p w links apart)
              (rw (q, u) (visit-Tracked p d links t s.tree h tracked)))

  -- Where the loop stops at a child and every later write comes through, restoring the links leaves
  -- every task.json as it was before the loop, or with the same value for every key.
  pub restore_child_links-unlink_children :
      (find : Json → Found) (vs : List Json) (links : Taken) (s u : Store)
      → unlink_children host find vs [] [] s ≡ stopped links u
      → ((n : ℕ) → u.writes ≤ n → host.lands n ≡ true)
      → (q : FilePath)
      → SameDoc (doc_at q s.tree) (doc_at q (restore_child_links host links u).tree)
  unfolding Distinct taken_at
  restore_child_links-unlink_children find vs links s u h lands q =
      let (apart, tracked) =
        rw h at (unlink_children-Stop find vs [] [] s.tree s tt (λ r. inl refl)) in
      restore_child_links-SameDoc host links s.tree u lands apart tracked q
