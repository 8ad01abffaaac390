-- ===== src/Store/OrphanLaws.antt =====
-- .trellis/scripts/common/task_store.py: the children of an archived task have no parent any more.
use taihu.Base.{
  ◌≡◌, arith, refl, ap, Bool, true, none, sym, ◌∙◌, inl, inr, ◌⊎◌, false, Bool-cases, Option, some,
  List, [], ◌∷◌, ◌++◌, Text, ◌==◌, ==_refl,
}
use taihu.Json.{Json, null, obj, Fields, get, assign, get-assign}
use taihu.Files.Tree.{FilePath, same_path, TreeOf}
use taihu.Files.Laws.{same_path_iff}
use taihu.Tasks.Info.{Read, parsed, Checked, failed, read, read_json_checked}
use taihu.Tasks.Dirs.{path_name}
use taihu.Store.State.{Content, Store, Host, doc_at, put_doc, doc_at-put_doc, write_json}
use taihu.Store.Unlinking.{
  remember, Taken, Visit, skipped, raised, cleared, blocked, visit, Found, child, Ended, finished,
  unlink_children, type_error, nothing, visit_written, visit_checked, visit_doc, parent_of,
}
use taihu.Store.RestoreLaws.{key_parent, read-assign}
use taihu.Store.UnlinkingLaws.{Facts, visit-Facts}

-- The task at `p` has a document that can be read.
abbrev pub Readable : FilePath → TreeOf Content → Type 0
Readable p t =
    (d : Fields) × (doc_at p t ≡ some (parsed (obj d)))
    × (read_json_checked (parsed (obj d)) ≡ read d)

-- The task at `p` has no parent.
abbrev pub Orphan : FilePath → TreeOf Content → Type 0
Orphan p t = (d : Fields) × (doc_at p t ≡ some (parsed (obj d))) × (get key_parent d ≡ some null)

-- The file is the same, or a document whose parent is gone and which is the same under every other key.
abbrev pub OnlyOrphaned : Option Read → Option Read → Type 0
OnlyOrphaned o u =
    (u ≡ o)
    ⊎ ((d e : Fields) × (o ≡ some (parsed (obj d)))
        × (u ≡ some (parsed (obj e)))
        × (get key_parent e ≡ some null)
        × ((k : Text) → (key_parent == k) ≡ false → get k e ≡ get k d))

abbrev orphaned : FilePath → Fields → TreeOf Content → TreeOf Content
orphaned q d t = put_doc q (assign key_parent null d) t

-- What taking a parent away keeps.
abbrev pub Stable : (TreeOf Content → Type 0) → Type 0
Stable P =
    (q : FilePath) (d : Fields) (t : TreeOf Content)
    → doc_at q t ≡ some (parsed (obj d))
    → P t
    → P (orphaned q d t)

no_parent : (d : Fields) → get key_parent (assign key_parent null d) ≡ some null
no_parent d = rw (get-assign key_parent key_parent null d, ==_refl key_parent) refl

other_kept :
    (d : Fields) (k : Text) → (key_parent == k) ≡ false → get k (assign key_parent null d) ≡ get k d
other_kept d k n = rw (get-assign key_parent k null d, n) refl

doc_here :
    (q : FilePath) (d : Fields) (t : TreeOf Content)
    → doc_at q (orphaned q d t) ≡ some (parsed (obj (assign key_parent null d)))
doc_here q d t =
    rw (doc_at-put_doc q q (assign key_parent null d) t, (same_path_iff q q).1 refl) refl

doc_there :
    (q p : FilePath) (d : Fields) (t : TreeOf Content)
    → same_path q p ≡ false
    → doc_at p (orphaned q d t) ≡ doc_at p t
doc_there q p d t n = rw (doc_at-put_doc q p (assign key_parent null d) t, n) refl

Readable-Stable : (p : FilePath) → Stable (Readable p)
Readable-Stable p q d t h (e, f, r) = elim (Bool-cases (same_path q p)) [
  | inl same ↦
      let path : q ≡ p = (same_path_iff q p).0 same in
      rw (← path) (assign key_parent null d, doc_here q d t, read-assign key_parent null d)
  | inr other ↦ (e, doc_there q p d t other ∙ f, r)
]

Orphan-Stable : (p : FilePath) → Stable (Orphan p)
Orphan-Stable p q d t h (e, f, r) = elim (Bool-cases (same_path q p)) [
  | inl same ↦
      let path : q ≡ p = (same_path_iff q p).0 same in
      rw (← path) (assign key_parent null d, doc_here q d t, no_parent d)
  | inr other ↦ (e, doc_there q p d t other ∙ f, r)
]

-- The parent of a document that is the first one, or that was orphaned already, is taken away.
more_orphaned :
    (o : Option Read) (d : Fields)
    → OnlyOrphaned o (some (parsed (obj d)))
    → OnlyOrphaned o (some (parsed (obj (assign key_parent null d))))
more_orphaned o d (inl e) =
    inr (d, assign key_parent null d, sym e, refl, no_parent d, other_kept d)
more_orphaned o d (inr (x, e, f, g, n, same)) =
    let y : e ≡ d = cc in
    inr (
      x,
      assign key_parent null d,
      f,
      refl,
      no_parent d,
      λ k m. other_kept d k m ∙ rw y at (same k m),
    )

pub OnlyOrphaned-Stable :
    (p : FilePath) (t : TreeOf Content) → Stable (λ u. OnlyOrphaned (doc_at p t) (doc_at p u))
OnlyOrphaned-Stable p t q d u h x = elim (Bool-cases (same_path q p)) [
  | inl same ↦
      let path : q ≡ p = (same_path_iff q p).0 same in
      rw (← path) (rw (doc_here q d u) (more_orphaned (doc_at q t) d (rw (← path, h) at x)))
  | inr other ↦ rw (doc_there q p d u other) x
]

abbrev pub Ends : (TreeOf Content → Type 0) → Ended → Type 0
Ends P (finished modified s) = P s.tree
Ends P _ = Unit

module _ (host : Host) (find : Json → Found) where
  -- What taking a parent away keeps holds after a loop that finishes.
  pub unlink_children-Stable :
      (P : TreeOf Content → Type 0) (stable : Stable P) (vs : List Json) (links : Taken)
      (modified : List Text) (s : Store)
      → P s.tree
      → Ends P (unlink_children host find vs links modified s)
  unfolding unlink_children
  unlink_children-Stable P stable [] links modified s h = h
  unlink_children-Stable P stable (v ∷ vs) links modified s h =
      go (λ l m u. unlink_children-Stable P stable vs l m u) (visit host (find v) s) refl
        (visit-Facts host (find v) s)
    where
      go :
          ((l : Taken) (m : List Text) (u : Store)
            → P u.tree
            → Ends P (unlink_children host find vs l m u))
          → (w : Visit) → visit host (find v) s ≡ w
          → Facts host w s
          → Ends P (unlink_children host find (v ∷ vs) links modified s)
      go ih skipped e f = rw (unlink_children, e) (ih links modified s h)
      go ih raised e f = rw (unlink_children, e) tt
      go ih (blocked after) e f = rw (unlink_children, e) tt
      go ih (cleared p w after) e (d, x, q, u) =
          rw (unlink_children, e)
            (ih (remember p w links) (modified ++ (path_name p ∷ [])) after
              (rw u (stable p d s.tree x h)))

  -- One of the names finds the directory.
  abbrev pub Names : FilePath → List Json → Type 0
  Names p [] = ⊥
  Names p (v ∷ vs) = (find v ≡ child p) ⊎ Names p vs

  abbrev Visited : FilePath → Visit → Type 0
  Visited p (cleared q w after) = Orphan p after.tree
  Visited p (blocked after) = Unit
  Visited p _ = ⊥

  visit-Visited :
      (p : FilePath) (s : Store) → Readable p s.tree → Visited p (visit host (child p) s)
  unfolding visit write_json
  visit-Visited p s (d, e, r) =
      rw (e, r)
        (elim (Bool-cases (host.lands s.writes)) [
          | inl l ↦ rw l (assign key_parent null d, doc_here p d s.tree, no_parent d)
          | inr l ↦ rw l tt
        ])

  unlink_children-Orphan :
      (p : FilePath) (vs : List Json) (links : Taken) (modified : List Text) (s : Store)
      → Readable p s.tree
      → Names p vs
      → Ends (Orphan p) (unlink_children host find vs links modified s)
  unfolding unlink_children
  unlink_children-Orphan p [] links modified s r n = absurd n
  unlink_children-Orphan p (v ∷ vs) links modified s r (inl here) =
      go (visit host (find v) s) refl (rw here (visit-Visited p s r))
    where
      go :
          (w : Visit)
          → visit host (find v) s ≡ w
          → Visited p w
          → Ends (Orphan p) (unlink_children host find (v ∷ vs) links modified s)
      go skipped e f = absurd f
      go raised e f = absurd f
      go (blocked after) e f = rw (unlink_children, e) tt
      go (cleared q w after) e f =
          rw (unlink_children, e)
            (unlink_children-Stable (Orphan p) (Orphan-Stable p) vs (remember q w links)
              (modified ++ (path_name q ∷ [])) after f)
  unlink_children-Orphan p (v ∷ vs) links modified s r (inr later) =
      go (λ l m u k. unlink_children-Orphan p vs l m u k later) (visit host (find v) s) refl
        (visit-Facts host (find v) s)
    where
      go :
          ((l : Taken) (m : List Text) (u : Store)
            → Readable p u.tree
            → Ends (Orphan p) (unlink_children host find vs l m u))
          → (w : Visit) → visit host (find v) s ≡ w
          → Facts host w s
          → Ends (Orphan p) (unlink_children host find (v ∷ vs) links modified s)
      go ih skipped e f = rw (unlink_children, e) (ih links modified s r)
      go ih raised e f = rw (unlink_children, e) tt
      go ih (blocked after) e f = rw (unlink_children, e) tt
      go ih (cleared q w after) e (d, x, y, u) =
          rw (unlink_children, e)
            (ih (remember q w links) (modified ++ (path_name q ∷ [])) after
              (rw u (Readable-Stable p q d s.tree x r)))

  visit_written-child :
      (q p : FilePath) (v w : Json) (x : Bool × Store) (after : Store)
      → visit_written host q v x ≡ cleared p w after
      → q ≡ p
  visit_written-child q p v w (true, s) after e = ground arith
  visit_written-child q p v w (false, s) after e = ground arith

  visit_doc-child :
      (q p : FilePath) (o : Option Read) (w : Json) (s after : Store)
      → visit_doc host q o s ≡ cleared p w after
      → q ≡ p
  visit_doc-child q p none w s after e = ground arith
  visit_doc-child q p (some r) w s after e = go (read_json_checked r) e
    where
      go : (c : Checked) → visit_checked host q c s ≡ cleared p w after → q ≡ p
      go (failed x) f = ground arith
      go (read d) f =
          visit_written-child q p (parent_of d) w (write_json host q (assign key_parent null d) s)
            after f

  visit-child :
      (f : Found) (p : FilePath) (w : Json) (s after : Store)
      → visit host f s ≡ cleared p w after
      → f ≡ child p
  unfolding visit
  visit-child nothing p w s after e = ground arith
  visit-child type_error p w s after e = ground arith
  visit-child (child q) p w s after e = ap child (visit_doc-child q p (doc_at q s.tree) w s after e)

  -- A file that no name finds is as before.
  unlink_children-others :
      (q : FilePath) (o : Option Read) (vs : List Json) (links : Taken) (modified : List Text)
      (s : Store)
      → ¬ (Names q vs)
      → doc_at q s.tree ≡ o
      → Ends (λ t. doc_at q t ≡ o) (unlink_children host find vs links modified s)
  unfolding unlink_children
  unlink_children-others q o [] links modified s n h = h
  unlink_children-others q o (v ∷ vs) links modified s n h =
      go (λ l m u k. unlink_children-others q o vs l m u (λ x. n (inr x)) k) (visit host (find v) s)
        refl (visit-Facts host (find v) s)
    where
      apart : (p : FilePath) → find v ≡ child p → same_path p q ≡ false
      apart p e = elim (Bool-cases (same_path p q)) [
        | inl same ↦
            let path : p ≡ q = (same_path_iff p q).0 same in absurd (n (inl (e ∙ ap child path)))
        | inr other ↦ other
      ]

      go :
          ((l : Taken) (m : List Text) (u : Store)
            → doc_at q u.tree ≡ o
            → Ends (λ t. doc_at q t ≡ o) (unlink_children host find vs l m u))
          → (w : Visit) → visit host (find v) s ≡ w
          → Facts host w s
          → Ends (λ t. doc_at q t ≡ o) (unlink_children host find (v ∷ vs) links modified s)
      go ih skipped e f = rw (unlink_children, e) (ih links modified s h)
      go ih raised e f = rw (unlink_children, e) tt
      go ih (blocked after) e f = rw (unlink_children, e) tt
      go ih (cleared p w after) e (d, x, y, u) =
          let far = apart p (visit-child (find v) p w s after e) in
          rw (unlink_children, e)
            (ih (remember p w links) (modified ++ (path_name p ∷ [])) after
              (rw u (doc_there p q d s.tree far ∙ h)))

  -- Where the loop over the children finishes, every child that a name finds and whose file can be
  -- read has no parent; a file that a name finds has changed in nothing but that it has no parent now,
  -- if at all; and a file that no name finds has not changed.
  pub unlink_children-finished :
      (vs : List Json) (modified : List Text) (s u : Store)
      → unlink_children host find vs [] [] s ≡ finished modified u
      → ((p : FilePath) → Readable p s.tree → Names p vs → Orphan p u.tree)
        × ((q : FilePath) → OnlyOrphaned (doc_at q s.tree) (doc_at q u.tree))
        × ((q : FilePath) → ¬ (Names q vs) → doc_at q u.tree ≡ doc_at q s.tree)
  unlink_children-finished vs modified s u h = (
    λ p r n. rw h at (unlink_children-Orphan p vs [] [] s r n),
    λ q. rw h at (
        unlink_children-Stable (λ t. OnlyOrphaned (doc_at q s.tree) (doc_at q t))
          (OnlyOrphaned-Stable q s.tree) vs [] [] s (inl refl)),
    λ q n. rw h at (unlink_children-others q (doc_at q s.tree) vs [] [] s n refl),
  )
