-- ===== src/Store/RestoreLaws.antt =====
-- .trellis/scripts/common/task_store.py: after an archive that stops at a child, the links that were taken
-- away are back.
use taihu.Base.{
  ℕ, suc, ◌≤◌, ◌≡◌, refl, ap, ◌∙◌, inl, inr, ◌⊎◌, arith, Bool, true, false, Bool-cases, Option,
  none, some, [], ◌∷◌, Text, lit, ◌==◌, ==_refl, ==_iff,
}
use taihu.Json.{Json, null, obj, Fields, end, field, get, assign, get-assign, or_default}
use taihu.Files.Tree.{FilePath, same_path, TreeOf}
use taihu.Files.Laws.{same_path_iff}
use taihu.Tasks.Info.{Read, parsed, read, read_json_checked}
use taihu.Store.State.{Content, Store, Host, doc_at, put_doc, doc_at-put_doc, write_json}
use taihu.Store.Unlinking.{Taken, taken_at, restore_child_links, restore_doc}

-- `d.get(key)`
abbrev pub value : Text → Fields → Json
value k d = or_default null (get k d)

-- The same file, or two documents that give the same value for every key.
abbrev pub SameDoc : Option Read → Option Read → Type 0
SameDoc o u =
    (u ≡ o)
    ⊎ ((d e : Fields) × (o ≡ some (parsed (obj d)))
        × (u ≡ some (parsed (obj e)))
        × ((k : Text) → value k e ≡ value k d))

abbrev pub key_parent : Text
key_parent = lit "parent"

pub value-assign_self : (k : Text) (v : Json) (d : Fields) → value k (assign k v d) ≡ v
value-assign_self k v d = rw (get-assign k k v d, ==_refl k) refl

pub value-assign_other :
    (k j : Text) (v : Json) (d : Fields) → (k == j) ≡ false → value j (assign k v d) ≡ value j d
value-assign_other k j v d n = rw (get-assign k j v d, n) refl

pub read-assign :
    (k : Text) (v : Json) (d : Fields)
    → read_json_checked (parsed (obj (assign k v d))) ≡ read (assign k v d)
unfolding read_json_checked assign
read-assign k v end = refl
read-assign k v (field j w d) = elim (Bool-cases (j == k)) [ inl e ↦ rw e refl | inr e ↦ rw e refl ]

-- A document that can be read, and differs from the first one in the parent at most, which was `v`.
abbrev pub Off : Json → Option Read → Option Read → Type 0
Off v o u =
    (d e : Fields) × (o ≡ some (parsed (obj d)))
    × (u ≡ some (parsed (obj e)))
    × (read_json_checked (parsed (obj e)) ≡ read e)
    × (v ≡ value key_parent d)
    × ((k : Text) → (key_parent == k) ≡ false → value k e ≡ value k d)

abbrev pub Track : Option Json → Option Read → Option Read → Type 0
Track none o u = SameDoc o u
Track (some v) o u = Off v o u

unfoldable pub Distinct : Taken → Type 0
Distinct [] = Unit
Distinct ((p, v) ∷ links) = (taken_at p links ≡ none) × Distinct links

-- What the links say holds of every path.
abbrev pub Tracked : Taken → TreeOf Content → TreeOf Content → Type 0
Tracked links t u = (q : FilePath) → Track (taken_at q links) (doc_at q t) (doc_at q u)

-- The parent is put back.
back :
    (v : Json) (o u : Option Read) (e : Fields)
    → Off v o u
    → u ≡ some (parsed (obj e))
    → SameDoc o (some (parsed (obj (assign key_parent v e))))
back v o u e (d, e', f, g, r, p, same) h =
    inr (d, assign key_parent v e, f, refl, λ k. go k (Bool-cases (key_parent == k)))
  where
    go :
        (k : Text)
        → ((key_parent == k) ≡ true) ⊎ ((key_parent == k) ≡ false)
        → value k (assign key_parent v e) ≡ value k d
    go k (inl x) =
        let y : key_parent ≡ k = (==_iff key_parent k).0 x in
        rw (← y) (value-assign_self key_parent v e ∙ p)
    go k (inr x) = let y : e ≡ e' = cc in value-assign_other key_parent k v e x ∙ rw y (same k x)

-- The store after a parent was put back.
abbrev back_in : FilePath → Json → Fields → Store → Store
back_in p v e s = record s {
  tree = put_doc p (assign key_parent v e) s.tree;
  writes = suc s.writes;
}

back-Tracked :
    (p : FilePath) (v : Json) (e : Fields) (links : Taken) (t u : TreeOf Content)
    → taken_at p links ≡ none
    → doc_at p u ≡ some (parsed (obj e))
    → Tracked ((p, v) ∷ links) t u
    → Tracked links t (put_doc p (assign key_parent v e) u)
unfolding taken_at
back-Tracked p v e links t u n h tracked q = elim (Bool-cases (same_path p q)) [
  | inl same ↦
      let path : p ≡ q = (same_path_iff p q).0 same in
      let old : Off v (doc_at p t) (doc_at p u) = rw ((same_path_iff p p).1 refl) at (tracked p) in
      rw (← path) (
        rw (n, doc_at-put_doc p p (assign key_parent v e) u, (same_path_iff p p).1 refl)
          (back v (doc_at p t) (doc_at p u) e old h))
  | inr other ↦ rw (doc_at-put_doc p q (assign key_parent v e) u, other) (rw other at (tracked q))
]

module _ (host : Host) where
  write_json-landed :
      (p : FilePath) (d : Fields) (s : Store)
      → host.lands s.writes ≡ true
      → write_json host p d s
        ≡ (true, record s { tree = put_doc p d s.tree; writes = suc s.writes })
  unfolding write_json
  write_json-landed p d s l = rw l refl

  restore_doc-eq :
      (p : FilePath) (v : Json) (e : Fields) (s : Store)
      → doc_at p s.tree ≡ some (parsed (obj e))
      → read_json_checked (parsed (obj e)) ≡ read e
      → host.lands s.writes ≡ true
      → restore_doc host p v (doc_at p s.tree) s ≡ back_in p v e s
  restore_doc-eq p v e s h r l =
      rw (h, r) (ap (λ (x : Bool × Store). x.1) (write_json-landed p (assign key_parent v e) s l))

  pub restore_child_links-SameDoc :
      (links : Taken) (t : TreeOf Content) (s : Store)
      → ((n : ℕ) → s.writes ≤ n → host.lands n ≡ true)
      → Distinct links
      → Tracked links t s.tree
      → (q : FilePath) → SameDoc (doc_at q t) (doc_at q (restore_child_links host links s).tree)
  unfolding restore_child_links taken_at Distinct
  restore_child_links-SameDoc [] t s lands apart tracked q = tracked q
  restore_child_links-SameDoc ((p, v) ∷ links) t s lands (n, apart) tracked q =
      let (d, e, f, g, r, pv, same) : Off v (doc_at p t) (doc_at p s.tree) =
        rw ((same_path_iff p p).1 refl) at (tracked p) in
      rw (restore_child_links, restore_doc-eq p v e s g r (lands s.writes (omega arith)))
        (restore_child_links-SameDoc links t (back_in p v e s) (λ m h. lands m (omega arith)) apart
          (back-Tracked p v e links t s.tree n g tracked) q)
