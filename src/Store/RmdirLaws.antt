-- ===== src/Store/RmdirLaws.antt =====
-- .trellis/scripts/common/task_store.py: removing the directory of a task that could not be written.
use taihu.Base.{
  ◌≡◌, refl, ap, sym, ◌∙◌, arith, Bool, true, false, ◌&&◌, Bool-cases, inl, inr, none, [], ◌∷◌,
  ◌++◌, Text, ◌==◌, ==_iff, is_empty,
}
use taihu.Files.Tree.{FilePath, TreeOf, find, exists, within, prune, remove_tree, list_dir}
use taihu.Files.Laws.{IsRooted, find-prune}
use taihu.Files.Move.{rooted-below, nothing_at}
use taihu.Store.State.{Content, Store, Host, file_task_json, doc_at, doc_of}
use taihu.Store.Creating.{rmdir}
use taihu.Store.MadeLaws.{SameDocs}

within-below : (p q : FilePath) → within p q ≡ true → (r : FilePath) × (q ≡ p ++ r)
unfolding within
within-below [] q h = (q, refl)
within-below (a ∷ p) [] h = let c : false ≡ true = h in cc
within-below (a ∷ p) (b ∷ q) h =
    let same : a ≡ b = (==_iff a b).0 (and_first (a == b) (within p q) h) in
    let (r, e) = within-below p q (and_second (a == b) (within p q) h) in
    (r, ap (λ (x : FilePath). b ∷ x) e ∙ ap (λ (c : Text). c ∷ (p ++ r)) (sym same))
  where
    and_first : (x y : Bool) → (x && y) ≡ true → x ≡ true
    and_first x y e = ground arith

    and_second : (x y : Bool) → (x && y) ≡ true → y ≡ true
    and_second x y e = ground arith

-- Where nothing stands at the path, no document lies below it.
no_doc_below :
    (p q : FilePath) (t : TreeOf Content)
    → IsRooted t
    → exists t p ≡ false
    → within p (q ++ (file_task_json ∷ [])) ≡ true
    → doc_at q t ≡ none
unfolding doc_at
no_doc_below p q t r free w =
    let (x, e) = within-below p (q ++ (file_task_json ∷ [])) w in
    let nothing : find (q ++ (file_task_json ∷ [])) t ≡ none =
      rw e (nothing_at t (p ++ x) (rooted-below t p x r free)) in
    ap doc_of nothing

prune-SameDocs :
    (p : FilePath) (t u : TreeOf Content)
    → IsRooted t
    → exists t p ≡ false
    → SameDocs t u
    → SameDocs t (prune p u)
prune-SameDocs p t u r free same q = elim (Bool-cases (within p (q ++ (file_task_json ∷ [])))) [
  | inl w ↦
      unfold doc_at in
      (rw (find-prune p (q ++ (file_task_json ∷ [])) u, w) (sym (no_doc_below p q t r free w)))
  | inr w ↦ unfold doc_at in (rw (find-prune p (q ++ (file_task_json ∷ [])) u, w) (same q))
]

-- Removing the directory again leaves every task.json as it was before the directory was made.
pub rmdir-SameDocs :
    (host : Host) (p : FilePath) (t : TreeOf Content) (u : Store)
    → IsRooted t
    → exists t p ≡ false
    → SameDocs t u.tree
    → SameDocs t (rmdir host p u).tree × ((rmdir host p u).sessions ≡ u.sessions)
unfolding rmdir remove_tree
rmdir-SameDocs host [] t u r free same =
    elim (Bool-cases (host.lands u.writes && is_empty (list_dir [] u.tree))) [
      | inl e ↦ rw e (same, refl)
      | inr e ↦ rw e (same, refl)
    ]
rmdir-SameDocs host (a ∷ p) t u r free same =
    elim (Bool-cases (host.lands u.writes && is_empty (list_dir (a ∷ p) u.tree))) [
      | inl e ↦ rw e (prune-SameDocs (a ∷ p) t u.tree r free same, refl)
      | inr e ↦ rw e (same, refl)
    ]
