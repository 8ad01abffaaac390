-- ===== src/Proxy/Content.antt =====
-- scripts/proxy.py: what an upload stores is what a download sends.
use taihu.Base.{
  ℕ, zero, suc, ◌-◌, ◌≤◌, min, ◌≡◌, refl, true, Option, none, some, List, [], ◌∷◌, ◌++◌, Text, lit,
  arith, inl, inr, Bool-cases, ==_refl, length, take, drop, take-drop, length-take_pos,
}
use taihu.Json.{Fields}
use taihu.Files.Tree.{FilePath, Tree, node_at, exists, remove_tree, prune, within}
use taihu.Files.Laws.{node_at-prune}
use taihu.Proxy.Request.{Request, World, sent, error_of}
use taihu.Proxy.Paths.{segments}
use taihu.Proxy.Transfer.{
  Host, Server, require_path, read_body, chunk_size, handle_download, handle_delete, delete_at,
  download_node, changed,
}

-- The loop over chunks gives the first `n` bytes, as many as there are.
pub read_body-take :
    (fuel n : ℕ) (stream : List ℕ) → n ≤ fuel → read_body fuel n stream ≡ take n stream
unfolding read_body
read_body-take zero zero stream h = refl
read_body-take zero (suc n) stream h = absurd (omega arith)
read_body-take (suc fuel) zero stream h = refl
read_body-take (suc fuel) (suc n) [] h = refl
read_body-take (suc fuel) (suc n) (b ∷ stream) h =
    let k = min chunk_size (suc n) in
    let some_read = length-take_pos k b stream (omega arith) in
    let rest =
      read_body-take fuel (suc n - length (take k (b ∷ stream))) (drop k (b ∷ stream))
        (omega arith) in
    rw rest (take-drop k (suc n) (b ∷ stream) (omega arith))

within_self : (p : FilePath) → within p p ≡ true
unfolding within
within_self [] = refl
within_self (a ∷ p) = rw (==_refl a) (within_self p)

removed_at : (p : FilePath) (t u : Tree) → remove_tree p t ≡ some u → node_at u p ≡ none
unfolding remove_tree
removed_at [] t u h = ground arith
removed_at (a ∷ p) t u h =
    let e : u ≡ prune (a ∷ p) t = ground arith in
    rw (e, node_at-prune a p (a ∷ p) t, within_self (a ∷ p)) refl

module _ (host : Host) (server : Server) where
  missing :
      (q : Request) (w : World) (target : Text)
      → require_path host server q.query ≡ some target
      → node_at w.tree (segments target) ≡ none
      → (handle_download host server q w).0 ≡ error_of 404 404 (lit "文件不存在: " ++ target)
  unfolding handle_download download_node
  missing q w target p gone = rw (handle_download, p, gone) refl

  removed_node :
      (target : Text) (w : World) (o : Option Tree) (d : Fields)
      → remove_tree (segments target) w.tree ≡ o
      → (changed host server (lit "deleted") target w o).0 ≡ sent 200 d
      → node_at (changed host server (lit "deleted") target w o).1.tree (segments target) ≡ none
  removed_node target w none d h e = ground arith
  removed_node target w (some t) d h e = removed_at (segments target) w.tree t h

  after_delete :
      (target : Text) (w : World) (d : Fields)
      → (delete_at host server target w).0 ≡ sent 200 d
      → node_at (delete_at host server target w).1.tree (segments target) ≡ none
  unfolding delete_at
  after_delete target w d e = elim (Bool-cases (exists w.tree (segments target))) [
    | inr absent ↦ ground arith
    | inl present ↦ elim (Bool-cases (host.denied (segments target))) [
      | inl kept ↦ ground arith
      | inr allowed ↦
          rw (present, allowed)
            (removed_node target w (remove_tree (segments target) w.tree) d refl
              (rw (present, allowed) at e))
    ]
  ]

  -- Where a delete is answered with 200, a download of the same path is then answered with 404.
  pub delete-download :
      (r q : Request) (w : World) (target : Text) (d : Fields)
      → q.query ≡ r.query
      → require_path host server r.query ≡ some target
      → (handle_delete host server r w).0 ≡ sent 200 d
      → (handle_download host server q (handle_delete host server r w).1).0
        ≡ error_of 404 404 (lit "文件不存在: " ++ target)
  unfolding handle_delete
  delete-download r q w target d same p e =
      missing q (handle_delete host server r w).1 target (rw same p)
        (rw (handle_delete, p) (after_delete target w d (rw (handle_delete, p) at e)))
