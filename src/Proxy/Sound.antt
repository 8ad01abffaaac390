-- ===== src/Proxy/Sound.antt =====
-- scripts/proxy.py: what an upload, a mkdir and a delete keep, in every outcome.
use taihu.Base.{
  has, ℕ, ◌≡◌, refl, inl, inr, not, ◌&&◌, ◌||◌, Option, none, some, List, Text, lit, arith,
  Bool-cases, Option-cases, ℤ, parse_int,
}
use taihu.Files.Tree.{FilePath, Tree, is_dir, exists, parent, make_dirs, write_file, remove_tree}
use taihu.Files.Laws.{IsRooted, write_file-IsRooted, remove_tree-IsRooted, make_dirs-IsRooted}
use taihu.Proxy.Lifecycle.{IsConsistent}
use taihu.Proxy.Request.{Request, World, text_or}
use taihu.Proxy.Paths.{segments}
use taihu.Proxy.Transfer.{
  Host, Server, require_path, ensure_parent, upload_to, stored, store_body, changed, handle_upload,
  refused_after, upload_nul, before_nul, crashed_after, mkdir_nul, handle_mkdir, handle_delete,
  delete_at,
}

-- The manager is consistent and the file tree is rooted.
pub record IsSound (w : World) : Type 0 where
  pub proxy_consistent : IsConsistent w.proxy
  pub tree_rooted : IsRooted w.tree

module _ (host : Host) (server : Server) where
  with_tree : {w : World} (t : Tree) → IsSound w → IsRooted t → IsSound (record w { tree = t })
  with_tree t s r = record { proxy_consistent = s.proxy_consistent; tree_rooted = r }

  ensure_parent-IsRooted :
      (p : FilePath) (t u : Tree) → IsRooted t → ensure_parent host server p t ≡ some u → IsRooted u
  unfolding ensure_parent
  ensure_parent-IsRooted p t u r h = elim (Bool-cases (is_dir t (parent p))) [
    | inl d ↦ let e : t ≡ u = ground arith in rw e at r
    | inr d ↦ (make_dirs-IsRooted (parent p) t u r (ground arith)).0
  ]

  stored-IsSound :
      (target : Text) (content : List ℕ) (w : World) (p : FilePath) (o : Option Tree)
      → IsSound w
      → write_file p content w.tree ≡ o
      → IsSound (stored host server target content w o).1
  stored-IsSound target content w p none s h = s
  stored-IsSound target content w p (some t) s h =
      with_tree t s (write_file-IsRooted p content w.tree s.tree_rooted h)

  store_body-IsSound :
      (target : Text) (stream : List ℕ) (n : Option ℤ) (w : World)
      → IsSound w
      → IsSound (store_body host server target stream n w).1
  unfolding store_body
  store_body-IsSound target stream none w s = s
  store_body-IsSound target stream (some n) w s =
      elim (Bool-cases (host.denied (segments target))) [
        | inl d ↦ rw d s
        | inr d ↦ rw d (stored-IsSound target _ w (segments target) _ s refl)
      ]

  upload_to-IsSound :
      (target : Text) (p : FilePath) (r : Request) (w : World) (o : Option Tree)
      → IsSound w
      → ensure_parent host server p w.tree ≡ o
      → IsSound (upload_to host server target r w o).1
  unfolding upload_to
  upload_to-IsSound target p r w none s h = s
  upload_to-IsSound target p r w (some t) s h =
      store_body-IsSound target r.stream (parse_int (text_or (lit "0") r.content_length))
        (record w { tree = t }) (with_tree t s (ensure_parent-IsRooted p w.tree t s.tree_rooted h))

  upload_nul-IsSound :
      (target : Text) (p : FilePath) (w : World)
      → IsSound w
      → IsSound (upload_nul host server target p w).1
  unfolding upload_nul
  upload_nul-IsSound target p w s = elim (Bool-cases (exists w.tree p || host.denied p)) [
    | inl e ↦ rw e s
    | inr e ↦ rw e (made (make_dirs p w.tree) refl)
  ]
    where
      made :
          (o : Option Tree)
          → make_dirs p w.tree ≡ o
          → IsSound (refused_after host server target w o).1
      made none h = s
      made (some t) h = with_tree t s (make_dirs-IsRooted p w.tree t s.tree_rooted h).0

  pub handle_upload-IsSound :
      (r : Request) (w : World) → IsSound w → IsSound (handle_upload host server r w).1
  unfolding handle_upload
  handle_upload-IsSound r w s = elim (Option-cases (require_path host server r.query)) [
    | inl e ↦ rw (e, handle_upload) s
    | inr (target, e) ↦
        rw (e, handle_upload)
          (elim (Bool-cases (has 0 target)) [
            | inl n ↦
                rw n (upload_nul-IsSound target (before_nul host server (segments target)) w s)
            | inr n ↦ rw n (upload_to-IsSound target (segments target) r w _ s refl)
          ])
  ]

  mkdir_nul-IsSound :
      (target : Text) (p : FilePath) (w : World)
      → IsSound w
      → IsSound (mkdir_nul host server target p w).1
  unfolding mkdir_nul
  mkdir_nul-IsSound target p w s = elim (Bool-cases (exists w.tree p)) [
    | inl e ↦ rw e s
    | inr e ↦ rw e (elim (Bool-cases (host.denied p)) [
      | inl d ↦ rw d s
      | inr d ↦ rw d (made (make_dirs p w.tree) refl)
    ])
  ]
    where
      made :
          (o : Option Tree)
          → make_dirs p w.tree ≡ o
          → IsSound (crashed_after host server target w o).1
      made none h = s
      made (some t) h = with_tree t s (make_dirs-IsRooted p w.tree t s.tree_rooted h).0

  pub handle_mkdir-IsSound :
      (r : Request) (w : World) → IsSound w → IsSound (handle_mkdir host server r w).1
  unfolding handle_mkdir
  handle_mkdir-IsSound r w s = elim (Option-cases (require_path host server r.query)) [
    | inl e ↦ rw (e, handle_mkdir) s
    | inr (target, e) ↦
        rw (e, handle_mkdir)
          (elim (Bool-cases (has 0 target)) [
            | inl n ↦ rw n (mkdir_nul-IsSound target (before_nul host server (segments target)) w s)
            | inr n ↦
                rw n
                  (elim (Bool-cases
                    (host.denied (segments target) && not (is_dir w.tree (segments target)))) [
                      | inl d ↦ rw d s
                      | inr d ↦ rw d (made target (make_dirs (segments target) w.tree) refl)
                    ])
          ])
  ]
    where
      made :
          (target : Text) (o : Option Tree)
          → make_dirs (segments target) w.tree ≡ o
          → IsSound (changed host server (lit "path") target w o).1
      made target none h = s
      made target (some t) h =
          with_tree t s (make_dirs-IsRooted (segments target) w.tree t s.tree_rooted h).0

  pub handle_delete-IsSound :
      (r : Request) (w : World) → IsSound w → IsSound (handle_delete host server r w).1
  unfolding handle_delete delete_at
  handle_delete-IsSound r w s = elim (Option-cases (require_path host server r.query)) [
    | inl e ↦ rw (e, handle_delete) s
    | inr (target, e) ↦
        rw (e, handle_delete)
          (elim (Bool-cases (exists w.tree (segments target))) [
            | inr d ↦ rw d s
            | inl d ↦ rw d (elim (Bool-cases (host.denied (segments target))) [
              | inl x ↦ rw x s
              | inr x ↦ rw x (removed target (remove_tree (segments target) w.tree) refl)
            ])
          ])
  ]
    where
      removed :
          (target : Text) (o : Option Tree)
          → remove_tree (segments target) w.tree ≡ o
          → IsSound (changed host server (lit "deleted") target w o).1
      removed target none h = s
      removed target (some t) h =
          with_tree t s (remove_tree-IsRooted (segments target) w.tree s.tree_rooted h)
