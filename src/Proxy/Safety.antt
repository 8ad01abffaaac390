-- ===== src/Proxy/Safety.antt =====
-- scripts/proxy.py: what no request can do, and what every request keeps.
use taihu.Base.{
  ◌≡◌, ◌≢◌, refl, Bool, true, false, Option, none, some, [], if◌then◌else◌, Text, lit, ◌==◌, ==_iff,
  arith, parse_int, Option-cases, inl, inr,
}
use taihu.Json.{Json, obj, Fields, end, field}
use taihu.Proxy.Rule.{Rule, Result, ok, raised}
use taihu.Proxy.Lifecycle.{add-IsConsistent, remove-IsConsistent}
use taihu.Proxy.Request.{
  Verb, get_verb, post, put, delete, Body, empty, malformed, json, Request, World, Reply, crashed,
  error_of, authed, with_auth, param, text_or,
}
use taihu.Proxy.Transfer.{
  Host, Server, handle_upload, handle_download, handle_ls, handle_mkdir, handle_delete,
}
use taihu.Proxy.Routes.{
  handle, dispatch, do_get, do_post, do_put, do_delete, get_authed, post_authed, handle_exec,
  exec_body, handle_proxy_list, handle_proxy_add, handle_proxy_delete, add_requested,
  requested_rule, from_query, body_or_query, not_found, with_body,
}
use taihu.Proxy.Sound.{IsSound, handle_upload-IsSound, handle_mkdir-IsSound, handle_delete-IsSound}

module _ (host : Host) (server : Server) where
  -- What a request without the right token comes to: the 401, or the exception of a token that cannot
  -- be compared.
  abbrev pub rejection : Option Bool → Reply
  rejection none = crashed
  rejection (some b) = error_of 401 401 (lit "unauthorized")

  with_auth-rejection :
      (a : Option Bool) (w : World) (x : Reply × World)
      → a ≢ some true
      → with_auth a w x ≡ (rejection a, w)
  unfolding with_auth
  with_auth-rejection none w x n = refl
  with_auth-rejection (some true) w x n = absurd (n refl)
  with_auth-rejection (some false) w x n = refl

  -- Without the right token every request but GET /ping changes nothing: it is answered 401, or ends in
  -- an exception without an answer if the token cannot be compared.
  pub handle-unauthorized :
      (r : Request) (w : World) (a : Option Bool)
      → authed server.token r.x_token ≡ a
      → a ≢ some true
      → ((r.verb ≡ get_verb) → r.path ≢ lit "/ping")
      → handle host server r w ≡ (rejection a, w)
  unfolding handle do_get do_post do_put do_delete with_auth
  handle-unauthorized r w a t n p = go r.verb refl
    where
      go : (v : Verb) → r.verb ≡ v → dispatch host server v r w ≡ (rejection a, w)
      go get_verb e = rw t (
          ground (
            arith,
            p e,
            ==_iff r.path (lit "/ping"),
            with_auth-rejection a w (get_authed host server r w) n,
          ))
      go post e = rw t (with_auth-rejection a w _ n)
      go put e = rw t (with_auth-rejection a w _ n)
      go delete e = rw t (with_auth-rejection a w _ n)

  handle_download-keeps : (r : Request) (w : World) → (handle_download host server r w).1 ≡ w
  unfolding handle_download
  handle_download-keeps r w = ground arith

  handle_ls-keeps : (r : Request) (w : World) → (handle_ls host server r w).1 ≡ w
  unfolding handle_ls
  handle_ls-keeps r w = ground arith

  handle_exec-keeps : (j : Json) (r : Request) (w : World) → (handle_exec host server j r w).1 ≡ w
  unfolding handle_exec
  handle_exec-keeps j r w = ground arith

  abbrev exec_query : Request → Json
  exec_query r = obj (
      field (lit "cmd") (from_query host server (lit "cmd") [] r.query)
        (field (lit "timeout") (from_query host server (lit "timeout") (lit "3600") r.query) end))

  get_authed-keeps : (r : Request) (w : World) → (get_authed host server r w).1 ≡ w
  unfolding get_authed handle_proxy_list
  get_authed-keeps r w =
      ground (
        arith,
        handle_exec-keeps (exec_query r) r w,
        handle_ls-keeps r w,
        handle_download-keeps r w,
      )

  -- A GET request changes nothing, whoever sends it.
  do_get-keeps : (r : Request) (w : World) → (do_get host server r w).1 ≡ w
  unfolding do_get with_auth
  do_get-keeps r w = ground (arith, get_authed-keeps r w)

  if_IsSound :
      (b : Bool) (x y : Reply × World) → IsSound x.1 → IsSound y.1 → IsSound (if b then x else y).1
  if_IsSound true x y h k = h
  if_IsSound false x y h k = k

  with_auth-IsSound :
      (a : Option Bool) (w : World) (x : Reply × World)
      → IsSound w
      → IsSound x.1
      → IsSound (with_auth a w x).1
  unfolding with_auth
  with_auth-IsSound none w x s h = s
  with_auth-IsSound (some true) w x s h = h
  with_auth-IsSound (some false) w x s h = s

  add_requested-IsSound :
      (o : Result Rule) (r : Request) (w : World)
      → IsSound w
      → IsSound (add_requested host server o r w).1
  unfolding add_requested
  add_requested-IsSound (raised e) r w s = s
  add_requested-IsSound (ok rule) r w s = record {
    proxy_consistent = add-IsConsistent r.bind_error rule w.proxy s.proxy_consistent;
    tree_rooted = s.tree_rooted;
  }

  handle_proxy_add-IsSound :
      (j : Json) (r : Request) (w : World)
      → IsSound w
      → IsSound (handle_proxy_add host server j r w).1
  unfolding handle_proxy_add
  handle_proxy_add-IsSound (obj params) r w s =
      if_IsSound _ _ _ s (add_requested-IsSound (requested_rule host server params r.now) r w s)
  handle_proxy_add-IsSound _ r w s = s

  handle_proxy_delete-IsSound :
      (j : Json) (w : World) → IsSound w → IsSound (handle_proxy_delete host server j w).1
  unfolding handle_proxy_delete
  handle_proxy_delete-IsSound (obj params) w s = if_IsSound _ _ _ s (record {
    proxy_consistent =
        remove-IsConsistent (param host.repr params (lit "name") []) w.proxy s.proxy_consistent;
    tree_rooted = s.tree_rooted;
  })
  handle_proxy_delete-IsSound _ w s = s

  exec_body-keeps : (b : Body) (r : Request) (w : World) → (exec_body host server b r w).1 ≡ w
  exec_body-keeps empty r w = handle_exec-keeps (obj end) r w
  exec_body-keeps malformed r w = refl
  exec_body-keeps (json v) r w = handle_exec-keeps v r w

  exec_body-IsSound :
      (b : Body) (r : Request) (w : World) → IsSound w → IsSound (exec_body host server b r w).1
  exec_body-IsSound b r w s = rw exec_body-keeps s

  with_body-IsSound :
      (r : Request) (w : World) (x : Reply × World)
      → IsSound w
      → IsSound x.1
      → IsSound (with_body host server r w x).1
  unfolding with_body
  with_body-IsSound r w x h k =
      elim (Option-cases (parse_int (text_or (lit "0") r.content_length))) [
        | inl e ↦ rw (e, with_body) h
        | inr (n, e) ↦ rw (e, with_body) k
      ]

  post_authed-IsSound :
      (r : Request) (w : World) → IsSound w → IsSound (post_authed host server r w).1
  unfolding post_authed
  post_authed-IsSound r w s =
      let missing : Reply × World = (not_found, w) in
      let to_delete =
        with_body host server r w
          (handle_proxy_delete host server (body_or_query host server r) w) in
      let to_add =
        with_body host server r w
          (handle_proxy_add host server (body_or_query host server r) r w) in
      let to_exec = with_body host server r w (exec_body host server r.body r w) in
      let test = (λ (path : Text). r.path == path) in
      let or_delete = if test (lit "/proxy/delete") then to_delete else missing in
      let or_add = if test (lit "/proxy/add") then to_add else or_delete in
      let or_remove = if test (lit "/delete") then handle_delete host server r w else or_add in
      let or_mkdir = if test (lit "/mkdir") then handle_mkdir host server r w else or_remove in
      let or_upload = if test (lit "/upload") then handle_upload host server r w else or_mkdir in
      if_IsSound (test (lit "/exec")) to_exec or_upload
        (with_body-IsSound r w (exec_body host server r.body r w) s
          (exec_body-IsSound r.body r w s))
        (if_IsSound (test (lit "/upload")) (handle_upload host server r w) or_mkdir
          (handle_upload-IsSound host server r w s)
          (if_IsSound (test (lit "/mkdir")) (handle_mkdir host server r w) or_remove
            (handle_mkdir-IsSound host server r w s)
            (if_IsSound (test (lit "/delete")) (handle_delete host server r w) or_add
              (handle_delete-IsSound host server r w s)
              (if_IsSound (test (lit "/proxy/add")) to_add or_delete
                (with_body-IsSound r w
                  (handle_proxy_add host server (body_or_query host server r) r w) s
                  (handle_proxy_add-IsSound (body_or_query host server r) r w s))
                (if_IsSound (test (lit "/proxy/delete")) to_delete missing
                  (with_body-IsSound r w
                    (handle_proxy_delete host server (body_or_query host server r) w) s
                    (handle_proxy_delete-IsSound (body_or_query host server r) w s))
                  s)))))

  dispatch-IsSound :
      (v : Verb) (r : Request) (w : World) → IsSound w → IsSound (dispatch host server v r w).1
  unfolding do_post do_put do_delete
  dispatch-IsSound get_verb r w s = rw do_get-keeps s
  dispatch-IsSound post r w s = with_auth-IsSound _ w _ s (post_authed-IsSound r w s)
  dispatch-IsSound put r w s =
      with_auth-IsSound _ w _ s (if_IsSound _ _ _ (handle_upload-IsSound host server r w s) s)
  dispatch-IsSound delete r w s =
      with_auth-IsSound _ w _ s (if_IsSound _ _ _ (handle_proxy_delete-IsSound (obj r.query) w s) s)

  -- Every request, valid or not, keeps the manager consistent and the file tree rooted.
  pub handle-IsSound : (r : Request) (w : World) → IsSound w → IsSound (handle host server r w).1
  unfolding handle
  handle-IsSound r w s = dispatch-IsSound r.verb r w s

  with_body-crashed :
      (r : Request) (w : World) → with_body host server r w (crashed, w) ≡ (crashed, w)
  unfolding with_body
  with_body-crashed r w = elim (Option-cases (parse_int (text_or (lit "0") r.content_length))) [
    | inl e ↦ rw (e, with_body) refl
    | inr (n, e) ↦ rw (e, with_body) refl
  ]

  -- A delete request with a JSON body that is no object is not answered at all.
  pub do_post-delete_crash :
      (r : Request) (w : World) (v : Json)
      → authed server.token r.x_token ≡ some true
      → r.path ≡ lit "/proxy/delete"
      → r.body ≡ json v
      → ((d : Fields) → v ≢ obj d)
      → do_post host server r w ≡ (crashed, w)
  unfolding do_post post_authed with_auth handle_proxy_delete with_body ◌==◌
  do_post-delete_crash r w v a p b n = rw (a, p, b, go v n) (with_body-crashed r w)
    where
      go :
          (v : Json)
          → ((d : Fields) → v ≢ obj d)
          → handle_proxy_delete host server v w ≡ (crashed, w)
      go (obj d) n = absurd (n d refl)
      go _ n = refl
