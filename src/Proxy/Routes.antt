-- ===== src/Proxy/Routes.antt =====
-- scripts/proxy.py: command execution, rule management, and the four HTTP methods.
use taihu.Base.{
  ℕ, Bool, true, false, ◌||◌, Option, none, some, [], ◌∷◌, ◌++◌, if◌then◌else◌, Text, lit, ◌==◌,
  is_empty, ℤ, pos, negsuc, show_nat, parse_int,
}
use taihu.Json.{Json, flag, int, str, arr, obj, Fields, end, field, get}
use taihu.Files.Tree.{is_dir}
use taihu.Proxy.Rule.{
  Rule, value_error, type_error, key_error, Result, ok, raised, ◌>>=◌, int_of_text, to_dict,
}
use taihu.Proxy.Manager.{add, remove, list_rules}
use taihu.Proxy.Request.{
  Verb, get_verb, post, put, delete, Body, empty, malformed, json, Request, World, Reply, sent,
  crashed, error_of, authed, with_auth, param, first_or, Process, not_accepted, not_started,
  finished, timed_out, text_or,
}
use taihu.Proxy.Paths.{segments}
use taihu.Proxy.Transfer.{
  Host, Server, handle_upload, handle_download, handle_ls, handle_mkdir, handle_delete,
}

pub record Run : Type 0 where
  pub exit_code : ℤ
  pub stdout : Text
  pub stderr : Text
  pub has_timed_out : Bool

-- `run_command`: after a timeout the process group is killed and the output collected; `none` is an
-- exception that it does not catch.
unfoldable pub run_command : Process → Option Run
run_command not_accepted = none
run_command (not_started e) =
    some (record { exit_code = negsuc 0; stdout = []; stderr = e; has_timed_out = false })
run_command (finished code out err) =
    some (record { exit_code = code; stdout = out; stderr = err; has_timed_out = false })
run_command (timed_out code out err) =
    some (record { exit_code = code; stdout = out; stderr = err; has_timed_out = true })

unfoldable pub exec_reply : Text → ℕ → Option Run → Reply
exec_reply cmd elapsed none = crashed
exec_reply cmd elapsed (some run) = sent 200 (
    field (lit "code") (int (pos (if run.has_timed_out then 1 else 0))) (
      field (lit "cmd") (str cmd) (
        field (lit "exit_code") (int run.exit_code) (
          field (lit "stdout") (str run.stdout) (
            field (lit "stderr") (str run.stderr) (
              field (lit "timed_out") (flag run.has_timed_out)
                (field (lit "elapsed_ms") (int (pos elapsed)) end)))))))

-- What a handler makes of the rule or of the exception that the manager gives back.
unfoldable pub added_reply : Result Rule → Reply
added_reply (ok rule) =
    sent 200 (field (lit "code") (int (pos 0)) (field (lit "rule") (obj (to_dict rule)) end))
added_reply (raised (value_error message)) = error_of 400 400 message
added_reply (raised type_error) = error_of 400 400 []
added_reply (raised (key_error message)) = crashed

unfoldable pub removed_reply : Text → Result Rule → Reply
removed_reply name (ok rule) =
    sent 200 (field (lit "code") (int (pos 0)) (field (lit "deleted") (str name) end))
removed_reply name (raised (key_error message)) = error_of 404 404 message
removed_reply name (raised e) = crashed

-- `rule.name = "rule-%d" % int(time.time())`, if the request gives no name.
unfoldable pub name_or : ℕ → Text → Text
name_or now [] = lit "rule-" ++ show_nat now
name_or now (c ∷ s) = c ∷ s

abbrev pub not_found : Reply
not_found = error_of 404 404 (lit "not found")

module _ (host : Host) (server : Server) where
  abbrev pub arg : Fields → Text → Text → Text
  arg = param host.repr

  unfoldable pub exec_in : Text → Text → Option Text → Request → World → Reply
  exec_in cmd timeout cwd r w =
      if host.is_float timeout
      then elim cwd [
        | none ↦ exec_reply cmd r.elapsed_ms (run_command (host.process cmd timeout none))
        | some d ↦
            if is_dir w.tree (segments d)
            then exec_reply cmd r.elapsed_ms (run_command (host.process cmd timeout (some d)))
            else error_of 400 400 (lit "cwd 不存在: " ++ d)
      ]
      else error_of 400 400 (lit "timeout 非法")

  abbrev pub nonempty : Text → Option Text
  nonempty [] = none
  nonempty (c ∷ s) = some (c ∷ s)

  -- The files that a command changes are left out.
  unfoldable pub handle_exec : Json → Request → World → Reply × World
  handle_exec (obj params) r w =
      let cmd = arg params (lit "cmd") [] in
      if is_empty cmd then (error_of 400 400 (lit "缺少 cmd"), w) else (
        exec_in cmd (arg params (lit "timeout") (lit "3600")) (nonempty (arg params (lit "cwd") []))
            r w,
        w,
      )
  handle_exec other r w = (error_of 400 400 (lit "请求体必须是对象"), w)

  unfoldable pub handle_proxy_list : World → Reply × World
  handle_proxy_list w = (
    sent 200 (
        field (lit "code") (int (pos 0))
          (field (lit "rules") (arr (list_rules w.proxy.rules)) end)),
    w,
  )

  -- The `ProxyRule` of a request.
  unfoldable pub requested_rule : Fields → ℕ → Result Rule
  requested_rule params now = do
    listen_port ← int_of_text host.repr (arg params (lit "listen_port") [])
    target_port ← int_of_text host.repr (arg params (lit "target_port") [])
    backlog ← int_of_text host.repr (arg params (lit "backlog") (lit "128"))
    ok (record {
      listen_ip = arg params (lit "listen_ip") (lit "0.0.0.0");
      listen_port = listen_port;
      target_ip = arg params (lit "target_ip") [];
      target_port = target_port;
      name = name_or now (arg params (lit "name") []);
      backlog = backlog;
    })

  unfoldable pub add_requested : Result Rule → Request → World → Reply × World
  add_requested (raised e) r w = (added_reply (raised e), w)
  add_requested (ok rule) r w =
      let (result, proxy) = add r.bind_error rule w.proxy in
      (added_reply result, record w { proxy = proxy })

  unfoldable pub handle_proxy_add : Json → Request → World → Reply × World
  handle_proxy_add (obj params) r w =
      if is_empty (arg params (lit "listen_port") [])
        || is_empty (arg params (lit "target_ip") [])
        || is_empty (arg params (lit "target_port") [])
      then (error_of 400 400 (lit "缺少 listen_port/target_ip/target_port"), w)
      else add_requested (requested_rule params r.now) r w
  handle_proxy_add other r w = (error_of 400 400 (lit "请求体必须是对象"), w)

  -- The parameters are not tested to be a dict: on another JSON value `params.get` raises.
  unfoldable pub handle_proxy_delete : Json → World → Reply × World
  handle_proxy_delete (obj params) w =
      let name = arg params (lit "name") [] in
      if is_empty name
      then (error_of 400 400 (lit "缺少 name"), w)
      else let (result, proxy) = remove name w.proxy in
        (removed_reply name result, record w { proxy = proxy })
  handle_proxy_delete other w = (crashed, w)

  -- `_read_body` in front of a handler of the body: `int` of the length may raise a ValueError.
  unfoldable pub with_body : Request → World → Reply × World → Reply × World
  with_body r w handled = elim (parse_int (text_or (lit "0") r.content_length)) [
    | none ↦ (crashed, w)
    | some n ↦ handled
  ]

  -- `json.loads(raw) if raw else qs`, and `qs` too where the body is no JSON.
  abbrev pub body_or_query : Request → Json
  body_or_query r = elim r.body [ empty ↦ obj r.query | malformed ↦ obj r.query | json v ↦ v ]

  abbrev pub exec_body : Body → Request → World → Reply × World
  exec_body empty r w = handle_exec (obj end) r w
  exec_body malformed r w = (error_of 400 400 (lit "body 不是合法 JSON"), w)
  exec_body (json v) r w = handle_exec v r w

  -- `qs.get(key, [default])[0]`
  abbrev pub from_query : Text → Text → Fields → Json
  from_query key default qs = first_or host.repr (str default) (get key qs)

  unfoldable pub get_authed : Request → World → Reply × World
  get_authed r w =
      if r.path == lit "/exec"
      then handle_exec
          (obj (
            field (lit "cmd") (from_query (lit "cmd") [] r.query)
              (field (lit "timeout") (from_query (lit "timeout") (lit "3600") r.query) end)))
          r w
      else if r.path == lit "/ls"
      then handle_ls host server r w
      else if r.path == lit "/download"
      then handle_download host server r w
      else if r.path == lit "/proxy"
      then handle_proxy_list w
      else (not_found, w)

  unfoldable pub do_get : Request → World → Reply × World
  do_get r w =
      if r.path == lit "/ping"
      then (
        sent 200 (field (lit "status") (str (lit "ok")) (field (lit "time") (int (pos r.now)) end)),
        w,
      )
      else with_auth (authed server.token r.x_token) w (get_authed r w)

  unfoldable pub post_authed : Request → World → Reply × World
  post_authed r w =
      if r.path == lit "/exec"
      then with_body r w (exec_body r.body r w)
      else if r.path == lit "/upload"
      then handle_upload host server r w
      else if r.path == lit "/mkdir"
      then handle_mkdir host server r w
      else if r.path == lit "/delete"
      then handle_delete host server r w
      else if r.path == lit "/proxy/add"
      then with_body r w (handle_proxy_add (body_or_query r) r w)
      else if r.path == lit "/proxy/delete"
      then with_body r w (handle_proxy_delete (body_or_query r) w)
      else (not_found, w)

  unfoldable pub do_post : Request → World → Reply × World
  do_post r w = with_auth (authed server.token r.x_token) w (post_authed r w)

  unfoldable pub do_put : Request → World → Reply × World
  do_put r w =
      with_auth (authed server.token r.x_token) w
        (if r.path == lit "/upload" then handle_upload host server r w else (not_found, w))

  unfoldable pub do_delete : Request → World → Reply × World
  do_delete r w =
      with_auth (authed server.token r.x_token) w
        (if r.path == lit "/proxy" then handle_proxy_delete (obj r.query) w else (not_found, w))

  abbrev pub dispatch : Verb → Request → World → Reply × World
  dispatch get_verb r w = do_get r w
  dispatch post r w = do_post r w
  dispatch put r w = do_put r w
  dispatch delete r w = do_delete r w

  unfoldable pub handle : Request → World → Reply × World
  handle r w = dispatch r.verb r w
