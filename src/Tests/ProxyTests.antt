-- ===== src/Tests/ProxyTests.antt =====
-- scripts/proxy.py at concrete requests.
use taihu.Base.{◌≡◌, ◌≢◌, refl, true, false, none, some, [], ◌∷◌, lit, ◌==◌, pos, arith}
use taihu.Json.{int, str, arr, nil, cons, Fields, end, field, get}
use taihu.Files.Tree
use taihu.Files.Tree.{
  Tree, dir, file, node_at, exists, remove_tree, set_node, prune, within, same_path,
}
use taihu.Files.Laws.{empty-IsRooted}
use taihu.Proxy.Rule.{Rule, ok, validate, is_port, bad_target}
use taihu.Proxy.Manager
use taihu.Proxy.Manager.{
  Listener, Manager, Table, add, remove, start, launch, retire, empty_manager, serve_round, polled,
  Poll, without,
}
use taihu.Proxy.Lifecycle.{
  IsConsistent, here, next, adding, removing, Reach-IsConsistent, HasEnded, steps,
  serve_round-retired, remove-add, add-Added, Added,
}
use taihu.Proxy.Request.{
  get_verb, post, empty, Request, World, sent, error_of, authed, param, finished,
}
use taihu.Proxy.Paths.{resolve, segments, norm_segments}
use taihu.Proxy.Transfer.{Host, Server, require_path, handle_download, handle_delete, delete_at}
use taihu.Proxy.Routes.{handle}
use taihu.Proxy.Safety.{rejection, handle-unauthorized, handle-IsSound}
use taihu.Proxy.Spec.{Allowed, view, Step-Allowed}
use taihu.Proxy.Sound.{IsSound}
use taihu.Proxy.Content.{delete-download}

abbrev host : Host
host = record {
  repr = λ v. [];
  decode = λ bytes. bytes;
  os_message = λ path. path;
  denied = λ path. false;
  unreadable = λ path. false;
  is_float = λ s. true;
  process = λ cmd timeout cwd. finished (pos 0) [] [];
}

abbrev server : Server
server = record { token = some (lit "t"); root = lit "/srv" }

abbrev path_query : Fields
path_query = field (lit "path") (arr (cons (str (lit "f.txt")) nil)) end

abbrev upload_request : Request
upload_request = record {
  verb = post;
  path = lit "/upload";
  query = path_query;
  x_token = some (lit "t");
  body = empty;
  content_length = some (lit "3");
  stream = 1 ∷ 2 ∷ 3 ∷ 4 ∷ [];
  now = 0;
  elapsed_ms = 0;
  bind_error = none;
}

abbrev download_request : Request
download_request = record upload_request { verb = get_verb; path = lit "/download"; stream = [] }

abbrev world : World
world = record { proxy = empty_manager; tree = (lit "srv" ∷ [], dir) ∷ [] }

path_found : require_path host server path_query ≡ some (lit "/srv/f.txt")
unfolding require_path param get ◌==◌ resolve norm_segments segments
path_found = refl

abbrev upload_reply : Fields
upload_reply =
    field (lit "code") (int (pos 0))
      (field (lit "path") (str (lit "/srv/f.txt")) (field (lit "size") (int (pos 3)) end))

abbrev delete_request : Request
delete_request = record upload_request { path = lit "/delete" }

abbrev full_world : World
full_world = record {
  proxy = empty_manager;
  tree = (lit "srv" ∷ [], dir) ∷ (lit "srv" ∷ lit "f.txt" ∷ [], file (7 ∷ [])) ∷ [];
}

abbrev delete_reply : Fields
delete_reply = field (lit "code") (int (pos 0)) (field (lit "deleted") (str (lit "/srv/f.txt")) end)

delete_answered : (handle_delete host server delete_request full_world).0 ≡ sent 200 delete_reply
unfolding handle_delete delete_at require_path param get ◌==◌ resolve exists node_at Tree.find
    same_path remove_tree segments
delete_answered = refl

delete-download_example :
    (handle_download host server download_request
      (handle_delete host server delete_request full_world).1).0
    ≡ error_of 404 404 (lit "文件不存在: /srv/f.txt")
delete-download_example =
    delete-download host server delete_request download_request full_world (lit "/srv/f.txt")
      delete_reply refl path_found delete_answered

abbrev anonymous : Request
anonymous = record upload_request { x_token = none }

anonymous_refused : authed server.token anonymous.x_token ≡ some false
unfolding authed
anonymous_refused = refl

false_ne_true : some false ≢ some true
false_ne_true = ground arith

upload_ne_ping : lit "/upload" ≢ lit "/ping"
upload_ne_ping = ground arith

handle-unauthorized_example :
    handle host server anonymous world ≡ (rejection host server (some false), world)
handle-unauthorized_example =
    handle-unauthorized host server anonymous world (some false) anonymous_refused false_ne_true
      (λ e. upload_ne_ping)

abbrev fresh_world : World
fresh_world = record { proxy = empty_manager; tree = [] }

empty_manager-IsConsistent : IsConsistent empty_manager
empty_manager-IsConsistent = record { distinct = tt; served = tt; retired = tt }

handle-IsSound_example : IsSound (handle host server upload_request fresh_world).1
handle-IsSound_example =
    handle-IsSound host server upload_request fresh_world
      (record { proxy_consistent = empty_manager-IsConsistent; tree_rooted = empty-IsRooted })

abbrev rule : Rule
rule = record {
  listen_ip = lit "0.0.0.0";
  listen_port = pos 8080;
  target_ip = lit "10.0.0.2";
  target_port = pos 80;
  name = lit "web";
  backlog = pos 128;
}

rule_valid : validate rule ≡ ok tt
unfolding validate is_port bad_target
rule_valid = refl

rule_new : Manager.find rule.name empty_manager.rules ≡ none
unfolding Manager.find
rule_new = refl

Reach-IsConsistent_example : IsConsistent (remove (lit "web") (add none rule empty_manager).1).1
Reach-IsConsistent_example = Reach-IsConsistent empty_manager-IsConsistent (
    next (next here (adding none rule empty_manager))
      (removing (lit "web") (add none rule empty_manager).1))

add-Added_example : Added none rule empty_manager (add none rule empty_manager)
add-Added_example = add-Added none rule empty_manager

remove-add_example :
    remove (lit "web") (add none rule empty_manager).1
    ≡ (ok rule, record { rules = []; retired = retire (launch rule) ∷ [] })
remove-add_example = remove-add rule empty_manager rule_new rule_valid

serve_round-retired_example : HasEnded 1 (
    steps
      (Poll.connection ∷ Poll.quiet ∷ Poll.quiet ∷ [])
      (retire (record (launch rule) { selecting = true })))
serve_round-retired_example =
    serve_round-retired Poll.connection Poll.quiet (Poll.quiet ∷ [])
      (retire (record (launch rule) { selecting = true })) (refl, refl)

Step-Allowed_example : Allowed (view []) (view (add none rule empty_manager).1.rules)
Step-Allowed_example = Step-Allowed (adding none rule empty_manager)
