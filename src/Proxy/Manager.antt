-- ===== src/Proxy/Manager.antt =====
-- scripts/proxy.py: `ProxyManager`, its table of rules and the listener threads.
use taihu.Base.{
  ℕ, ◌+◌, Bool, not, true, false, Option, none, some, List, [], ◌∷◌, ◌++◌, if◌then◌else◌, Text, lit,
  ◌==◌, show_int,
}
use taihu.Json.{flag, Items, nil, cons, obj, assign}
use taihu.Proxy.Rule.{Rule, value_error, key_error, Result, ok, raised, validate, to_dict}

-- A listener: its stop event, whether its socket is open and its thread alive, whether the thread has
-- passed the test of the stop event and is at the poll, and how many connections it has handed on.
pub record Listener : Type 0 where
  pub rule : Rule
  pub stop : Bool
  pub open_sock : Bool
  pub alive : Bool
  pub selecting : Bool
  pub accepted : ℕ

abbrev pub Table : Type 0
Table = List (Text × Listener)

-- `_rules`, and the listeners of removed rules, whose threads may still run.
pub record Manager : Type 0 where
  pub rules : Table
  pub retired : List Listener

abbrev pub empty_manager : Manager
empty_manager = record { rules = []; retired = [] }

unfoldable pub find : Text → Table → Option Listener
find name [] = none
find name ((k, l) ∷ t) = if k == name then some l else find name t

unfoldable pub without : Text → Table → Table
without name [] = []
without name ((k, l) ∷ t) = let rest = without name t in if k == name then rest else (k, l) ∷ rest

abbrev pub launch : Rule → Listener
launch rule = record {
  rule = rule;
  stop = false;
  open_sock = true;
  alive = true;
  selecting = false;
  accepted = 0;
}

unfoldable pub bind_message : Rule → Text → Text
bind_message rule e =
    lit "监听 " ++ (rule.listen_ip ++ (lit ":" ++ (show_int rule.listen_port ++ (lit " 失败: " ++ e))))

-- What follows the test that the name is new: validation, the bind (with the system's error, if it
-- refuses) and the start of the thread.
unfoldable pub start : Option Text → Rule → Manager → Result (Unit {0}) → Result Rule × Manager
start bind_error rule m (raised e) = (raised e, m)
start none rule m (ok _) =
    (ok rule, record m { rules = m.rules ++ ((rule.name, launch rule) ∷ []) })
start (some e) rule m (ok _) = (raised (value_error (bind_message rule e)), m)

unfoldable pub add : Option Text → Rule → Manager → Result Rule × Manager
unfolding start find
add bind_error rule m = elim (find rule.name m.rules) [
  | some l ↦ (raised (value_error (lit "规则名已存在: " ++ rule.name)), m)
  | none ↦ start bind_error rule m (validate rule)
]

-- The stop event is set and the socket closed; the thread itself goes on to its next test.
abbrev pub retire : Listener → Listener
retire l = record l { stop = true; open_sock = false }

unfoldable pub remove : Text → Manager → Result Rule × Manager
unfolding find without
remove name m = elim (find name m.rules) [
  | none ↦ (raised (key_error (lit "规则不存在: " ++ name)), m)
  | some l ↦ (ok l.rule, record { rules = without name m.rules; retired = retire l ∷ m.retired })
]

unfoldable pub list_rules : Table → Items
list_rules [] = nil
list_rules ((k, l) ∷ t) =
    cons (obj (assign (lit "alive") (flag l.alive) (to_dict l.rule))) (list_rules t)

-- What `select` and `accept` answer in one round of `_serve`: no connection within the half second,
-- one that is accepted, one that `accept` refuses, or an error of `select` itself.
pub data Poll : Type 0 where
  quiet connection refused broken : Poll

abbrev finish : Listener → Listener
finish l = record l { open_sock = false; alive = false }

unfoldable pub polled : Poll → Listener → Listener
polled quiet l = l
polled connection l = record l { accepted = l.accepted + 1 }
polled refused l = finish l
polled broken l = finish l

-- Half a round of the loop: the test of the stop event, or the poll that follows it with `accept` and
-- the hand over. A removal may fall between the two; one that falls between `select` and `accept` is one
-- before a poll that is refused. A `listen` that fails is left out.
unfoldable pub serve_round : Poll → Listener → Listener
unfolding polled
serve_round poll l =
    if not l.alive
    then l
    else if l.selecting
    then polled poll (record l { selecting = false })
    else if l.stop
    then finish l
    else record l { selecting = true }

unfoldable pub round_at : Text → Poll → Table → Table
round_at name poll [] = []
round_at name poll ((k, l) ∷ t) =
    if k == name then (k, serve_round poll l) ∷ t else (k, l) ∷ round_at name poll t

unfoldable pub round_retired : ℕ → Poll → List Listener → List Listener
round_retired i poll [] = []
round_retired ℕ.zero poll (l ∷ ls) = serve_round poll l ∷ ls
round_retired (ℕ.suc i) poll (l ∷ ls) = l ∷ round_retired i poll ls
