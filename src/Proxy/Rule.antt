-- ===== src/Proxy/Rule.antt =====
-- scripts/proxy.py: `ProxyRule` and the rules of a configuration file.
use taihu.Base.{
  ℕ, suc, ◌+◌, Bool, true, false, not, ◌&&◌, ◌||◌, Option, none, some, List, [], ◌∷◌, ◌++◌, leb,
  if◌then◌else◌, Text, lit, ℤ, pos, negsuc, parse_int, show_int, show_nat, is_empty,
}
use taihu.Json.{
  Json, null, flag, int, float, str, arr, obj, Items, nil, cons, Fields, end, field, get,
}

pub record Rule : Type 0 where
  pub listen_ip : Text
  pub listen_port : ℤ
  pub target_ip : Text
  pub target_port : ℤ
  pub name : Text
  pub backlog : ℤ

-- An exception with its message, or a value.
pub data Raised : Type 0 where
  value_error : Text → Raised
  type_error : Raised
  key_error : Text → Raised

pub data Result {ℓ} (A : Type ℓ) : Type ℓ where
  ok : A → Result A
  raised : Raised → Result A

infixl 10 ◌>>=◌
abbrev pub ◌>>=◌ {ℓ κ} : {A : Type ℓ} {B : Type κ} → Result A → (A → Result B) → Result B
ok a >>= f = f a
raised e >>= f = raised e

-- `1 <= port <= 65535`; the number 0, which counts as false, is outside too.
unfoldable pub is_port : ℤ → Bool
is_port (pos n) = leb 1 n && leb n 65535
is_port (negsuc n) = false

unfoldable pub bad_listen_port : Rule → Text
bad_listen_port r = lit "规则 [" ++ (r.name ++ (lit "] 监听端口非法: " ++ show_int r.listen_port))

unfoldable pub bad_target : Rule → Text
bad_target r =
    lit "规则 ["
    ++ (r.name ++ (lit "] 目标地址不完整: " ++ (r.target_ip ++ (lit ":" ++ show_int r.target_port))))

unfoldable pub validate : Rule → Result (Unit {0})
validate r =
    if not (is_port r.listen_port)
    then raised (value_error (bad_listen_port r))
    else if is_empty r.target_ip || not (is_port r.target_port)
    then raised (value_error (bad_target r))
    else ok tt

unfoldable pub to_dict : Rule → Fields
to_dict r = field (lit "name") (str r.name) (
    field (lit "listen_ip") (str r.listen_ip) (
      field (lit "listen_port") (int r.listen_port) (
        field (lit "target_ip") (str r.target_ip) (
          field (lit "target_port") (int r.target_port)
            (field (lit "backlog") (int r.backlog) end)))))

-- `item[key]`, and `item.get(key, default)`.
unfoldable pub required : Text → Fields → Result Json
required key item = elim (get key item) [ none ↦ raised (key_error key) | some v ↦ ok v ]

unfoldable pub optional : Text → Json → Fields → Json
optional key default item = elim (get key item) [ none ↦ default | some v ↦ v ]

-- `repr` is what `str` makes of a list or a dict, and of a text in an error message.
module _ (repr : Json → Text) where
  -- `str(value)`
  unfoldable pub text_of : Json → Text
  text_of null = lit "None"
  text_of (flag true) = lit "True"
  text_of (flag false) = lit "False"
  text_of (int n) = show_int n
  text_of (float s) = s
  text_of (str s) = s
  text_of (arr items) = repr (arr items)
  text_of (obj fields) = repr (obj fields)

  unfoldable pub int_of_text : Text → Result ℤ
  int_of_text s = elim (parse_int s) [
    | none ↦ raised (value_error (lit "invalid literal for int() with base 10: " ++ repr (str s)))
    | some n ↦ ok n
  ]

-- `trunc` is `int` of a float.
module _ (repr : Json → Text) (trunc : Text → ℤ) where
  -- `int(value)`
  unfoldable pub int_of : Json → Result ℤ
  unfolding int_of_text
  int_of null = raised type_error
  int_of (flag true) = ok (pos 1)
  int_of (flag false) = ok (pos 0)
  int_of (int n) = ok n
  int_of (float s) = ok (trunc s)
  int_of (str s) = int_of_text repr s
  int_of (arr items) = raised type_error
  int_of (obj fields) = raised type_error

  -- The rule at the index `i`.
  unfoldable pub parse_rule : ℕ → Json → Result Rule
  parse_rule i (obj item) = do
    listen_value ← required (lit "listen_port") item
    listen_port ← int_of listen_value
    target_ip ← required (lit "target_ip") item
    target_value ← required (lit "target_port") item
    target_port ← int_of target_value
    backlog ← int_of (optional (lit "backlog") (int (pos 128)) item)
    let rule : Rule = record {
      listen_ip = text_of repr (optional (lit "listen_ip") (str (lit "0.0.0.0")) item);
      listen_port = listen_port;
      target_ip = text_of repr target_ip;
      target_port = target_port;
      name = text_of repr (optional (lit "name") (str (lit "rule-" ++ show_nat (suc i))) item);
      backlog = backlog;
    }
    checked ← validate rule
    ok rule
  parse_rule i other = raised (value_error (lit "rules[" ++ (show_nat i ++ lit "] 必须是对象")))

  unfoldable pub parse_rules_from : ℕ → Items → Result (List Rule)
  parse_rules_from i nil = ok []
  parse_rules_from i (cons item items) = do
    rule ← parse_rule i item
    rules ← parse_rules_from (i + 1) items
    ok (rule ∷ rules)

  -- `load_config` behind the JSON reader, and `parse_rules` of what it returns.
  unfoldable pub rules_of : Option Json → Result (List Rule)
  rules_of none = raised (value_error (lit "配置文件缺少 rules 列表"))
  rules_of (some (arr nil)) = raised (value_error (lit "rules 不能为空"))
  rules_of (some (arr (cons item items))) = parse_rules_from 0 (cons item items)
  rules_of (some other) = raised (value_error (lit "rules 不能为空"))

  unfoldable pub parse_config : Json → Result (List Rule)
  parse_config (obj cfg) = rules_of (get (lit "rules") cfg)
  parse_config other = raised (value_error (lit "配置文件缺少 rules 列表"))
