-- ===== src/Proxy/Request.antt =====
-- scripts/proxy.py: what a handler is given and what it answers; authentication and parameters.
use taihu.Base.{
  ℕ, Bool, true, false, ◌&&◌, Option, none, some, List, [], ltb, if◌then◌else◌, Text, lit, ◌==◌, ℤ,
  pos, strip, is_space, all,
}
use taihu.Json.{Json, null, int, str, arr, nil, cons, Fields, end, field, get}
use taihu.Files.Tree.{Tree}
use taihu.Proxy.Rule.{text_of}
use taihu.Proxy.Manager.{Manager}

pub data Verb : Type 0 where
  get_verb post put delete : Verb

-- The request body: its bytes are none, no JSON, or a JSON value.
pub data Body : Type 0 where
  empty malformed : Body
  json : Json → Body

-- How `subprocess` ends for a command: an argument raises what is no OSError (a NUL in the command, a
-- timeout that is too large), it cannot be started, it ends in time, or it is killed.
pub data Process : Type 0 where
  not_accepted : Process
  not_started : Text → Process
  finished : ℤ → Text → Text → Process
  timed_out : ℤ → Text → Text → Process

-- A request, with what the machine contributes while it is handled: the clock, the system's answer to
-- a bind, and the bytes that arrive after the headers.
pub record Request : Type 0 where
  pub verb : Verb
  pub path : Text
  pub query : Fields
  pub x_token : Option Text
  pub body : Body
  pub content_length : Option Text
  pub stream : List ℕ
  pub now : ℕ
  pub elapsed_ms : ℕ
  pub bind_error : Option Text

pub record World : Type 0 where
  pub proxy : Manager
  pub tree : Tree

-- A JSON answer with its status, a file sent as a stream, the headers of a file with a JSON answer
-- behind them in place of its bytes, or an exception that no handler catches, after which nothing has
-- been sent.
pub data Reply : Type 0 where
  sent : ℕ → Fields → Reply
  download : Text → List ℕ → Reply
  spoiled : Text → Fields → Reply
  crashed : Reply

abbrev pub error_of : ℕ → ℕ → Text → Reply
error_of status number message =
    sent status (field (lit "code") (int (pos number)) (field (lit "error") (str message) end))

-- `hmac.compare_digest` on two texts, which raises a TypeError unless both are ASCII.
unfoldable pub compare_digest : Text → Text → Option Bool
unfolding ◌==◌
compare_digest a b =
    if all (λ c. ltb c 128) a && all (λ c. ltb c 128) b then some (a == b) else none

abbrev pub text_or : Text → Option Text → Text
text_or default none = default
text_or default (some s) = s

-- `_authed`: `none` is the exception.
unfoldable pub authed : Option Text → Option Text → Option Bool
unfolding compare_digest
authed none header = some true
authed (some token) header = compare_digest (text_or [] header) token

-- `_require_auth` in front of a handler.
unfoldable pub with_auth : Option Bool → World → Reply × World → Reply × World
with_auth none w handled = (crashed, w)
with_auth (some false) w handled = (error_of 401 401 (lit "unauthorized"), w)
with_auth (some true) w handled = handled

module _ (repr : Json → Text) where
  -- A list counts by its first element.
  unfoldable pub first_or : Json → Option Json → Json
  first_or default none = default
  first_or default (some (arr nil)) = default
  first_or default (some (arr (cons v items))) = v
  first_or default (some v) = v

  -- `str(v).strip()`, where `None` counts as the default.
  unfoldable pub shown_or : Text → Json → Text
  unfolding text_of strip is_space
  shown_or default null = strip is_space default
  shown_or default v = strip is_space (text_of repr v)

  unfoldable pub param : Fields → Text → Text → Text
  unfolding shown_or first_or
  param params key default = shown_or default (first_or (str default) (get key params))
