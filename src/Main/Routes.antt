-- ===== src/Main/Routes.antt =====
-- The routes of `main` (src/main.rs), and the handler that each of them leads to.
pub mod Strangers
pub mod Runs
use Prim.Native.String.{String}
use rubix_redis_bridge.Prelude.{ℕ, Bool, true, false, List, [], ◌∷◌, Option, none, some, Result}
use rubix_redis_bridge.Text.{Str, lit}
use rubix_redis_bridge.Config.Hash.{TokenHash}
use rubix_redis_bridge.Security.Types.{CommandArg}
use rubix_redis_bridge.Auth.Request.{Request}
use rubix_redis_bridge.App.Shards.{RedisTarget}
use rubix_redis_bridge.App.Handlers.{
  Answer, Settings, State, HttpRequest, root as answer_root, healthz as answer_healthz,
  readyz as answer_readyz, metrics as answer_metrics, command as answer_command,
  pipeline as answer_pipeline, multi_exec as answer_multi_exec,
}
use rubix_redis_bridge.App.Realtime.{
  RealtimeState, Subscription, Subscribing, subscribe as open_subscription,
}
use rubix_redis_bridge.Redis.Json.{Json}
use rubix_redis_bridge.Redis.Value.{Value}
use rubix_redis_bridge.Redis.Wait.{Wait, Timer}
use rubix_redis_bridge.Redis.Execute.{Arrival, Client}

pub data Endpoint : Type 0 where
  root healthz readyz metrics command pipeline multi_exec subscribe : Endpoint

pub data Method : Type 0 where
  get post : Method

pub record Route : Type 0 where
  pub method : Method
  pub path : Str
  pub endpoint : Endpoint

-- A router with its layers: the limit of a body in bytes, and of the requests that run at once.
pub record Router : Type 0 where
  pub routes : List Route
  pub body_limit : Option ℕ
  pub concurrency_limit : Option ℕ

abbrev route : Method → Str → Endpoint → Route
route method path endpoint = record { method = method; path = path; endpoint = endpoint }

unfoldable pub health : Router
health = record {
  routes =
      route get (lit "/healthz") healthz
      ∷ route get (lit "/readyz") readyz
      ∷ route get (lit "/metrics") metrics
      ∷ [];
  body_limit = none;
  concurrency_limit = none;
}

unfoldable pub api : ℕ → ℕ → Router
api body_limit max_concurrency = record {
  routes =
      route get (lit "/") root
      ∷ route post (lit "/") command
      ∷ route post (lit "/pipeline") pipeline
      ∷ route post (lit "/multi-exec") multi_exec
      ∷ [];
  body_limit = some body_limit;
  concurrency_limit = some max_concurrency;
}

unfoldable pub realtime : ℕ → Router
realtime body_limit = record {
  routes = route post (lit "/subscribe/{*channel}") subscribe ∷ [];
  body_limit = some body_limit;
  concurrency_limit = none;
}

-- The routers that are merged.
unfoldable pub app : ℕ → ℕ → List Router
app body_limit max_concurrency = health ∷ api body_limit max_concurrency ∷ realtime body_limit ∷ []

-- What a handler extracts from a request; a handler reads the part of its signature. The bodies are
-- those of one command and of several.
pub record Extracted (Connection PubSub Number : Type 0) : Type 0 where
  pub caller : Request
  pub encoding : Option Str
  pub single_body : Option (List (CommandArg Number))
  pub list_body : Option (List (List (CommandArg Number)))
  pub arrivals : ℕ → Arrival Connection
  pub targets : List (RedisTarget Connection)
  pub render : Option Str
  pub channel : Str
  pub setup : ℕ → Str → Wait (Result (Unit {0}) PubSub)

pub data Served (PubSub : Type 0) : Type 0 where
  answered : Answer → Served PubSub
  subscribed : Subscription PubSub → Served PubSub

-- The handlers but `subscribe` leave the permits alone.
abbrev pub with_permits : {PubSub : Type 0} → ℕ → Answer × State → Served PubSub × RealtimeState
with_permits permits (answer, s) =
    (answered answer, record { auth = s.auth; metrics = s.metrics; permits = permits })

module _ ⦃timer : Timer⦄ {Connection PubSub Number : Type 0} (sha256 : Str → TokenHash)
    (hmac_sha256 : Str → Str → TokenHash) (write_json : Json → List (List ℕ) × Bool)
    (number_to_string : Number → Str) (base64_text : List ℕ → Str) (client : Client Connection)
    (settings : Settings) (s : RealtimeState) (request : Extracted Connection PubSub Number) where
  abbrev shared : State
  shared = record { auth = s.auth; metrics = s.metrics }

  abbrev with_body : {Body : Type 0} → Option Body → HttpRequest Connection Body
  with_body body = record {
    caller = request.caller;
    encoding = request.encoding;
    body = body;
    arrivals = request.arrivals;
  }

  -- The handler of a route.
  unfoldable pub serve : Endpoint → Served PubSub × RealtimeState
  serve root = (answered answer_root, s)
  serve healthz = (answered answer_healthz, s)
  serve readyz = (answered (answer_readyz request.targets), s)
  serve metrics =
      with_permits s.permits (answer_metrics settings shared request.caller request.render)
  serve command = with_permits s.permits (
      answer_command sha256 hmac_sha256 write_json number_to_string base64_text client settings
        shared (with_body request.single_body))
  serve pipeline = with_permits s.permits (
      answer_pipeline sha256 hmac_sha256 write_json number_to_string base64_text client settings
        shared (with_body request.list_body))
  serve multi_exec = with_permits s.permits (
      answer_multi_exec sha256 hmac_sha256 write_json number_to_string base64_text client settings
        shared (with_body request.list_body))
  serve subscribe =
      let (subscription, s') =
        open_subscription settings
          (record {
            caller = request.caller;
            channel = request.channel;
            body = request.single_body;
            setup = request.setup;
          })
          sha256 hmac_sha256 s in
      (subscribed subscription, s')
