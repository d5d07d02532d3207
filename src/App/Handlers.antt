-- ===== src/App/Handlers.antt =====
-- src/app/handlers.rs: the routes for commands, metrics and health, with `AppState::base64` of
-- src/app/state.rs. The address of the client is given with the request. What a request meets at each
-- target is given too, for the crates and the tasks that run beside it.
pub mod Sends
pub mod Stages
pub mod Answers
pub mod Refused
pub mod Keeps
use Prim.Native.String.{String}
use rubix_redis_bridge.Prelude.{
  ℕ, Bool, true, false, List, [], ◌∷◌, Option, none, some, Result, ok, err, any, length, not,
  if◌then◌else◌,
}
use rubix_redis_bridge.Text.{Str, lit, split, trim, eq_ignore_ascii_case}
use rubix_redis_bridge.Text.Decimal.{ℤ, pos}
use rubix_redis_bridge.Metrics.{Metrics, command_denied, request_denied}
use rubix_redis_bridge.Config.Token.{TokenCaps}
use rubix_redis_bridge.Config.Hash.{TokenHash}
use rubix_redis_bridge.Security.Types.{CommandArg, RedisCommand, PolicyError}
use rubix_redis_bridge.Security.Policy.{SecurityPolicy, parse_command, parse_command_list}
use rubix_redis_bridge.Auth.Request.{
  Auth, Request, command_auth, metrics_auth, refresh_lockout_metrics,
}
use rubix_redis_bridge.App.Error.{ApiError, text, policy, bad_request, unavailable}
use rubix_redis_bridge.App.Response.{
  Response, ResponseError, metric_reason, into_api_error, serialized_response,
}
use rubix_redis_bridge.App.Routes.{AuthRoute, Routes}
use rubix_redis_bridge.App.Shards.{RedisTarget, targets_ready}
use rubix_redis_bridge.Redis.Value.{Value}
use rubix_redis_bridge.Redis.Json.{
  Json, str, integer, obj, member, end, command_response, pipeline_response, transaction_response,
}
use rubix_redis_bridge.Redis.Wait.{Timer}
use rubix_redis_bridge.Redis.Execute.{
  Arrival, Client, execute_command, execute_pipeline, execute_transaction,
}

-- What a handler answers: a status with a JSON value, an error as `into_response` turns it into its
-- status and message, encoded bytes, or the text of the metrics.
pub data Answer : Type 0 where
  json : ℕ → Json → Answer
  failure : ApiError → Answer
  encoded : Response → Answer
  metrics_text : Str → Answer

unfoldable pub root : Answer
root = json 200 (obj (member (lit "status") (str (lit "ok")) end))

unfoldable pub healthz : Answer
healthz = json 200 (obj (member (lit "status") (str (lit "ok")) end))

unfoldable pub readyz : {Connection : Type 0} → List (RedisTarget Connection) → Answer
readyz targets =
    if not (targets_ready targets)
    then failure (unavailable (text (lit "Redis backend unavailable")))
    else json 200 (
        obj (
          member (lit "status") (str (lit "ready"))
            (member (lit "target_count") (integer (pos (length targets))) end)))

-- The `upstash-encoding` header, as `to_str` gives it.
unfoldable pub base64 : Option Str → Bool
base64 none = false
base64 (some value) =
    any (λ entry. eq_ignore_ascii_case (trim entry) (lit "base64")) (split b',' value)

-- What the handlers read of the state. The position of a target stands for its `Arc`.
pub record Settings : Type 0 where
  pub security : SecurityPolicy
  pub token_routes : Routes
  pub hash_token : Option Str
  pub metrics_token : Option Str
  pub request_timeout : ℕ
  pub acquire_timeout : ℕ
  pub max_response_bytes : ℕ
  pub target_ids : ℕ → Str

-- What they change.
pub record State : Type 0 where
  pub auth : Auth
  pub metrics : Metrics

pub record HttpRequest (Connection Body : Type 0) : Type 0 where
  pub caller : Request
  pub encoding : Option Str
  pub body : Option Body
  pub arrivals : ℕ → Arrival Connection

unfoldable pub response_or_denied : Str → Result ResponseError Response → State → Answer × State
response_or_denied route (ok response) s = (encoded response, s)
response_or_denied route (err error) s = (
  failure (into_api_error error),
  record s { metrics = request_denied route (metric_reason error) s.metrics },
)

-- `return error.into_response()`
abbrev pub fail_with : ApiError → Auth → Metrics → Answer × State
fail_with error auth m = (failure error, record { auth = auth; metrics = m })

-- `render` is the prometheus crate's.
unfoldable pub metrics : Settings → State → Request → Option Str → Answer × State
metrics settings s caller render =
    let (allowed, auth) = metrics_auth settings.metrics_token s.auth caller in
    elim allowed [
      | err error ↦ fail_with error auth (request_denied (lit "metrics") (lit "auth") s.metrics)
      | ok granted ↦
          let s' = record s { auth = refresh_lockout_metrics caller.later auth } in
          elim render [
            | none ↦ (failure (unavailable (text (lit "Metrics unavailable"))), s')
            | some body ↦ (metrics_text body, s')
          ]
    ]

-- The end of `command`, `pipeline` and `multi_exec`; the second case encodes the reply.
unfoldable pub answer_reply :
    {Connection Body Reply : Type 0}
    → (Json → List (List ℕ) × Bool)
    → Str
    → (Bool → Reply → Json)
    → Settings
    → HttpRequest Connection Body
    → Auth
    → Result ApiError Reply
    → Metrics
    → Answer × State
answer_reply write_json route_name render settings request auth (err error) m =
    fail_with error auth m
answer_reply write_json route_name render settings request auth (ok reply) m =
    let (chunks, fails) = write_json (render (base64 request.encoding) reply) in
    response_or_denied route_name (serialized_response 200 chunks fails settings.max_response_bytes)
      (record { auth = auth; metrics = m })

-- The body that `command`, `pipeline` and `multi_exec` share, over the name of the route, the label of
-- a refusal, the parser, the execution and the JSON of the reply.
module _ (write_json : Json → List (List ℕ) × Bool) {Connection Body Parsed Reply : Type 0}
    (route_name kind : Str) (parse : Body → TokenCaps → Result PolicyError Parsed)
    (execute : Str → Arrival Connection → Parsed → Metrics → ℕ × Result ApiError Reply × Metrics)
    (render : Bool → Reply → Json) (settings : Settings) (s : State)
    (request : HttpRequest Connection Body) where
  unfoldable pub run_parsed : Auth → AuthRoute → Result PolicyError Parsed → Answer × State
  unfolding answer_reply
  run_parsed auth route (err error) = fail_with (bad_request (policy error)) auth (
      request_denied route_name (lit "policy")
        (command_denied (settings.target_ids route.target) kind s.metrics))
  run_parsed auth route (ok parsed) =
      let (elapsed, outcome, m) =
        execute (settings.target_ids route.target) (request.arrivals route.target) parsed
          s.metrics in
      answer_reply write_json route_name render settings request auth outcome m

  unfoldable pub check_body : Auth → AuthRoute → Option Body → Answer × State
  unfolding run_parsed
  check_body auth route none =
      fail_with (bad_request (text (lit "Invalid JSON body"))) auth
        (request_denied route_name (lit "invalid_json") s.metrics)
  check_body auth route (some body) = run_parsed auth route (parse body route.token_type)

  unfoldable pub check_auth : Auth → Result ApiError AuthRoute → Answer × State
  unfolding check_body
  check_auth auth (err error) =
      fail_with error auth (request_denied route_name (lit "auth") s.metrics)
  check_auth auth (ok route) = check_body auth route request.body

  unfoldable pub handle : (Str → TokenHash) → (Str → Str → TokenHash) → Answer × State
  unfolding check_auth
  handle sha256 hmac_sha256 =
      let (allowed, auth) =
        command_auth sha256 hmac_sha256 settings.token_routes settings.hash_token s.auth
          request.caller in
      check_auth auth allowed

-- An execution with the timeouts of the settings.
abbrev pub run_with :
    {Connection Parsed Reply : Type 0}
    → Settings
    → (Str → Arrival Connection → Parsed → ℕ → ℕ → Metrics → ℕ × Result ApiError Reply × Metrics)
    → Str
    → Arrival Connection
    → Parsed
    → Metrics
    → ℕ × Result ApiError Reply × Metrics
run_with settings execute id a parsed m =
    execute id a parsed settings.request_timeout settings.acquire_timeout m

module _ (sha256 : Str → TokenHash) (hmac_sha256 : Str → Str → TokenHash)
    (write_json : Json → List (List ℕ) × Bool) where
  module _ ⦃timer : Timer⦄ {Number Connection : Type 0} (number_to_string : Number → Str)
      (base64_text : List ℕ → Str) (client : Client Connection) where
    unfoldable pub command :
        Settings → State → HttpRequest Connection (List (CommandArg Number)) → Answer × State
    unfolding handle
    command settings s request =
        handle write_json (lit "command") (lit "single")
          (parse_command number_to_string settings.security)
          (run_with settings (execute_command client)) (command_response base64_text) settings s
          request sha256 hmac_sha256

    unfoldable pub pipeline :
        Settings → State → HttpRequest Connection (List (List (CommandArg Number))) → Answer × State
    unfolding handle
    pipeline settings s request =
        handle write_json (lit "pipeline") (lit "pipeline")
          (parse_command_list number_to_string settings.security)
          (run_with settings (execute_pipeline client)) (pipeline_response base64_text) settings s
          request sha256 hmac_sha256

    unfoldable pub multi_exec :
        Settings → State → HttpRequest Connection (List (List (CommandArg Number))) → Answer × State
    unfolding handle
    multi_exec settings s request =
        handle write_json (lit "multi_exec") (lit "multi_exec")
          (parse_command_list number_to_string settings.security)
          (run_with settings (execute_transaction client)) (transaction_response base64_text)
          settings s request sha256 hmac_sha256
