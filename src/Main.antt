-- ===== src/Main.antt =====
-- src/main.rs: the start of the program, with `AppState::start_connection_workers` of
-- src/app/state.rs, and its routes. Parsing and binding an address are std's and tokio's, and
-- serving and the matching of a path are axum's.
pub mod Serving
pub mod Start
pub mod Authenticates
pub mod Routes
use Prim.Native.String.{String}
use rubix_redis_bridge.Prelude.{
  ℕ, Bool, List, [], ◌∷◌, ◌++◌, map, Option, none, some, Result, ok, err, ◌>>=◌, ◌>>◌, bail_if, not,
  map_err, length, get_elem?, replicate,
}
use rubix_redis_bridge.Text.{Str, lit}
use rubix_redis_bridge.Text.Decimal.{nat_to_string}
use rubix_redis_bridge.Config.Hash.{TokenHash}
use rubix_redis_bridge.Config.Env.{Variable}
use rubix_redis_bridge.Config.Types.{FileConfig}
use rubix_redis_bridge.Config.Bridge.{Bridge, BridgeError, from_env}
use rubix_redis_bridge.App.Handlers.{Settings}
use rubix_redis_bridge.App.Routes.{Crates, AppState, StateError, new}
use rubix_redis_bridge.App.Shards.{RedisTarget}
use rubix_redis_bridge.App.Shards.Worker.{Supervised, new_worker}
use rubix_redis_bridge.App.Realtime.{RealtimeState}
use rubix_redis_bridge.Metrics.{new_metrics}

pub data MainError : Type 0 where
  load : BridgeError → MainError
  bind_address : MainError
  state : StateError → MainError
  not_bound : MainError

-- `bind` is an address of std, and a supervised target is an `Arc` of the state with its workers.
pub record Started (Connection Address : Type 0) : Type 0 where
  pub bind : Address
  pub app : AppState Connection
  pub supervised : List (Supervised Connection)
  pub body_limit : ℕ
  pub max_concurrency : ℕ

abbrev pub parsed : {A : Type 0} → Option A → Result MainError A
parsed none = err bind_address
parsed (some address) = ok address

abbrev pub id_or_empty : Option Str → Str
id_or_empty none = []
id_or_empty (some id) = id

module _ {Connection : Type 0} where
  -- One worker for each shard of each target.
  unfoldable pub start_connection_workers :
      List (RedisTarget Connection) → List (Supervised Connection)
  start_connection_workers targets =
      map (λ t. record { workers = replicate (length t.connections) new_worker; target = t })
        targets

  -- What the handlers read of the state. A position without a target is not in any route.
  unfoldable pub settings_of : AppState Connection → Settings
  settings_of app = record {
    security = app.security;
    token_routes = app.token_routes;
    hash_token = app.hash_token;
    metrics_token = app.metrics_token;
    request_timeout = app.request_timeout;
    acquire_timeout = app.acquire_timeout;
    max_response_bytes = app.max_response_bytes;
    target_ids = λ i. id_or_empty (get_elem? app.target_ids i);
  }

  -- The state that they change, before the first request.
  unfoldable pub first_state : AppState Connection → RealtimeState
  first_state app = record {
    auth = record {
      auth_lockout = app.auth_lockout;
      metrics = record {
        auth_failed_total = 0;
        auth_lockouts_total = 0;
        auth_locked_requests_total = 0;
        auth_lockout_entry_limit_total = 0;
        auth_lockout_tracked_ips = 0;
        auth_lockout_locked_ips = 0;
      };
    };
    metrics = new_metrics;
    permits = app.realtime_limit;
  }

  -- `main` up to `axum::serve`. `binds` says at which addresses `TcpListener::bind` succeeds; the workers
  -- are spawned before it, and end with the program when it fails.
  unfoldable pub main :
      {Address : Type 0}
      → (Str → Variable)
      → (Str → Option Str)
      → (Str → Option FileConfig)
      → (Str → TokenHash)
      → (Str → Option (List ℕ))
      → Crates
      → (Str → Option Address)
      → (Address → Bool)
      → Result MainError (Started Connection Address)
  main var read_to_string from_str sha256 hex_decode crates parse_address binds = do
    config ← map_err load (from_env var read_to_string from_str sha256 hex_decode)
    bind ← parsed (parse_address (config.host ++ (lit ":" ++ nat_to_string config.port)))
    app ← map_err state (new crates config)
    bail_if (not (binds bind)) not_bound
    ok (record {
      bind = bind;
      app = app;
      supervised = start_connection_workers app.targets;
      body_limit = config.max_body_bytes;
      max_concurrency = config.max_concurrency;
    })
