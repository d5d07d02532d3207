-- ===== src/App/Routes.antt =====
-- `AppState::new` (src/app/state.rs): the targets and the routes of the bearer tokens. `Crates` says
-- what the redis and tokio crates take.
mod Tokens
pub mod Lookup
use rubix_redis_bridge.Prelude.{
  ℕ, suc, Bool, not, List, [], ◌∷◌, Option, Result, ok, ◌>>=◌, ◌>>◌, bail_if, ltb, ◌==◌, put,
  contains_key, map, if◌then◌else◌,
}
use rubix_redis_bridge.Text.{Str}
use rubix_redis_bridge.Config.Token.{TokenCaps}
use rubix_redis_bridge.Config.Hash.{TokenHash, hash_eq}
use rubix_redis_bridge.Config.Types.{AuthToken, Redis}
use rubix_redis_bridge.Config.Bridge.{Bridge}
use rubix_redis_bridge.Client.{TrustedProxy}
use rubix_redis_bridge.Security.Policy.{SecurityPolicy}
use rubix_redis_bridge.Auth.Lockout.{AuthLockout, empty}
use rubix_redis_bridge.App.Shards.{RedisTarget, new_target}

-- A route holds its target as the position in `targets`, for the `Arc` of the source.
pub record AuthRoute : Type 0 where
  pub target : ℕ
  pub token_type : TokenCaps

abbrev pub Routes : Type 0
Routes = List (TokenHash × AuthRoute)

pub data StateError : Type 0 where
  no_operations no_shards invalid_url : Str → StateError
  duplicate_hash : StateError
  panic : StateError

-- `opens` says which connection strings `redis::Client::open` takes; `max_permits` is tokio's
-- `Semaphore::MAX_PERMITS`, above which `Semaphore::new` panics: the error `panic` ends the program.
pub record Crates : Type 0 where
  pub opens : Str → Bool
  pub max_permits : ℕ

-- The `rrb_id` of each target stands beside the targets; of the realtime semaphore there are the permits.
pub record AppState (Connection : Type 0) : Type 0 where
  pub targets : List (RedisTarget Connection)
  pub target_ids : List Str
  pub token_routes : Routes
  pub security : SecurityPolicy
  pub request_timeout : ℕ
  pub acquire_timeout : ℕ
  pub max_response_bytes : ℕ
  pub hash_token : Option Str
  pub metrics_token : Option Str
  pub auth_lockout : AuthLockout
  pub trust_proxy_headers : Bool
  pub trusted_proxies : List TrustedProxy
  pub realtime_limit : ℕ

unfoldable pub add_token : ℕ → Routes → AuthToken → Result StateError Routes
add_token i routes token =
    if token.enabled
    then (do
      bail_if (contains_key routes token.hash) duplicate_hash
      ok (put routes token.hash (record { target = i; token_type = token.token_type })))
    else ok routes

unfoldable pub add_tokens : ℕ → Routes → List AuthToken → Result StateError Routes
add_tokens i routes [] = ok routes
add_tokens i routes (token ∷ tokens) = do
  routes' ← add_token i routes token
  add_tokens i routes' tokens

module _ {Connection : Type 0} (crates : Crates) where
  unfoldable pub add_target :
      ℕ → Routes → Redis → Result StateError (RedisTarget Connection × Routes)
  add_target i routes config = do
    bail_if (config.operation_limit == 0) (no_operations config.rrb_id)
    bail_if (config.connection_shards == 0) (no_shards config.rrb_id)
    bail_if (not (crates.opens config.connection_string)) (invalid_url config.rrb_id)
    bail_if (ltb crates.max_permits config.operation_limit) panic
    routes' ← add_tokens i routes config.tokens
    ok (new_target config.connection_shards, routes')

  unfoldable pub add_targets :
      ℕ → Routes → List Redis → Result StateError (List (RedisTarget Connection) × Routes)
  add_targets i routes [] = ok ([], routes)
  add_targets i routes (config ∷ configs) = do
    (target, routes') ← add_target i routes config
    (targets, routes'') ← add_targets (suc i) routes' configs
    ok (target ∷ targets, routes'')

  unfoldable pub new : Bridge → Result StateError (AppState Connection)
  new config = do
    (targets, token_routes) ← add_targets 0 [] config.targets
    bail_if (ltb crates.max_permits config.max_realtime_concurrency) panic
    ok (record {
      targets = targets;
      target_ids = map (λ t. t.rrb_id) config.targets;
      token_routes = token_routes;
      security = config.security;
      request_timeout = config.request_timeout;
      acquire_timeout = config.acquire_timeout;
      max_response_bytes = config.max_response_bytes;
      hash_token = config.hash_token;
      metrics_token = config.metrics_token;
      auth_lockout =
          empty config.auth_lockout_failures config.auth_lockout_window config.auth_lockout_duration
            config.auth_lockout_max_entries;
      trust_proxy_headers = config.trust_proxy_headers;
      trusted_proxies = config.trusted_proxies;
      realtime_limit = config.max_realtime_concurrency;
    })
