-- ===== src/Auth/Request.antt =====
-- src/auth/request.rs: who may use which routes. A request's authorization header is its value as
-- `to_str` gives it, if there is one. A failure is recorded at the instant `now`, and the gauges are
-- refreshed at `later`. `sha256` and `hmac_sha256` are `TokenHash`'s digests by the sha2 and hmac crates.
pub mod Accepts
pub mod Locked
pub mod Refuses
pub mod Keeps
use Prim.Native.String.{String}
use rubix_redis_bridge.Prelude.{
  ℕ, ◌+◌, Bool, true, not, ◌||◌, List, Option, none, some, Result, ok, err, get, is_empty,
  if◌then◌else◌,
}
use rubix_redis_bridge.Text.{
  Str, lit, str_eq, split_once, is_whitespace, trim, eq_ignore_ascii_case,
}
use rubix_redis_bridge.Net.{IpAddr}
use rubix_redis_bridge.Config.Token.{TokenCaps, allows_command_route}
use rubix_redis_bridge.Config.Hash.{TokenHash, hash_eq}
use rubix_redis_bridge.Auth.Lockout.{
  AuthLockout, AuthFailure, AuthSnapshot, disabled, tracked, locked, already_locked,
  entry_limit_reached, record_failure_at, record_success, snapshot_at,
}
use rubix_redis_bridge.App.Error.{
  ApiError, Message, text, unauthorized as unauthorized_error, forbidden, too_many_requests,
}
use rubix_redis_bridge.App.Routes.{AuthRoute, Routes}

-- The metrics of the authentication.
pub record AuthMetrics : Type 0 where
  pub auth_failed_total : ℕ
  pub auth_lockouts_total : ℕ
  pub auth_locked_requests_total : ℕ
  pub auth_lockout_entry_limit_total : ℕ
  pub auth_lockout_tracked_ips : ℕ
  pub auth_lockout_locked_ips : ℕ

-- The part of the state that a request's authentication changes.
pub record Auth : Type 0 where
  pub auth_lockout : AuthLockout
  pub metrics : AuthMetrics

pub record Request : Type 0 where
  pub authorization : Option Str
  pub ip : IpAddr
  pub now : ℕ
  pub later : ℕ

unfoldable pub refresh_lockout_metrics : ℕ → Auth → Auth
refresh_lockout_metrics later a =
    let (snapshot, lockout) = snapshot_at a.auth_lockout later in
    record {
      auth_lockout = lockout;
      metrics = record (a.metrics) {
        auth_lockout_tracked_ips = snapshot.tracked_ips;
        auth_lockout_locked_ips = snapshot.locked_ips;
      };
    }

-- What the `match` counts and answers.
unfoldable pub answer : AuthFailure → Str → AuthMetrics → ApiError × AuthMetrics
answer locked message m = (
  too_many_requests (text (lit "Too many failed authentication attempts")),
  record m { auth_lockouts_total = m.auth_lockouts_total + 1 },
)
answer already_locked message m = (
  too_many_requests (text (lit "Too many failed authentication attempts")),
  record m { auth_locked_requests_total = m.auth_locked_requests_total + 1 },
)
answer entry_limit_reached message m = (
  unauthorized_error (text message),
  record m { auth_lockout_entry_limit_total = m.auth_lockout_entry_limit_total + 1 },
)
answer disabled message m = (unauthorized_error (text message), m)
answer tracked message m = (unauthorized_error (text message), m)

unfoldable pub unauthorized : Auth → Request → Str → ApiError × Auth
unfolding refresh_lockout_metrics answer
unauthorized a r message =
    let m = record (a.metrics) { auth_failed_total = a.metrics.auth_failed_total + 1 } in
    let (result, lockout) = record_failure_at a.auth_lockout r.ip r.now in
    let (error, m') = answer result message m in
    (error, refresh_lockout_metrics r.later (record { auth_lockout = lockout; metrics = m' }))

unfoldable pub refuse : {A : Type 0} → Auth → Request → Str → Result ApiError A × Auth
unfolding unauthorized
refuse a r message = let (error, a') = unauthorized a r message in (err error, a')

unfoldable pub bearer_token : Auth → Request → Result ApiError Str × Auth
bearer_token a r = elim r.authorization [
  | none ↦ refuse a r (lit "Invalid authorization header")
  | some header ↦ elim (split_once is_whitespace header) [
    | none ↦ refuse a r (lit "Invalid authorization header")
    | some (scheme, rest) ↦
        if not (eq_ignore_ascii_case scheme (lit "Bearer")) || is_empty (trim rest)
        then refuse a r (lit "Invalid authorization header")
        else (ok (trim rest), a)
  ]
]

-- `record_success` and the refresh after it
unfoldable pub welcome : Auth → Request → Auth
unfolding refresh_lockout_metrics
welcome a r =
    refresh_lockout_metrics r.later (record a { auth_lockout = record_success a.auth_lockout r.ip })

unfoldable pub metrics_auth : Option Str → Auth → Request → Result ApiError (Unit {0}) × Auth
unfolding welcome
metrics_auth none a r =
    (err (unauthorized_error (text (lit "Metrics authentication is not configured"))), a)
metrics_auth (some metrics_token) a r =
    let (result, a') = bearer_token a r in
    elim result [
      | err error ↦ (err error, a')
      | ok token ↦
          if not (str_eq metrics_token token)
          then refuse a' r (lit "Invalid token")
          else (ok tt, welcome a' r)
    ]

module _ (sha256 : Str → TokenHash) (hmac_sha256 : Str → Str → TokenHash) where
  unfoldable pub token_hash : Option Str → Str → TokenHash
  token_hash none token = sha256 token
  token_hash (some key) token = hmac_sha256 key token

  unfoldable pub bridge_auth :
      Routes → Option Str → Auth → Request → Result ApiError AuthRoute × Auth
  unfolding welcome
  bridge_auth token_routes hash_token a r =
      let (result, a') = bearer_token a r in
      elim result [
        | err error ↦ (err error, a')
        | ok token ↦ elim (get token_routes (token_hash hash_token token)) [
          | none ↦ refuse a' r (lit "Invalid token")
          | some route ↦ (ok route, welcome a' r)
        ]
      ]

  unfoldable pub command_auth :
      Routes → Option Str → Auth → Request → Result ApiError AuthRoute × Auth
  command_auth token_routes hash_token a r =
      let (result, a') = bridge_auth token_routes hash_token a r in
      elim result [
        | err error ↦ (err error, a')
        | ok route ↦
            if not (allows_command_route route.token_type)
            then (
              err (forbidden (text (lit "Bearer token is not allowed to access command routes"))),
              a',
            )
            else (ok route, a')
      ]

  unfoldable pub realtime_auth :
      Routes → Option Str → Auth → Request → Result ApiError AuthRoute × Auth
  realtime_auth token_routes hash_token a r =
      let (result, a') = bridge_auth token_routes hash_token a r in
      elim result [
        | err error ↦ (err error, a')
        | ok route ↦
            if not route.token_type.realtime
            then (
              err (forbidden (text (lit "Bearer token is not allowed to access realtime routes"))),
              a',
            )
            else (ok route, a')
      ]
