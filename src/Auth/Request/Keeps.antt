-- ===== src/Auth/Request/Keeps.antt =====
-- The authentications of src/auth/request.rs keep the table of the lockout valid.
use rubix_redis_bridge.Prelude.{
  ℕ, ◌≡◌, ◌∙◌, inl, inr, Option, none, some, Result-cases, Option-cases, Bool-cases, not, ◌||◌,
  is_empty, get, list_eq, nat_eq,
}
use rubix_redis_bridge.Text.{
  Str, lit, str_eq, trim, split_once, is_whitespace, eq_ignore_ascii_case,
}
use rubix_redis_bridge.Config.Hash.{TokenHash, hash_eq}
use rubix_redis_bridge.Config.Token.{allows_command_route}
use rubix_redis_bridge.Auth.Lockout.{
  fails, succeeds, snapshots, step, AuthLockout, Event, record_failure_at, record_success,
}
use rubix_redis_bridge.Auth.Lockout.Invariant.{IsValid, step-IsValid, step-max_entries}
use rubix_redis_bridge.Auth.Request.{
  Auth, Request, refresh_lockout_metrics, unauthorized, refuse, bearer_token, welcome, metrics_auth,
  token_hash, bridge_auth, command_auth, realtime_auth,
}
use rubix_redis_bridge.App.Routes.{Routes}

-- The table of the lockout is valid, and its bound is the given one.
abbrev pub IsKeptTable : ℕ → AuthLockout → Type 0
IsKeptTable limit l = IsValid l × (l.max_entries ≡ limit)

abbrev pub IsKept : ℕ → Auth → Type 0
IsKept limit a = IsKeptTable limit a.auth_lockout

step-IsKeptTable :
    {limit : ℕ} (l : AuthLockout) (e : Event) → IsKeptTable limit l → IsKeptTable limit (step l e)
step-IsKeptTable l e (valid, bound) = (step-IsValid l e valid, step-max_entries l e ∙ bound)

pub refresh-IsKept :
    {limit : ℕ} (later : ℕ) (a : Auth)
    → IsKept limit a
    → IsKept limit (refresh_lockout_metrics later a)
unfolding refresh_lockout_metrics step
refresh-IsKept later a v = step-IsKeptTable a.auth_lockout (snapshots later) v

refuse-IsKept :
    {limit : ℕ} (A : Type 0) (a : Auth) (r : Request) (message : Str)
    → IsKept limit a
    → IsKept limit (refuse {A = A} a r message).1
unfolding refuse unauthorized refresh_lockout_metrics step
refuse-IsKept A a r message v =
    step-IsKeptTable (record_failure_at a.auth_lockout r.ip r.now).1 (snapshots r.later)
      (step-IsKeptTable a.auth_lockout (fails r.ip r.now) v)

welcome-IsKept : {limit : ℕ} (a : Auth) (r : Request) → IsKept limit a → IsKept limit (welcome a r)
unfolding welcome refresh_lockout_metrics step
welcome-IsKept a r v =
    step-IsKeptTable (record_success a.auth_lockout r.ip) (snapshots r.later)
      (step-IsKeptTable a.auth_lockout (succeeds r.ip) v)

bearer_token-IsKept :
    {limit : ℕ} (a : Auth) (r : Request) → IsKept limit a → IsKept limit (bearer_token a r).1
unfolding bearer_token
bearer_token-IsKept a r v = elim (Option-cases r.authorization) [
  | inl e ↦ simp (bearer_token, e) (refuse-IsKept _ a r _ v)
  | inr (header, e) ↦ elim (Option-cases (split_once is_whitespace header)) [
    | inl f ↦ simp (bearer_token, e, f) (refuse-IsKept _ a r _ v)
    | inr ((scheme, rest), f) ↦
        elim (Bool-cases
          (not (eq_ignore_ascii_case scheme (lit "Bearer")) || is_empty (trim rest))) [
            | inl t ↦ simp (bearer_token, e, f, t) (refuse-IsKept _ a r _ v)
            | inr t ↦ simp (bearer_token, e, f, t) v
          ]
  ]
]

pub metrics_auth-IsKept :
    {limit : ℕ} (metrics_token : Option Str) (a : Auth) (r : Request)
    → IsKept limit a
    → IsKept limit (metrics_auth metrics_token a r).1
unfolding metrics_auth
metrics_auth-IsKept none a r v = v
metrics_auth-IsKept (some metrics_token) a r v =
    let read = bearer_token-IsKept a r v in
    elim (Result-cases (bearer_token a r).0) [
      | inl (token, e) ↦ elim (Bool-cases (str_eq metrics_token token)) [
        | inl t ↦ simp (metrics_auth, e, t) (welcome-IsKept (bearer_token a r).1 r read)
        | inr t ↦ simp (metrics_auth, e, t) (refuse-IsKept _ _ r _ read)
      ]
      | inr (error, e) ↦ simp (metrics_auth, e) read
    ]

module _ (sha256 : Str → TokenHash) (hmac_sha256 : Str → Str → TokenHash) (token_routes : Routes)
    (hash_token : Option Str) {limit : ℕ} (a : Auth) (r : Request) where
  bridge_auth-IsKept :
      IsKept limit a → IsKept limit (bridge_auth sha256 hmac_sha256 token_routes hash_token a r).1
  unfolding bridge_auth
  bridge_auth-IsKept v =
      let read = bearer_token-IsKept a r v in
      elim (Result-cases (bearer_token a r).0) [
        | inl (token, e) ↦
            elim (Option-cases
              (get token_routes (token_hash sha256 hmac_sha256 hash_token token))) [
                | inl f ↦ simp (bridge_auth, e, f) (refuse-IsKept _ _ r _ read)
                | inr (route, f) ↦
                    simp (bridge_auth, e, f) (welcome-IsKept (bearer_token a r).1 r read)
              ]
        | inr (error, e) ↦ simp (bridge_auth, e) read
      ]

  pub command_auth-IsKept :
      IsKept limit a → IsKept limit (command_auth sha256 hmac_sha256 token_routes hash_token a r).1
  unfolding command_auth
  command_auth-IsKept v =
      let read = bridge_auth-IsKept v in
      elim (Result-cases (bridge_auth sha256 hmac_sha256 token_routes hash_token a r).0) [
        | inl (route, e) ↦ elim (Bool-cases (allows_command_route route.token_type)) [
          | inl t ↦ simp (command_auth, e, t) read
          | inr t ↦ simp (command_auth, e, t) read
        ]
        | inr (error, e) ↦ simp (command_auth, e) read
      ]

  pub realtime_auth-IsKept :
      IsKept limit a → IsKept limit (realtime_auth sha256 hmac_sha256 token_routes hash_token a r).1
  unfolding realtime_auth
  realtime_auth-IsKept v =
      let read = bridge_auth-IsKept v in
      elim (Result-cases (bridge_auth sha256 hmac_sha256 token_routes hash_token a r).0) [
        | inl (route, e) ↦ elim (Bool-cases route.token_type.realtime) [
          | inl t ↦ simp (realtime_auth, e, t) read
          | inr t ↦ simp (realtime_auth, e, t) read
        ]
        | inr (error, e) ↦ simp (realtime_auth, e) read
      ]
