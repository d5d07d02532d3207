-- ===== src/Auth/Request/Locked.antt =====
-- What a request without a valid token is answered, and what it leaves.
use rubix_redis_bridge.Prelude.{
  ℕ, ◌<◌, ◌≡◌, ◌≢◌, ◌⊎◌, inl, inr, refl, true, not, ◌||◌, is_empty, Bool-cases, [], ◌∷◌, Option, ok,
  err, arith, get, Option-cases,
}
use rubix_redis_bridge.Text.{Str, lit, split_once, is_whitespace, trim, eq_ignore_ascii_case}
use rubix_redis_bridge.Config.Hash.{TokenHash, hash_eq}
use rubix_redis_bridge.Auth.Lockout.{is_enabled, run, fails, snapshots, step}
use rubix_redis_bridge.Auth.Lockout.Invariant.{IsValid}
use rubix_redis_bridge.Auth.Lockout.Locked.{IsLockedUntil, run-IsLockedUntil, run-already_locked}
use rubix_redis_bridge.App.Error.{text, too_many_requests}
use rubix_redis_bridge.App.Routes.{AuthRoute, Routes}
use rubix_redis_bridge.Auth.Request.{
  Auth, Request, answer, unauthorized, refuse, bearer_token, token_hash, bridge_auth,
  refresh_lockout_metrics,
}

-- A refusal is a failure of the client and a snapshot.
unauthorized-lockout :
    (a : Auth) (r : Request) (message : Str)
    → (unauthorized a r message).1.auth_lockout
      ≡ run a.auth_lockout (fails r.ip r.now ∷ snapshots r.later ∷ [])
unfolding unauthorized refresh_lockout_metrics run step
unauthorized-lockout a r message = refl

refuse_locked :
    {A : Type 0} (a : Auth) (r : Request) (message : Str) (until : ℕ)
    → IsValid a.auth_lockout
    → is_enabled a.auth_lockout ≡ true
    → IsLockedUntil a.auth_lockout r.ip until
    → r.now < until
    → r.later < until
    → ((refuse {A = A} a r message).0
        ≡ err (too_many_requests (text (lit "Too many failed authentication attempts"))))
      × IsLockedUntil (refuse {A = A} a r message).1.auth_lockout r.ip until
unfolding refuse unauthorized answer run
refuse_locked a r message until v on k before later =
    let (answered, kept) = run-already_locked r.ip until r.now a.auth_lockout [] v on k tt before in
    (
      rw answered refl,
      rw (unauthorized-lockout a r message) (
          run-IsLockedUntil r.ip until a.auth_lockout (fails r.ip r.now ∷ snapshots r.later ∷ []) v
            (before, (later, tt)) k),
    )

bearer_token_cases :
    (a : Auth) (r : Request)
    → ((token : Str) × (bearer_token a r ≡ (ok token, a)))
      ⊎ ((message : Str) × (bearer_token a r ≡ refuse a r message))
unfolding bearer_token
bearer_token_cases a r =
    let message = lit "Invalid authorization header" in
    elim (Option-cases r.authorization) [
      | inl e ↦ inr (message, ground arith)
      | inr (header, e) ↦ elim (Option-cases (split_once is_whitespace header)) [
        | inl uncut ↦ inr (message, ground arith)
        | inr ((scheme, rest), cut) ↦
            elim (Bool-cases
              (not (eq_ignore_ascii_case scheme (lit "Bearer")) || is_empty (trim rest))) [
                | inl bad ↦ inr (message, ground arith)
                | inr good ↦ inl (trim rest, ground arith)
              ]
      ]
    ]

module _ (sha256 : Str → TokenHash) (hmac_sha256 : Str → Str → TokenHash) where
  bridge_auth_refused :
      (token_routes : Routes) (hash_token : Option Str) (a : Auth) (r : Request)
      → ((route : AuthRoute)
          → (bridge_auth sha256 hmac_sha256 token_routes hash_token a r).0 ≢ ok route)
      → (message : Str) × (bridge_auth sha256 hmac_sha256 token_routes hash_token a r
          ≡ refuse a r message)
  unfolding bridge_auth refuse
  bridge_auth_refused token_routes hash_token a r refused = elim (bearer_token_cases a r) [
    | inr (message, e) ↦ (message, ground arith)
    | inl (token, e) ↦
        elim (Option-cases (get token_routes (token_hash sha256 hmac_sha256 hash_token token))) [
          | inl missing ↦ (lit "Invalid token", ground arith)
          | inr (route, found) ↦ absurd (refused route (ground arith))
        ]
  ]

  -- In a valid table of an enabled lockout, while an address is locked, a request from it without a valid token is answered by 429, not 401,
  -- and leaves the lock as it is.
  pub bridge_auth_locked :
      (token_routes : Routes) (hash_token : Option Str) (a : Auth) (r : Request) (until : ℕ)
      → IsValid a.auth_lockout
      → is_enabled a.auth_lockout ≡ true
      → IsLockedUntil a.auth_lockout r.ip until
      → r.now < until
      → r.later < until
      → ((route : AuthRoute)
          → (bridge_auth sha256 hmac_sha256 token_routes hash_token a r).0 ≢ ok route)
      → ((bridge_auth sha256 hmac_sha256 token_routes hash_token a r).0
          ≡ err (too_many_requests (text (lit "Too many failed authentication attempts"))))
        × IsLockedUntil
            (bridge_auth sha256 hmac_sha256 token_routes hash_token a r).1.auth_lockout
            r.ip
            until
  bridge_auth_locked token_routes hash_token a r until v on k before later refused =
      let (message, e) = bridge_auth_refused token_routes hash_token a r refused in
      rw e (refuse_locked a r message until v on k before later)
