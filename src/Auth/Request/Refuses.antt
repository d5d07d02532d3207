-- ===== src/Auth/Request/Refuses.antt =====
-- What src/auth/request.rs answers when it does not authenticate a request.
use rubix_redis_bridge.Prelude.{
  ◌≡◌, ◌⊎◌, inl, inr, refl, subst, Option, none, some, Result, ok, err, Result-cases, Option-cases,
  Bool-cases, not, ◌||◌, is_empty, get as get_value, list_eq, nat_eq,
}
use rubix_redis_bridge.Text.{
  Str, lit, str_eq, trim, split_once, is_whitespace, eq_ignore_ascii_case,
}
use rubix_redis_bridge.Config.Hash.{TokenHash, hash_eq}
use rubix_redis_bridge.Auth.Lockout.{
  AuthFailure, locked, already_locked, entry_limit_reached, disabled, tracked,
}
use rubix_redis_bridge.Auth.Request.{
  Auth, AuthMetrics, Request, answer, unauthorized, refuse, bearer_token, metrics_auth, token_hash,
  bridge_auth,
}
use rubix_redis_bridge.App.Error.{ApiError}
use rubix_redis_bridge.App.Routes.{Routes}

-- 401, or 429 from the lockout.
abbrev pub IsRefusal : ApiError → Type 0
IsRefusal error = (error.status ≡ 401) ⊎ (error.status ≡ 429)

unfoldable pub Refuses : {A : Type 0} → Result ApiError A → Type 0
Refuses (ok value) = Unit
Refuses (err error) = IsRefusal error

answer-IsRefusal :
    (result : AuthFailure) (message : Str) (m : AuthMetrics) → IsRefusal (answer result message m).0
unfolding answer
answer-IsRefusal locked message m = inr refl
answer-IsRefusal already_locked message m = inr refl
answer-IsRefusal entry_limit_reached message m = inl refl
answer-IsRefusal disabled message m = inl refl
answer-IsRefusal tracked message m = inl refl

refuse-Refuses :
    (A : Type 0) (a : Auth) (r : Request) (message : Str) → Refuses (refuse {A = A} a r message).0
unfolding refuse unauthorized Refuses
refuse-Refuses A a r message = answer-IsRefusal _ message _

bearer_token-Refuses : (a : Auth) (r : Request) → Refuses (bearer_token a r).0
unfolding Refuses bearer_token
bearer_token-Refuses a r = elim (Option-cases r.authorization) [
  | inl e ↦ simp (bearer_token, e) (refuse-Refuses _ a r _)
  | inr (header, e) ↦ elim (Option-cases (split_once is_whitespace header)) [
    | inl f ↦ simp (bearer_token, e, f) (refuse-Refuses _ a r _)
    | inr ((scheme, rest), f) ↦
        elim (Bool-cases
          (not (eq_ignore_ascii_case scheme (lit "Bearer")) || is_empty (trim rest))) [
            | inl t ↦ simp (bearer_token, e, f, t) (refuse-Refuses _ a r _)
            | inr t ↦ simp (bearer_token, e, f, t) tt
          ]
  ]
]

pub metrics_auth-Refuses :
    (metrics_token : Option Str) (a : Auth) (r : Request)
    → Refuses (metrics_auth metrics_token a r).0
unfolding metrics_auth Refuses
metrics_auth-Refuses none a r = inl refl
metrics_auth-Refuses (some metrics_token) a r = elim (Result-cases (bearer_token a r).0) [
  | inl (token, e) ↦ elim (Bool-cases (str_eq metrics_token token)) [
    | inl t ↦ simp (metrics_auth, e, t) tt
    | inr t ↦ simp (metrics_auth, e, t) (refuse-Refuses _ _ r _)
  ]
  | inr (error, e) ↦ simp (metrics_auth, e) (subst Refuses e (bearer_token-Refuses a r))
]

module _ (sha256 : Str → TokenHash) (hmac_sha256 : Str → Str → TokenHash) (token_routes : Routes)
    (hash_token : Option Str) where
  pub bridge_auth-Refuses :
      (a : Auth) (r : Request)
      → Refuses (bridge_auth sha256 hmac_sha256 token_routes hash_token a r).0
  unfolding Refuses bridge_auth
  bridge_auth-Refuses a r = elim (Result-cases (bearer_token a r).0) [
    | inl (token, e) ↦
        elim (Option-cases
          (get_value token_routes (token_hash sha256 hmac_sha256 hash_token token))) [
            | inl f ↦ simp (bridge_auth, e, f) (refuse-Refuses _ _ r _)
            | inr (route, f) ↦ simp (bridge_auth, e, f) tt
          ]
    | inr (error, e) ↦ simp (bridge_auth, e) (subst Refuses e (bearer_token-Refuses a r))
  ]
