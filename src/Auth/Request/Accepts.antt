-- ===== src/Auth/Request/Accepts.antt =====
-- Which requests the bearer tokens let through.
use rubix_redis_bridge.Prelude.{
  ◌≡◌, ◌↔◌, inl, inr, true, false, Option, some, ok, arith, get, is_empty, Option-cases,
  Result-cases,
}
use rubix_redis_bridge.Text.{Str, lit, split_once, is_whitespace, trim, eq_ignore_ascii_case}
use rubix_redis_bridge.Text.Splitting.{IsCut, split_once_iff}
use rubix_redis_bridge.Config.Token.{allows_command_route}
use rubix_redis_bridge.Config.Hash.{TokenHash, hash_eq}
use rubix_redis_bridge.App.Routes.{AuthRoute, Routes}
use rubix_redis_bridge.Auth.Request.{
  Auth, Request, refuse, bearer_token, token_hash, bridge_auth, command_auth, realtime_auth,
}

-- The header is `Bearer`, in any case, then white space and the token, which is not blank.
pub record HasBearer (r : Request) (token : Str) : Type 0 where
  pub header : Str
  pub scheme : Str
  pub rest : Str
  pub is_sent : r.authorization ≡ some header
  pub cut : IsCut is_whitespace header scheme rest
  pub is_bearer : eq_ignore_ascii_case scheme (lit "Bearer") ≡ true
  pub token_is : trim rest ≡ token
  pub not_blank : is_empty token ≡ false

bearer_token_some :
    (a : Auth) (r : Request) (token : Str) → HasBearer r token → bearer_token a r ≡ (ok token, a)
unfolding bearer_token
bearer_token_some a r token h =
    let cut = (split_once_iff is_whitespace h.header h.scheme h.rest).1 h.cut in
    ground (arith, cut, h.is_sent, h.is_bearer, h.token_is, h.not_blank)

bearer_token_sound :
    (a : Auth) (r : Request) (token : Str) → (bearer_token a r).0 ≡ ok token → HasBearer r token
unfolding bearer_token refuse
bearer_token_sound a r token h = elim (Option-cases r.authorization) [
  | inl e ↦ absurd (ground arith)
  | inr (header, e) ↦ elim (Option-cases (split_once is_whitespace header)) [
    | inl uncut ↦ absurd (ground arith)
    | inr ((scheme, rest), cut) ↦ record {
      header = header;
      scheme = scheme;
      rest = rest;
      is_sent = e;
      cut = (split_once_iff is_whitespace header scheme rest).0 cut;
      is_bearer = ground arith;
      token_is = ground arith;
      not_blank = ground arith;
    }
  ]
]

module _ (sha256 : Str → TokenHash) (hmac_sha256 : Str → Str → TokenHash) where
  module _ (token_routes : Routes) (hash_token : Option Str) where
    -- A request is authenticated for a route exactly if it carries a bearer token whose hash has that
    -- route.
    pub bridge_auth_iff :
        (a : Auth) (r : Request) (route : AuthRoute)
        → ((bridge_auth sha256 hmac_sha256 token_routes hash_token a r).0 ≡ ok route) ↔ (
            (token : Str) × HasBearer r token
            × (get token_routes (token_hash sha256 hmac_sha256 hash_token token) ≡ some route))
    unfolding bridge_auth refuse
    bridge_auth_iff a r route = (sound, complete)
      where
        complete :
            (token : Str) × HasBearer r token
              × (get token_routes (token_hash sha256 hmac_sha256 hash_token token) ≡ some route)
            → (bridge_auth sha256 hmac_sha256 token_routes hash_token a r).0 ≡ ok route
        complete (token, bearer, found) = ground (arith, bearer_token_some a r token bearer)

        sound :
            (bridge_auth sha256 hmac_sha256 token_routes hash_token a r).0 ≡ ok route
            → (token : Str) × HasBearer r token
              × (get token_routes (token_hash sha256 hmac_sha256 hash_token token) ≡ some route)
        sound h = elim (Result-cases (bearer_token a r).0) [
          | inr (e, failed) ↦ absurd (ground arith)
          | inl (token, sent) ↦ (token, bearer_token_sound a r token sent, ground arith)
        ]

    -- A request may run commands, or use realtime routes, exactly if it is authenticated for a route
    -- with a capability for it.
    pub command_realtime_auth_iff :
        (a : Auth) (r : Request) (route : AuthRoute)
        → (((command_auth sha256 hmac_sha256 token_routes hash_token a r).0 ≡ ok route) ↔ (
            ((bridge_auth sha256 hmac_sha256 token_routes hash_token a r).0 ≡ ok route)
            × (allows_command_route route.token_type ≡ true)))
          × (((realtime_auth sha256 hmac_sha256 token_routes hash_token a r).0 ≡ ok route) ↔ (
              ((bridge_auth sha256 hmac_sha256 token_routes hash_token a r).0 ≡ ok route)
              × (route.token_type.realtime ≡ true)))
    unfolding command_auth realtime_auth
    command_realtime_auth_iff a r route = (
      (λ h. (ground arith, ground arith), λ h. ground arith),
      (λ h. (ground arith, ground arith), λ h. ground arith),
    )
