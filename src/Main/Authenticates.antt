-- ===== src/Main/Authenticates.antt =====
-- Which requests are authenticated once `main` of src/main.rs serves.
use rubix_redis_bridge.Prelude.{
  ℕ, ◌≡◌, ◌↔◌, ap, ◌∙◌, subst, Bool, List, Option, some, ok, get_elem?, arith, list_eq, nat_eq,
}
use rubix_redis_bridge.Text.{Str}
use rubix_redis_bridge.Metrics.Guards.Refines.{get_elem?-map}
use rubix_redis_bridge.Config.Hash.{TokenHash, hash_eq}
use rubix_redis_bridge.Config.Env.{Variable}
use rubix_redis_bridge.Config.Types.{FileConfig, Redis}
use rubix_redis_bridge.Config.Bridge.{Bridge, from_env}
use rubix_redis_bridge.Auth.Request.{Auth, Request, token_hash, bridge_auth}
use rubix_redis_bridge.Auth.Request.Accepts.{HasBearer, bridge_auth_iff}
use rubix_redis_bridge.App.Routes.{AuthRoute, Crates}
use rubix_redis_bridge.App.Routes.Lookup.{IsRouted}
use rubix_redis_bridge.Main.{Started, id_or_empty, settings_of, main}
use rubix_redis_bridge.Main.Start.{started-IsServing}

-- When `main` comes to serve the configuration that it has read, a request is authenticated exactly if
-- it carries, in a bearer header, a token whose hash is that of an enabled token of the configuration.
-- It then gets this token's target and capabilities, whatever the state of the authentication is, and
-- under the id of the target in the configuration.
pub started_auth_iff :
    {Connection Address : Type 0} (var : Str → Variable) (read_to_string : Str → Option Str)
    (from_str : Str → Option FileConfig) (sha256 : Str → TokenHash)
    (hmac_sha256 : Str → Str → TokenHash) (hex_decode : Str → Option (List ℕ)) (crates : Crates)
    (parse_address : Str → Option Address) (binds : Address → Bool) (b : Bridge)
    (s : Started Connection Address) (a : Auth) (r : Request) (route : AuthRoute)
    → from_env var read_to_string from_str sha256 hex_decode ≡ ok b
    → main var read_to_string from_str sha256 hex_decode crates parse_address binds ≡ ok s
    → ((bridge_auth sha256 hmac_sha256
          (settings_of s.app).token_routes
          (settings_of s.app).hash_token
          a
          r).0
        ≡ ok route)
      ↔ ((token : Str) × (config : Redis) × HasBearer r token
          × IsRouted 0 b.targets (token_hash sha256 hmac_sha256 b.hash_token token) route
          × (get_elem? b.targets route.target ≡ some config)
          × ((settings_of s.app).target_ids route.target ≡ config.rrb_id))
unfolding settings_of
started_auth_iff var read_to_string from_str sha256 hmac_sha256 hex_decode crates parse_address
      binds b s a r route loaded started =
    let serving =
      started-IsServing var read_to_string from_str sha256 hex_decode crates parse_address binds b s
        loaded started in
    let accepts =
      bridge_auth_iff sha256 hmac_sha256 s.app.token_routes s.app.hash_token a r route in
    (
      λ h.
          let (token, bearer, found) = accepts.0 h in
          let routed = (serving.routes _ route).0 found in
          let same_place : route.target ≡ routed.offset = omega (arith, routed.target_is) in
          let at : get_elem? b.targets route.target ≡ some routed.config =
            rw same_place routed.at_target in
          let named =
            get_elem?-map (λ (t : Redis). t.rrb_id) b.targets route.target routed.config at in
          (
            token,
            routed.config,
            bearer,
            subst (λ key. IsRouted 0 b.targets (token_hash sha256 hmac_sha256 key token) route)
                serving.hash_token routed,
            at,
            ap id_or_empty (ap (λ ids. get_elem? ids route.target) serving.target_ids ∙ named),
          ),
      λ (token, config, bearer, routed, at, id).
          accepts.1 (token, bearer, rw serving.hash_token ((serving.routes _ route).1 routed)),
    )
