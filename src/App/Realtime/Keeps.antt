-- ===== src/App/Realtime/Keeps.antt =====
-- `subscribe` of src/app/realtime.rs leaves the state of the authentication as `realtime_auth` has left it.
use rubix_redis_bridge.Prelude.{
  ℕ, zero, suc, ◌≡◌, refl, subst, sym, List, [], ◌∷◌, Option, none, some, Result, ok, err,
}
use rubix_redis_bridge.Text.{Str}
use rubix_redis_bridge.Config.Hash.{TokenHash}
use rubix_redis_bridge.Security.Types.{CommandArg}
use rubix_redis_bridge.Auth.Request.{realtime_auth}
use rubix_redis_bridge.Auth.Request.Keeps.{IsKept, realtime_auth-IsKept}
use rubix_redis_bridge.App.Error.{ApiError}
use rubix_redis_bridge.App.Routes.{AuthRoute}
use rubix_redis_bridge.App.Handlers.{Settings}
use rubix_redis_bridge.Redis.Wait.{Timer}
use rubix_redis_bridge.App.Realtime.{
  RealtimeState, Subscribing, deny, open_stream, take_permit, check_channel, check_subscription,
  check_route, subscribe,
}

module _ ⦃timer : Timer⦄ {PubSub Number : Type 0} (settings : Settings)
    (request : Subscribing PubSub Number) where
  open_stream-auth :
      (route : AuthRoute) (o : Option (Result (Unit {0}) PubSub)) (s : RealtimeState)
      → (open_stream settings request route o s).1.auth ≡ s.auth
  unfolding open_stream deny
  open_stream-auth route none s = refl
  open_stream-auth route (some (err failed)) s = refl
  open_stream-auth route (some (ok pubsub)) s = refl

  take_permit-auth :
      (route : AuthRoute) (permits : ℕ) (s : RealtimeState)
      → (take_permit settings request route permits s).1.auth ≡ s.auth
  unfolding take_permit deny
  take_permit-auth route zero s = refl
  take_permit-auth route (suc left) s = open_stream-auth route _ (record s { permits = left })

  check_channel-auth :
      (route : AuthRoute) (r : Result ApiError (Unit {0})) (s : RealtimeState)
      → (check_channel settings request route r s).1.auth ≡ s.auth
  unfolding check_channel deny
  check_channel-auth route (err error) s = refl
  check_channel-auth route (ok valid) s = take_permit-auth route s.permits s

  check_subscription-auth :
      (route : AuthRoute) (o : Option (List (CommandArg Number))) (s : RealtimeState)
      → (check_subscription settings request route o s).1.auth ≡ s.auth
  unfolding check_subscription deny
  check_subscription-auth route none s = refl
  check_subscription-auth route (some (arg ∷ args)) s = refl
  check_subscription-auth route (some []) s = check_channel-auth route _ s

  check_route-auth :
      (r : Result ApiError AuthRoute) (s : RealtimeState)
      → (check_route settings request r s).1.auth ≡ s.auth
  unfolding check_route deny
  check_route-auth (err error) s = refl
  check_route-auth (ok route) s = check_subscription-auth route request.body s

  pub subscribe-IsKept :
      {limit : ℕ} (sha256 : Str → TokenHash) (hmac_sha256 : Str → Str → TokenHash)
      (s : RealtimeState)
      → IsKept limit s.auth
      → IsKept limit (subscribe settings request sha256 hmac_sha256 s).1.auth
  unfolding subscribe
  subscribe-IsKept {limit} sha256 hmac_sha256 s v =
      let result =
        realtime_auth sha256 hmac_sha256 settings.token_routes settings.hash_token s.auth
          request.caller in
      subst (IsKept limit) (sym (check_route-auth result.0 (record s { auth = result.1 }))) (
        realtime_auth-IsKept sha256 hmac_sha256 settings.token_routes settings.hash_token s.auth
          request.caller v)
