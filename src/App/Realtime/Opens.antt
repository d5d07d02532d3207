-- ===== src/App/Realtime/Opens.antt =====
-- When `subscribe` of src/app/realtime.rs opens a stream, and what becomes of the permits.
use rubix_redis_bridge.Prelude.{
  ℕ, zero, suc, ◌≡◌, ◌≤◌, ◌<◌, ◌↔◌, refl, Bool, true, false, List, [], ◌∷◌, ◌++◌, Option, none,
  some, Result, ok, err, get, list_eq, nat_eq, any, is_empty, arith, All,
}
use rubix_redis_bridge.Text.{Str, lit, utf8_len}
use rubix_redis_bridge.Metrics.{ConnectionGuard, realtime_connection}
use rubix_redis_bridge.Config.Hash.{TokenHash, hash_eq}
use rubix_redis_bridge.Security.Types.{CommandArg}
use rubix_redis_bridge.Auth.Request.{token_hash}
use rubix_redis_bridge.Auth.Request.Accepts.{HasBearer, bridge_auth_iff, command_realtime_auth_iff}
use rubix_redis_bridge.App.Error.{ApiError}
use rubix_redis_bridge.App.Routes.{AuthRoute}
use rubix_redis_bridge.App.Handlers.{Settings}
use rubix_redis_bridge.Redis.Wait.{Timer, after}
use rubix_redis_bridge.App.Realtime.{
  is_unsupported, validate_channel, RealtimeState, stream, Subscribing, deny, open_stream,
  take_permit, check_channel, check_subscription, check_route, subscribe,
}

any-eq-false_iff : (p : ℕ → Bool) (s : Str) → (any p s ≡ false) ↔ All (λ c. p c ≡ false) s
any-eq-false_iff p [] = (λ h. tt, λ h. refl)
any-eq-false_iff p (c ∷ s) =
    let later = any-eq-false_iff p s in
    (λ h. (ground (arith, h), later.0 (ground (arith, h))), λ h. ground (arith, h.0, later.1 h.1))

-- The channel has a name, it is not too long, and no character of it ends a field of an event.
pub record IsChannel (channel : Str) (max_bytes : ℕ) : Type 0 where
  pub has_name : is_empty channel ≡ false
  pub fits : utf8_len channel ≤ max_bytes
  pub supported : All (λ c. is_unsupported c ≡ false) channel

pub validate_channel_iff :
    (channel : Str) (max_bytes : ℕ)
    → (validate_channel channel max_bytes ≡ ok tt) ↔ IsChannel channel max_bytes
unfolding validate_channel
validate_channel_iff channel max_bytes =
    let each = any-eq-false_iff is_unsupported channel in
    (
      λ h. record {
        has_name = ground (arith, h);
        fits = ground (arith, h);
        supported = each.0 (ground (arith, h));
      },
      λ c. ground (arith, c.has_name, c.fits, each.1 c.supported),
    )

module _ ⦃timer : Timer⦄ {PubSub Number : Type 0} (settings : Settings)
    (request : Subscribing PubSub Number) where
  -- The setup for a route gave the subscription in time, and this is its stream.
  pub record IsSetUp (route : AuthRoute) (pubsub : PubSub) (guard : ConnectionGuard) (event : Str)
      : Type 0 where
    pub elapsed : ℕ
    pub in_time : elapsed ≤ settings.request_timeout
    pub setup_is : request.setup route.target request.channel ≡ after elapsed (ok pubsub)
    pub guard_is : guard ≡ record { target = settings.target_ids route.target }
    pub event_is : event ≡ lit "subscribe," ++ (request.channel ++ lit ",1")

  open_stream_sound :
      (route : AuthRoute) (o : Option (Result (Unit {0}) PubSub)) (s : RealtimeState)
      (pubsub : PubSub) (guard : ConnectionGuard) (event : Str)
      → (open_stream settings request route o s).0 ≡ stream pubsub guard event
      → (o ≡ some (ok pubsub))
        × (guard ≡ record { target = settings.target_ids route.target })
        × (event ≡ lit "subscribe," ++ (request.channel ++ lit ",1"))
  unfolding open_stream deny realtime_connection
  open_stream_sound route none s pubsub guard event h = cc
  open_stream_sound route (some (err failed)) s pubsub guard event h = cc
  open_stream_sound route (some (ok given)) s pubsub guard event h = (cc, cc, cc)

  take_permit_sound :
      (route : AuthRoute) (permits : ℕ) (s : RealtimeState) (pubsub : PubSub)
      (guard : ConnectionGuard) (event : Str)
      → (take_permit settings request route permits s).0 ≡ stream pubsub guard event
      → (0 < permits) × IsSetUp route pubsub guard event
  unfolding take_permit deny
  take_permit_sound route zero s pubsub guard event h = cc
  take_permit_sound route (suc left) s pubsub guard event h =
      let w = request.setup route.target request.channel in
      let (given, guard_is, event_is) =
        open_stream_sound route (timer.limited settings.request_timeout w).1
          (record s { permits = left }) pubsub guard event h in
      let (le, is) = timer.was_ready settings.request_timeout w (ok pubsub) given in
      (
        omega arith,
        record {
          elapsed = (timer.limited settings.request_timeout w).0;
          in_time = le;
          setup_is = is;
          guard_is = guard_is;
          event_is = event_is;
        },
      )

  -- The body is the empty array, the channel can be used, and a permit is left.
  pub record IsOpened (route : AuthRoute) (s : RealtimeState) (pubsub : PubSub)
      (guard : ConnectionGuard) (event : Str) : Type 0 where
    pub body_is : request.body ≡ some []
    pub channel : IsChannel request.channel settings.security.max_arg_bytes
    pub permit : 0 < s.permits
    pub set_up : IsSetUp route pubsub guard event

  check_channel_sound :
      (route : AuthRoute) (r : Result ApiError (Unit {0})) (s : RealtimeState) (pubsub : PubSub)
      (guard : ConnectionGuard) (event : Str)
      → (check_channel settings request route r s).0 ≡ stream pubsub guard event
      → (r ≡ ok tt) × (0 < s.permits) × IsSetUp route pubsub guard event
  unfolding check_channel deny
  check_channel_sound route (err error) s pubsub guard event h = cc
  check_channel_sound route (ok valid) s pubsub guard event h =
      let (permit, set_up) = take_permit_sound route s.permits s pubsub guard event h in
      (refl, permit, set_up)

  check_subscription_sound :
      (route : AuthRoute) (o : Option (List (CommandArg Number))) (s : RealtimeState)
      (pubsub : PubSub) (guard : ConnectionGuard) (event : Str)
      → request.body ≡ o
      → (check_subscription settings request route o s).0 ≡ stream pubsub guard event
      → IsOpened route s pubsub guard event
  unfolding check_subscription deny
  check_subscription_sound route none s pubsub guard event b h = cc
  check_subscription_sound route (some (arg ∷ args)) s pubsub guard event b h = cc
  check_subscription_sound route (some []) s pubsub guard event b h =
      let (valid, permit, set_up) =
        check_channel_sound route (validate_channel request.channel settings.security.max_arg_bytes)
          s pubsub guard event h in
      record {
        body_is = b;
        channel = (validate_channel_iff request.channel settings.security.max_arg_bytes).0 valid;
        permit = permit;
        set_up = set_up;
      }

  check_route_sound :
      (r : Result ApiError AuthRoute) (s : RealtimeState) (pubsub : PubSub)
      (guard : ConnectionGuard) (event : Str)
      → (check_route settings request r s).0 ≡ stream pubsub guard event
      → (route : AuthRoute) × (r ≡ ok route) × IsOpened route s pubsub guard event
  unfolding check_route deny
  check_route_sound (err error) s pubsub guard event h = cc
  check_route_sound (ok route) s pubsub guard event h =
      (route, refl, check_subscription_sound route request.body s pubsub guard event refl h)

  take_permit_complete :
      (route : AuthRoute) (permits : ℕ) (s : RealtimeState) (pubsub : PubSub)
      (guard : ConnectionGuard) (event : Str)
      → 0 < permits
      → IsSetUp route pubsub guard event
      → (take_permit settings request route permits s).0 ≡ stream pubsub guard event
  unfolding take_permit open_stream realtime_connection
  take_permit_complete route zero s pubsub guard event h set_up = absurd (omega (arith, h))
  take_permit_complete route (suc left) s pubsub guard event h set_up =
      let given =
        timer.in_time {A = Result (Unit {0}) PubSub} settings.request_timeout set_up.elapsed
          (ok pubsub) set_up.in_time in
      rw set_up.setup_is (rw (given, set_up.guard_is, set_up.event_is) refl)

  check_route_complete :
      (r : Result ApiError AuthRoute) (route : AuthRoute) (s : RealtimeState) (pubsub : PubSub)
      (guard : ConnectionGuard) (event : Str)
      → r ≡ ok route
      → IsOpened route s pubsub guard event
      → (check_route settings request r s).0 ≡ stream pubsub guard event
  unfolding check_route check_subscription check_channel
  check_route_complete r route s pubsub guard event e o =
      let valid =
        (validate_channel_iff request.channel settings.security.max_arg_bytes).1 o.channel in
      let opened = take_permit_complete route s.permits s pubsub guard event o.permit o.set_up in
      rw e (rw o.body_is (rw valid opened))

  -- `subscribe` opens a stream exactly in this case: the request carries a bearer token that has a route
  -- and may use realtime; its body is the empty array; the channel has a name of at most the allowed
  -- bytes, without a comma, a line break or a zero, so that it cannot forge a field of an event; a
  -- realtime permit is left; and the subscription at the route's own target is set up within the
  -- request's timeout. The stream then starts with the event of this channel, and its guard counts for
  -- this target.
  pub subscribe_opens_iff :
      (sha256 : Str → TokenHash) (hmac_sha256 : Str → Str → TokenHash) (s : RealtimeState)
      (pubsub : PubSub) (guard : ConnectionGuard) (event : Str)
      → ((subscribe settings request sha256 hmac_sha256 s).0 ≡ stream pubsub guard event) ↔ (
          (route : AuthRoute) × (token : Str) × HasBearer request.caller token
          × (get settings.token_routes (token_hash sha256 hmac_sha256 settings.hash_token token)
              ≡ some route)
          × (route.token_type.realtime ≡ true)
          × IsOpened route s pubsub guard event)
  unfolding subscribe
  subscribe_opens_iff sha256 hmac_sha256 s pubsub guard event = (
    λ h.
        let (route, allowed, opened) = check_route_sound _ _ pubsub guard event h in
        let (bridge, realtime) =
          (command_realtime_auth_iff sha256 hmac_sha256 settings.token_routes settings.hash_token
              s.auth request.caller route).1.0
            allowed in
        let (token, bearer, found) =
          (bridge_auth_iff sha256 hmac_sha256 settings.token_routes settings.hash_token s.auth
              request.caller route).0
            bridge in
        (
          route,
          token,
          bearer,
          found,
          realtime,
          record {
            body_is = opened.body_is;
            channel = opened.channel;
            permit = opened.permit;
            set_up = opened.set_up;
          },
        ),
    λ (route, token, bearer, found, realtime, opened).
        let bridge =
          (bridge_auth_iff sha256 hmac_sha256 settings.token_routes settings.hash_token s.auth
              request.caller route).1
            (token, bearer, found) in
        let allowed =
          (command_realtime_auth_iff sha256 hmac_sha256 settings.token_routes settings.hash_token
              s.auth request.caller route).1.1
            (bridge, realtime) in
        check_route_complete _ route _ pubsub guard event allowed (record {
          body_is = opened.body_is;
          channel = opened.channel;
          permit = opened.permit;
          set_up = opened.set_up;
        }),
  )
