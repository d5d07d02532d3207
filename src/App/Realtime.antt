-- ===== src/App/Realtime.antt =====
-- src/app/realtime.rs: the subscription of a client to a channel, up to its stream, with
-- `AppState::acquire_realtime`. What the redis client does with the subscription, and when, is given.
pub mod Opens
pub mod Stream
pub mod Release
pub mod Keeps
use Prim.Native.String.{String}
use rubix_redis_bridge.Prelude.{
  ℕ, zero, suc, ◌*◌, min, Bool, not, ◌||◌, List, [], ◌∷◌, ◌++◌, Option, none, some, Result, ok, err,
  ◌>>◌, bail_if, ltb, ◌==◌, any, is_empty, if◌then◌else◌,
}
use rubix_redis_bridge.Text.{Str, lit, utf8_len}
use rubix_redis_bridge.Metrics.{Metrics, ConnectionGuard, request_denied, realtime_connection}
use rubix_redis_bridge.Config.Hash.{TokenHash}
use rubix_redis_bridge.Security.Types.{CommandArg}
use rubix_redis_bridge.Auth.Request.{Auth, Request, realtime_auth}
use rubix_redis_bridge.App.Error.{
  ApiError, text, channel_over, bad_request, too_many_requests, unavailable,
  timeout as timeout_error,
}
use rubix_redis_bridge.App.Routes.{AuthRoute}
use rubix_redis_bridge.App.Handlers.{Settings}
use rubix_redis_bridge.Redis.Wait.{Wait, Timer}

unfoldable pub is_unsupported : ℕ → Bool
is_unsupported character =
    character == b',' || (character == 13 || (character == 10 || character == 0))

unfoldable pub validate_channel : Str → ℕ → Result ApiError (Unit {0})
validate_channel channel max_bytes = do
  bail_if (is_empty channel) (bad_request (text (lit "Realtime channel cannot be empty")))
  bail_if (ltb max_bytes (utf8_len channel)) (bad_request (channel_over max_bytes))
  bail_if (any is_unsupported channel) (
      bad_request (
        text
          (lit "Realtime channel contains a character unsupported by the Upstash event protocol")))
  ok tt

-- What `subscribe` changes: the permits are those that the realtime semaphore has left.
pub record RealtimeState : Type 0 where
  pub auth : Auth
  pub metrics : Metrics
  pub permits : ℕ

-- A stream holds a permit and a guard, and starts with its first event; the messages of `PubSub` follow.
pub data Subscription (PubSub : Type 0) : Type 0 where
  refused : ApiError → Subscription PubSub
  stream : PubSub → ConnectionGuard → Str → Subscription PubSub

-- `setup` is `target.pubsub()` and then `subscribe`, for the position of the target and the channel.
pub record Subscribing (PubSub Number : Type 0) : Type 0 where
  pub caller : Request
  pub channel : Str
  pub body : Option (List (CommandArg Number))
  pub setup : ℕ → Str → Wait (Result (Unit {0}) PubSub)

-- A refusal at one of the tests, with the reason that is counted.
unfoldable pub deny :
    {PubSub : Type 0} → Str → ApiError → RealtimeState → Subscription PubSub × RealtimeState
deny reason error s =
    (refused error, record s { metrics = request_denied (lit "subscribe") reason s.metrics })

module _ ⦃timer : Timer⦄ {PubSub Number : Type 0} (settings : Settings)
    (request : Subscribing PubSub Number) where
  -- `match setup`; the permit goes back if there is no stream.
  unfoldable pub open_stream :
      AuthRoute
      → Option (Result (Unit {0}) PubSub)
      → RealtimeState
      → Subscription PubSub × RealtimeState
  unfolding deny
  open_stream route (some (ok pubsub)) s =
      let (guard, m) = realtime_connection (settings.target_ids route.target) s.metrics in
      (
        stream pubsub guard (lit "subscribe," ++ (request.channel ++ lit ",1")),
        record s { metrics = m },
      )
  open_stream route (some (err failed)) s =
      deny (lit "backend") (unavailable (text (lit "Redis backend unavailable")))
        (record s { permits = suc s.permits })
  open_stream route none s =
      deny (lit "timeout") (timeout_error (text (lit "Redis subscription setup timed out")))
        (record s { permits = suc s.permits })

  -- `try_acquire_owned`
  unfoldable pub take_permit : AuthRoute → ℕ → RealtimeState → Subscription PubSub × RealtimeState
  unfolding open_stream
  take_permit route zero s =
      deny (lit "capacity")
        (too_many_requests (text (lit "Realtime connection capacity exhausted"))) s
  take_permit route (suc left) s =
      open_stream route
        (timer.limited settings.request_timeout (request.setup route.target request.channel)).1
        (record s { permits = left })

  unfoldable pub check_channel :
      AuthRoute → Result ApiError (Unit {0}) → RealtimeState → Subscription PubSub × RealtimeState
  unfolding take_permit
  check_channel route (err error) s = deny (lit "channel") error s
  check_channel route (ok valid) s = take_permit route s.permits s

  unfoldable pub check_subscription :
      AuthRoute
      → Option (List (CommandArg Number))
      → RealtimeState
      → Subscription PubSub × RealtimeState
  unfolding check_channel
  check_subscription route none s =
      deny (lit "invalid_json") (bad_request (text (lit "Invalid JSON body"))) s
  check_subscription route (some (arg ∷ args)) s =
      deny (lit "invalid_body")
        (bad_request (text (lit "Subscription body must be an empty command array"))) s
  check_subscription route (some []) s =
      check_channel route (validate_channel request.channel settings.security.max_arg_bytes) s

  unfoldable pub check_route :
      Result ApiError AuthRoute → RealtimeState → Subscription PubSub × RealtimeState
  unfolding check_subscription
  check_route (err error) s = deny (lit "auth") error s
  check_route (ok route) s = check_subscription route request.body s

  unfoldable pub subscribe :
      (Str → TokenHash)
      → (Str → Str → TokenHash)
      → RealtimeState
      → Subscription PubSub × RealtimeState
  unfolding check_route
  subscribe sha256 hmac_sha256 s =
      let (allowed, auth) =
        realtime_auth sha256 hmac_sha256 settings.token_routes settings.hash_token s.auth
          request.caller in
      check_route allowed (record s { auth = auth })
