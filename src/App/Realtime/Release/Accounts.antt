-- ===== src/App/Realtime/Release/Accounts.antt =====
-- Every permit of src/app/realtime.rs is free or held by an open stream, and the gauge counts these.
use rubix_redis_bridge.Prelude.{ℕ, suc, ◌+◌, ◌≡◌, [], ◌∷◌, map, length, All}
use rubix_redis_bridge.Metrics.{Metrics, inc, error}
use rubix_redis_bridge.Metrics.Ledger.{Counts}
use rubix_redis_bridge.App.Realtime.{RealtimeState, Subscription, refused, stream}
use rubix_redis_bridge.App.Realtime.Stream.Pacing.{IsPaced}
use rubix_redis_bridge.App.Realtime.Release.{Realtime, stream_labels}

pub record IsAccounted {PubSub : Type 0} (limit : ℕ) (r : Realtime PubSub) : Type 0 where
  pub permits : r.state.permits + length r.streams ≡ limit
  pub held : All (λ s. s.permit ≡ 1) r.streams
  pub inflight : Counts r.state.metrics.realtime_inflight (map stream_labels r.streams)
  pub paced : All IsPaced r.streams

-- A refusal changes neither the permits nor the gauge; a stream takes one permit and counts once.
IsCharged : {PubSub : Type 0} → RealtimeState → Subscription PubSub × RealtimeState → Type 0
IsCharged s (refused error, s') =
    (s'.permits ≡ s.permits) × (s'.metrics.realtime_inflight ≡ s.metrics.realtime_inflight)
IsCharged s (stream pubsub guard text, s') =
    (suc s'.permits ≡ s.permits)
    × (s'.metrics.realtime_inflight ≡ inc s.metrics.realtime_inflight (guard.target ∷ []))
