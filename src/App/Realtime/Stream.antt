-- ===== src/App/Realtime/Stream.antt =====
-- The stream that `subscribe` of src/app/realtime.rs answers with, once it is open: the closure of
-- `stream::unfold`, which gives one event at a time. The messages of a subscription are the redis
-- crate's, and so is a new subscription: what comes of each attempt, and when, is given in order.
pub mod Delivery
pub mod Pacing
pub mod Resumes
pub mod Format
use Prim.Native.String.{String}
use rubix_redis_bridge.Prelude.{
  ℕ, zero, suc, ◌+◌, ◌*◌, min, List, [], ◌∷◌, ◌++◌, Option, none, some, Result, ok, err,
}
use rubix_redis_bridge.Text.{Str, lit}
use rubix_redis_bridge.Text.Utf8.Lossy.{from_utf8_lossy}
use rubix_redis_bridge.Metrics.{ConnectionGuard, drop_connection}
use rubix_redis_bridge.Redis.Wait.{Wait, after, never, Timer}
use rubix_redis_bridge.App.Realtime.{RealtimeState}

-- `redis::Msg`, as `get_channel_name` and `get_payload_bytes` read it.
pub record Msg : Type 0 where
  pub channel : Str
  pub payload : List ℕ

unfoldable pub message_event : Msg → Str
message_event message =
    lit "message," ++ (message.channel ++ (lit "," ++ from_utf8_lossy message.payload))

-- What the closure passes on to its next call; the target and the channel do not change. `permit` is
-- what it holds of the realtime semaphore.
pub record Messages (PubSub : Type 0) : Type 0 where
  pub current : Option PubSub
  pub permit : ℕ
  pub connection_guard : ConnectionGuard
  pub backoff : ℕ

-- `next` is `messages.next()` of a subscription, which is awaited: the message comes after some time,
-- the subscription ends when its connection is lost, or it stays silent.
pub record RealtimeClient (PubSub : Type 0) : Type 0 where
  pub next : PubSub → Wait (Option (Msg × PubSub))
  pub request_timeout : ℕ

-- `target.pubsub()` and then `subscribe`, once more.
abbrev pub Attempt : Type 0 → Type 0
Attempt PubSub = Wait (Result (Unit {0}) PubSub)

-- A call of the closure returns an event with what it passes on and the attempts that it left, or
-- waits for a message that never comes, or is still in its loop when the given attempts are used up.
-- The number is the time that it was without a subscription, in attempts and sleeps. The time that it
-- waits for the messages of a subscription is not in it.
pub data Polled (PubSub : Type 0) : Type 0 where
  event : ℕ → Str → Messages PubSub → List (Attempt PubSub) → Polled PubSub
  waiting : ℕ → Messages PubSub → List (Attempt PubSub) → Polled PubSub
  pending : ℕ → Messages PubSub → Polled PubSub

-- What `stream::unfold` starts from, with the permit that `subscribe` has acquired.
unfoldable pub new_messages : {PubSub : Type 0} → PubSub → ConnectionGuard → Messages PubSub
new_messages pubsub guard = record {
  current = some pubsub;
  permit = 1;
  connection_guard = guard;
  backoff = 250;
}

module _ ⦃timer : Timer⦄ {PubSub : Type 0} (redis : RealtimeClient PubSub) where
  -- What follows an attempt, with the time that it took: the sleep is a part of the turn.
  unfoldable pub reconnected :
      Messages PubSub → ℕ → Option (Result (Unit {0}) PubSub) → ℕ × Messages PubSub
  reconnected s elapsed (some (ok pubsub)) =
      (elapsed, record s { current = some pubsub; backoff = 250 })
  reconnected s elapsed (some (err failed)) =
      (elapsed + s.backoff, record s { current = none; backoff = min (s.backoff * 2) 5000 })
  reconnected s elapsed none =
      (elapsed + s.backoff, record s { current = none; backoff = min (s.backoff * 2) 5000 })

  unfoldable pub reconnect : Messages PubSub → Attempt PubSub → ℕ × Messages PubSub
  unfolding reconnected
  reconnect s attempt =
      let (elapsed, outcome) = timer.limited redis.request_timeout attempt in
      reconnected s elapsed outcome

  -- What comes of the wait for a message of the subscription.
  unfoldable pub read_message :
      Messages PubSub
      → ℕ
      → List (Attempt PubSub)
      → PubSub
      → Wait (Option (Msg × PubSub))
      → Polled PubSub
      → Polled PubSub
  read_message s elapsed attempts pubsub never rest =
      waiting elapsed (record s { current = some pubsub }) attempts
  read_message s elapsed attempts pubsub (after waited none) rest = rest
  read_message s elapsed attempts pubsub (after waited (some (message, pubsub'))) rest =
      event elapsed (message_event message) (record s { current = some pubsub' }) attempts

  -- `current.take()` and the next message of it, or the rest of the turn.
  unfoldable pub read_current :
      Messages PubSub → ℕ → List (Attempt PubSub) → Option PubSub → Polled PubSub → Polled PubSub
  unfolding read_message
  read_current s elapsed attempts none rest = rest
  read_current s elapsed attempts (some pubsub) rest =
      read_message s elapsed attempts pubsub (redis.next pubsub) rest

  unfoldable pub poll : List (Attempt PubSub) → ℕ → Messages PubSub → Polled PubSub
  unfolding read_current reconnect
  poll [] elapsed s =
      read_current s elapsed [] s.current (pending elapsed (record s { current = none }))
  poll (attempt ∷ attempts) elapsed s =
      let (turn, s') = reconnect s attempt in
      let rest = poll attempts (elapsed + turn) s' in
      read_current s elapsed (attempt ∷ attempts) s.current rest

  -- The first events that the client gets of the messages, at most so many.
  unfoldable pub events : ℕ → List (Attempt PubSub) → Messages PubSub → List Str × Messages PubSub
  unfolding poll
  events zero attempts s = ([], s)
  events (suc n) attempts s = elim (poll attempts 0 s) [
    | pending elapsed s' ↦ ([], s')
    | waiting elapsed s' attempts' ↦ ([], s')
    | event elapsed text s' attempts' ↦
        let (later, last) = events n attempts' s' in (text ∷ later, last)
  ]

-- When the client is gone, the stream is dropped with its permit and its guard.
unfoldable pub drop_stream : {PubSub : Type 0} → Messages PubSub → RealtimeState → RealtimeState
drop_stream s state = record state {
  metrics = drop_connection s.connection_guard state.metrics;
  permits = state.permits + s.permit;
}
