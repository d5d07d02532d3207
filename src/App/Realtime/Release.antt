-- ===== src/App/Realtime/Release.antt =====
-- The permits of src/app/realtime.rs and the gauge of its metrics, over all clients: subscriptions
-- that open or are refused, streams that give events, and streams that are dropped, in any order.
pub mod Accounts
use rubix_redis_bridge.Prelude.{ℕ, Bool, ◌≡◌, List, [], ◌∷◌, map, some, get_elem?, set}
use rubix_redis_bridge.Text.{Str}
use rubix_redis_bridge.Metrics.{
  Labels, Metrics, Guard, ConnectionGuard, begin_operation, success, error, timeout, drop_guard,
  command_denied, request_denied, no_shards_connected, shard_connected, shard_disconnected,
  connection_attempted,
}
use rubix_redis_bridge.Auth.Request.{Auth}
use rubix_redis_bridge.Metrics.Ledger.{remove_at}
use rubix_redis_bridge.Config.Hash.{TokenHash}
use rubix_redis_bridge.App.Error.{ApiError}
use rubix_redis_bridge.App.Handlers.{Settings}
use rubix_redis_bridge.Redis.Wait.{Timer}
use rubix_redis_bridge.App.Realtime.{RealtimeState, refused, stream, Subscribing, subscribe}
use rubix_redis_bridge.App.Realtime.Stream.{
  Messages, RealtimeClient, Attempt, new_messages, events, drop_stream,
}

-- The shared state, and the streams that are open.
pub record Realtime (PubSub : Type 0) : Type 0 where
  pub state : RealtimeState
  pub streams : List (Messages PubSub)

abbrev pub stream_labels : {PubSub : Type 0} → Messages PubSub → Labels
stream_labels s = s.connection_guard.target ∷ []

-- What the other handlers and the workers do with the metrics.
pub data MetricsCall : Type 0 where
  begins : Str → Str → MetricsCall
  succeeds fails times_out is_dropped : Guard → MetricsCall
  denies_command denies_request : Str → Str → MetricsCall
  adds_target gains_shard loses_shard : Str → MetricsCall
  attempts : Str → Bool → MetricsCall

unfoldable pub call_metrics : MetricsCall → Metrics → Metrics
call_metrics (begins target kind) m = (begin_operation target kind m).1
call_metrics (succeeds guard) m = success guard m
call_metrics (fails guard) m = error guard m
call_metrics (times_out guard) m = timeout guard m
call_metrics (is_dropped guard) m = drop_guard guard m
call_metrics (denies_command target kind) m = command_denied target kind m
call_metrics (denies_request route reason) m = request_denied route reason m
call_metrics (adds_target target) m = no_shards_connected target m
call_metrics (gains_shard target) m = shard_connected target m
call_metrics (loses_shard target) m = shard_disconnected target m
call_metrics (attempts target connected) m = connection_attempted target connected m

module _ ⦃timer : Timer⦄ (Number : Type 0) {PubSub : Type 0} (redis : RealtimeClient PubSub)
    (settings : Settings) (sha256 : Str → TokenHash) (hmac_sha256 : Str → Str → TokenHash) where
  -- The handlers of the other routes, and the workers of the connections, know the authentication and
  -- the metrics, but not the semaphore: they serve in steps of one call of the metrics each.
  pub data Step : Realtime PubSub → Realtime PubSub → Type 0 where
    opens :
        {r : Realtime PubSub} {pubsub : PubSub} {guard : ConnectionGuard} {text : Str}
        {state : RealtimeState} (request : Subscribing PubSub Number)
        → subscribe settings request sha256 hmac_sha256 r.state ≡ (stream pubsub guard text, state)
        → Step r (record { state = state; streams = new_messages pubsub guard ∷ r.streams })
    refuses :
        {r : Realtime PubSub} {error : ApiError} {state : RealtimeState}
        (request : Subscribing PubSub Number)
        → subscribe settings request sha256 hmac_sha256 r.state ≡ (refused error, state)
        → Step r (record r { state = state })
    gives :
        {r : Realtime PubSub} {s : Messages PubSub} (i n : ℕ) (tries : List (Attempt PubSub))
        → get_elem? r.streams i ≡ some s
        → Step r (record r { streams = set r.streams i (events redis n tries s).1 })
    drops :
        {r : Realtime PubSub} {s : Messages PubSub} (i : ℕ)
        → get_elem? r.streams i ≡ some s
        → Step r (record { state = drop_stream s r.state; streams = remove_at r.streams i })
    serves :
        {r : Realtime PubSub} (auth : Auth) (call : MetricsCall)
        → Step r (record r {
          state = record r.state { auth = auth; metrics = call_metrics call r.state.metrics };
        })

  pub data Reach (start : Realtime PubSub) : Realtime PubSub → Type 0 where
    here : Reach start start
    next : {r r' : Realtime PubSub} → Reach start r → Step r r' → Reach start r'
