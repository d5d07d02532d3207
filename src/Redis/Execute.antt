-- ===== src/Redis/Execute.antt =====
-- src/redis/execute.rs: an operation on Redis, with its limits of time, and the loop of
-- `RedisTarget::connection` (src/app/state.rs). The redis client and the semaphore are crates: what they
-- answer, and after how many milliseconds, is given.
pub mod Agrees
pub mod Ends
pub mod Served
use Prim.Native.String.{String}
use rubix_redis_bridge.Prelude.{
  ℕ, ◌+◌, List, [], ◌∷◌, Option, none, some, Result, ok, err, map_err, map,
}
use rubix_redis_bridge.Text.{Str, lit}
use rubix_redis_bridge.Metrics.{Metrics, Guard, begin_operation, success, error, timeout}
use rubix_redis_bridge.Security.Types.{RedisCommand}
use rubix_redis_bridge.App.Error.{
  ApiError, text, too_many_requests, unavailable, timeout as timeout_error,
}
use rubix_redis_bridge.App.Shards.{RedisTarget, try_connection}
use rubix_redis_bridge.Redis.Value.{Value}
use rubix_redis_bridge.Redis.Json.{RedisResponse, result, error as error_text}
use rubix_redis_bridge.Redis.Error.{RedisError, redis_api_error, redis_error_message}
use rubix_redis_bridge.Redis.Wait.{Wait, after, never, delay, Timer, and_then}

-- What a waiting request sees of its target: after a time the supervisors have changed it, or have
-- stopped, or nothing happens any more.
pub data Changes (Connection : Type 0) : Type 0 where
  changed : ℕ → RedisTarget Connection → Changes Connection → Changes Connection
  stopped : ℕ → Changes Connection
  quiet : Changes Connection

-- What one request meets: the time at which the semaphore gives it a permit, or says that it is
-- closed, then the target and its later changes.
pub record Arrival (Connection : Type 0) : Type 0 where
  pub permit : Wait (Result (Unit {0}) (Unit {0}))
  pub target : RedisTarget Connection
  pub changes : Changes Connection

abbrev pub backend_down : ApiError
backend_down = unavailable (text (lit "Redis backend unavailable"))

-- The `match` on the result of the outer timeout
unfoldable pub conclude :
    {T : Type 0} → Str → Guard → Metrics → Option (Result ApiError T) → Result ApiError T × Metrics
conclude timeout_message g m (some (ok value)) = (ok value, success g m)
conclude timeout_message g m (some (err reason)) = (err reason, error g m)
conclude timeout_message g m none = (err (timeout_error (text timeout_message)), timeout g m)

module _ {Connection : Type 0} where
  abbrev pub found_or :
      Option (ℕ × ℕ × Connection)
      → Wait (Result (Unit {0}) Connection)
      → Wait (Result (Unit {0}) Connection)
  found_or (some (index, generation, c)) later = after 0 (ok c)
  found_or none later = later

  -- The loop of `connection` from the shard that `fetch_add` gave.
  unfoldable pub wait_connection :
      ℕ → RedisTarget Connection → Changes Connection → Wait (Result (Unit {0}) Connection)
  wait_connection start t (changed d t' later) =
      found_or (try_connection t start) (delay d (wait_connection start t' later))
  wait_connection start t (stopped d) = found_or (try_connection t start) (after d (err tt))
  wait_connection start t quiet = found_or (try_connection t start) never

  module _ ⦃timer : Timer⦄ {T : Type 0} where
    unfoldable pub run_operation :
        (Connection → Wait (Result ApiError T))
        → Result (Unit {0}) Connection
        → Wait (Result ApiError T)
    run_operation operation (err closed) = after 0 (err backend_down)
    run_operation operation (ok connection) = operation connection

    unfoldable pub with_permit :
        Arrival Connection
        → (Connection → Wait (Result ApiError T))
        → Option (Result (Unit {0}) (Unit {0}))
        → Wait (Result ApiError T)
    unfolding run_operation
    with_permit a operation none =
        after 0 (err (too_many_requests (text (lit "Redis operation capacity exhausted"))))
    with_permit a operation (some (err closed)) = after 0 (err backend_down)
    with_permit a operation (some (ok permit)) =
        and_then (wait_connection a.target.next_connection a.target a.changes)
          (run_operation operation)

    -- The `async move` block
    unfoldable pub attempt :
        Arrival Connection → ℕ → (Connection → Wait (Result ApiError T)) → Wait (Result ApiError T)
    unfolding with_permit
    attempt a acquire_timeout operation =
        let (elapsed, permit) = timer.limited acquire_timeout a.permit in
        delay elapsed (with_permit a operation permit)

    -- The time taken, the result and the metrics.
    unfoldable pub execute_operation :
        Str
        → Arrival Connection
        → Str
        → Str
        → ℕ
        → ℕ
        → Metrics
        → (Connection → Wait (Result ApiError T))
        → ℕ × Result ApiError T × Metrics
    unfolding attempt conclude
    execute_operation target_id a operation_name timeout_message request_timeout acquire_timeout m
          operation =
        let (g, m') = begin_operation target_id operation_name m in
        let (elapsed, outcome) =
          timer.limited request_timeout (attempt a acquire_timeout operation) in
        let (reply, m'') = conclude timeout_message g m' outcome in (elapsed, reply, m'')

-- The redis client: `query_async` of a command, of a pipeline that ignores errors, and of an atomic
-- pipeline.
pub record Client (Connection : Type 0) : Type 0 where
  pub query : Connection → RedisCommand → Wait (Result RedisError Value)
  pub query_pipeline :
      Connection → List RedisCommand → Wait (Result RedisError (List (Result RedisError Value)))
  pub query_transaction : Connection → List RedisCommand → Wait (Result RedisError (List Value))

unfoldable pub pipeline_reply : Result RedisError Value → RedisResponse
pipeline_reply (ok value) = result value
pipeline_reply (err reason) = error_text (redis_error_message reason)

-- `map` and `map_err` on what a query answers
unfoldable pub answered : {A B : Type 0} → (A → B) → Result RedisError A → Wait (Result ApiError B)
answered f (ok value) = after 0 (ok (f value))
answered f (err reason) = after 0 (err (redis_api_error reason))

module _ ⦃timer : Timer⦄ {Connection : Type 0} (client : Client Connection) where
  unfoldable pub execute_command :
      Str
      → Arrival Connection
      → RedisCommand
      → ℕ
      → ℕ
      → Metrics
      → ℕ × Result ApiError Value × Metrics
  execute_command target_id a command request_timeout acquire_timeout m =
      execute_operation target_id a (lit "command") (lit "Redis command timed out") request_timeout
        acquire_timeout m
        (λ connection. and_then (client.query connection command) (answered (λ value. value)))

  unfoldable pub execute_pipeline :
      Str
      → Arrival Connection
      → List RedisCommand
      → ℕ
      → ℕ
      → Metrics
      → ℕ × Result ApiError (List RedisResponse) × Metrics
  unfolding pipeline_reply
  execute_pipeline target_id a commands request_timeout acquire_timeout m =
      execute_operation target_id a (lit "pipeline") (lit "Redis pipeline timed out")
        request_timeout acquire_timeout m
        (λ connection.
          and_then (client.query_pipeline connection commands) (answered (map pipeline_reply)))

  unfoldable pub execute_transaction :
      Str
      → Arrival Connection
      → List RedisCommand
      → ℕ
      → ℕ
      → Metrics
      → ℕ × Result ApiError (List Value) × Metrics
  execute_transaction target_id a commands request_timeout acquire_timeout m =
      execute_operation target_id a (lit "multi_exec") (lit "Redis transaction timed out")
        request_timeout acquire_timeout m
        (λ connection.
          and_then (client.query_transaction connection commands) (answered (λ values. values)))
