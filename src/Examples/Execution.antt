-- ===== src/Examples/Execution.antt =====
-- The metrics, and operations on Redis, at concrete inputs.
use rubix_redis_bridge.Prelude.{
  ℕ, ◌≡◌, ◌≤◌, refl, [], ◌∷◌, none, some, Result, ok, arith, ltb, leb, Option, inl, inr, Bool-cases,
  if◌then◌else◌,
}
use rubix_redis_bridge.Text.{Str, lit}
use rubix_redis_bridge.Metrics.{new_metrics, begin_operation, realtime_connection, timeout}
use rubix_redis_bridge.Metrics.Ledger.{late}
use rubix_redis_bridge.Metrics.Guards.{
  Program, started, begins, ends, connects, start, step, Reach, ledger_of,
}
use rubix_redis_bridge.Metrics.Guards.Refines.{Reads, metrics_refine_ledger}
use rubix_redis_bridge.App.Error.{ApiError}
use rubix_redis_bridge.App.Shards.{RedisTarget, try_connection, select_ready_shard, find_ready}
use rubix_redis_bridge.Redis.Wait.{Wait, Timer, after, never, delay, and_then}
use rubix_redis_bridge.Redis.Execute.{
  Arrival, changed, quiet, wait_connection, execute_operation, attempt, with_permit, run_operation,
  conclude,
}
use rubix_redis_bridge.Redis.Execute.Ends.{Ended, execute_operation_ends}
use rubix_redis_bridge.Redis.Execute.Served.{Served, execute_operation-ok_iff}

-- An operation begins, then a subscription, and the operation is late.
abbrev busy : Program
busy = record started {
  metrics = (begin_operation (lit "t") (lit "command") new_metrics).1;
  guards = (begin_operation (lit "t") (lit "command") new_metrics).0 ∷ [];
}

abbrev followed : Program
followed = record busy {
  metrics = (realtime_connection (lit "t") busy.metrics).1;
  connections = (realtime_connection (lit "t") busy.metrics).0 ∷ [];
}

abbrev given_up : Program
given_up = record followed {
  metrics = timeout (begin_operation (lit "t") (lit "command") new_metrics).0 followed.metrics;
  guards = [];
}

abbrev late_run : Reach given_up
late_run =
    step (step (step start (begins (lit "t") (lit "command"))) (connects (lit "t")))
      (ends late 0 refl)

metrics_refine_ledger_example : Reads given_up (ledger_of late_run)
metrics_refine_ledger_example = metrics_refine_ledger given_up late_run

unfoldable pub stop_at : {A : Type 0} → ℕ → Wait A → ℕ × Option A
stop_at limit (after d a) = if leb d limit then (d, some a) else (limit, none)
stop_at limit never = (limit, none)

pub stop_at-in_time :
    {A : Type 0} (limit d : ℕ) (a : A) → d ≤ limit → stop_at limit (after d a) ≡ (d, some a)
unfolding stop_at
stop_at-in_time limit d a h = ground arith

pub stop_at-end :
    {A : Type 0} (limit : ℕ) (w : Wait A) → (stop_at limit w).1 ≡ none → (stop_at limit w).0 ≡ limit
unfolding stop_at
stop_at-end limit (after d b) h = ground arith
stop_at-end limit never h = refl

pub stop_at-ready :
    {A : Type 0} (limit : ℕ) (w : Wait A) (a : A)
    → (stop_at limit w).1 ≡ some a
    → ((stop_at limit w).0 ≤ limit) × (w ≡ after (stop_at limit w).0 a)
unfolding stop_at
stop_at-ready limit (after d b) a h = elim (Bool-cases (leb d limit)) [
  | inl early ↦ (ground arith, ground arith)
  | inr tardy ↦ absurd (ground arith)
]
stop_at-ready limit never a h = cc

instance abbrev pub stopwatch : Timer
stopwatch = record {
  limited = stop_at;
  in_time = stop_at-in_time;
  at_end = stop_at-end;
  was_ready = stop_at-ready;
}

abbrev down : RedisTarget ℕ
down = record {
  connections = record { generation = 0; connection = none } ∷ [];
  available_shards = 0;
  redis_connected_shards = 0;
  connection_changed = 0;
  next_connection = 0;
}

abbrev up : RedisTarget ℕ
up = record down {
  connections = record { generation = 1; connection = some 77 } ∷ [];
  available_shards = 1;
}

-- The permit comes after 2 milliseconds, and a connection after 30 more.
abbrev arrival : Arrival ℕ
arrival = record { permit = after 2 (ok tt); target = down; changes = changed 30 up quiet }

-- Only one connection answers, after 5 milliseconds.
abbrev ask : ℕ → Wait (Result ApiError Str)
ask connection = if ltb connection 77 then never else after 5 (ok (lit "PONG"))

execute_operation_ends_example :
    let (elapsed, reply, m') =
      execute_operation (lit "t") arrival (lit "command") (lit "late") 20 10 new_metrics ask in
    Ended (lit "late") (lit "t") (lit "command") new_metrics 20 elapsed reply m'
execute_operation_ends_example =
    execute_operation_ends (lit "t") arrival (lit "command") (lit "late") 20 10 new_metrics ask

execute_operation-ok_iff_example : Served arrival 10 ask 37 (lit "PONG") × (37 ≤ 50)
unfolding execute_operation attempt with_permit run_operation conclude stop_at delay and_then
    wait_connection try_connection select_ready_shard find_ready
execute_operation-ok_iff_example =
    (execute_operation-ok_iff (lit "t") arrival (lit "command") (lit "late") 50 10 new_metrics ask
        37 (lit "PONG")).0
      (refl, refl)
