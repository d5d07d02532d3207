-- ===== src/Redis/Execute/Ends.antt =====
-- Every operation on Redis ends, and its metrics say how (src/redis/execute.rs).
use rubix_redis_bridge.Prelude.{
  ℕ, ◌≡◌, ◌≤◌, ◌<◌, refl, [], ◌∷◌, Option, none, some, Result, ok as returned, err, word, arith,
}
use rubix_redis_bridge.Text.{Str}
use rubix_redis_bridge.Metrics.{Labels, Family, Metrics, inc, dec, new_guard, begin_operation}
use rubix_redis_bridge.Metrics.Ledger.{Outcome, ok, failed, late}
use rubix_redis_bridge.Metrics.Guards.{outcome_name, finish}
use rubix_redis_bridge.Metrics.Guards.Refines.{finish_lem}
use rubix_redis_bridge.App.Error.{ApiError, text, timeout as timeout_error}
use rubix_redis_bridge.Redis.Wait.{Wait, Timer, limited-le}
use rubix_redis_bridge.Redis.Execute.{Arrival, attempt, conclude, execute_operation}

-- How an operation ends for its client, and for the metrics.
pub data EndsAs {T : Type 0} (timeout_message : Str) (request_timeout elapsed : ℕ)
    (reply : Result ApiError T) : Outcome → Type 0 where
  with_value :
      {value : T} → reply ≡ returned value → EndsAs timeout_message request_timeout elapsed reply ok
  with_error :
      {reason : ApiError}
      → reply ≡ err reason
      → EndsAs timeout_message request_timeout elapsed reply failed
  too_late :
      elapsed ≡ request_timeout
      → reply ≡ err (timeout_error (text timeout_message))
      → EndsAs timeout_message request_timeout elapsed reply late

-- One operation has been counted: under its outcome, with its duration, and it is in flight no more.
pub record IsCounted (m m' : Metrics) (target kind : Str) (outcome : Outcome) : Type 0 where
  pub total :
      m'.redis_operations_total
      ≡ inc m.redis_operations_total (target ∷ kind ∷ outcome_name outcome ∷ [])
  pub duration : m'.redis_operation_duration ≡ inc m.redis_operation_duration (target ∷ kind ∷ [])
  pub inflight :
      (labels : Labels)
      → m.redis_operations_inflight labels < word
      → m'.redis_operations_inflight labels ≡ m.redis_operations_inflight labels

dec-inc :
    (family : Family) (entry labels : Labels)
    → family labels < word
    → dec (inc family entry) entry labels ≡ family labels
unfolding dec inc
dec-inc family entry labels h = ground arith

finish-IsCounted :
    (outcome : Outcome) (target kind : Str) (m : Metrics)
    → IsCounted m
        (finish outcome (new_guard target kind) (begin_operation target kind m).1)
        target
        kind
        outcome
unfolding begin_operation
finish-IsCounted outcome target kind m =
    let ended = finish_lem outcome (new_guard target kind) (begin_operation target kind m).1 refl in
    rw ended (record {
      total = refl;
      duration = refl;
      inflight = λ labels h. dec-inc m.redis_operations_inflight (target ∷ kind ∷ []) labels h;
    })

module _ {T : Type 0} (timeout_message target kind : Str) (m : Metrics) (request_timeout : ℕ) where
  abbrev concluded : Option (Result ApiError T) → Result ApiError T × Metrics
  concluded = conclude timeout_message (new_guard target kind) (begin_operation target kind m).1

  -- How it ended, with the outcome that is counted.
  abbrev pub Ended : ℕ → Result ApiError T → Metrics → Type 0
  Ended elapsed reply m' =
      (outcome : Outcome) × (elapsed ≤ request_timeout)
      × EndsAs timeout_message request_timeout elapsed reply outcome
      × IsCounted m m' target kind outcome

  conclude-Ended :
      (elapsed : ℕ) (o : Option (Result ApiError T))
      → elapsed ≤ request_timeout
      → (o ≡ none → elapsed ≡ request_timeout)
      → Ended elapsed (concluded o).0 (concluded o).1
  unfolding conclude
  conclude-Ended elapsed (some (returned value)) h late_at =
      (ok, h, with_value refl, finish-IsCounted ok target kind m)
  conclude-Ended elapsed (some (err reason)) h late_at =
      (failed, h, with_error refl, finish-IsCounted failed target kind m)
  conclude-Ended elapsed none h late_at =
      (late, h, too_late (late_at refl) refl, finish-IsCounted late target kind m)

-- An operation on Redis always ends, whatever the semaphore, the supervisors and Redis do, and even if
-- they never answer: with its wait for the permit, it takes at most the request's timeout, which
-- runs from before that wait. It ends with a value, with an error, or
-- with 504 and its message exactly at the timeout. Exactly one result is counted for it, under the
-- outcome that its client sees, and one duration; and no gauge of operations in flight has changed.
pub execute_operation_ends :
    ⦃timer : Timer⦄ {Connection T : Type 0} (target_id : Str) (a : Arrival Connection)
    (kind timeout_message : Str) (request_timeout acquire_timeout : ℕ) (m : Metrics)
    (operation : Connection → Wait (Result ApiError T))
    → let (elapsed, reply, m') =
        execute_operation target_id a kind timeout_message request_timeout acquire_timeout m
          operation in
      Ended timeout_message target_id kind m request_timeout elapsed reply m'
unfolding execute_operation begin_operation
execute_operation_ends ⦃timer⦄ target_id a kind timeout_message request_timeout acquire_timeout m
      operation =
    let w = attempt a acquire_timeout operation in
    conclude-Ended timeout_message target_id kind m request_timeout
      (timer.limited request_timeout w).0 (timer.limited request_timeout w).1
      (limited-le request_timeout w) (timer.at_end request_timeout w)
