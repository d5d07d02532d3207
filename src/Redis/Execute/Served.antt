-- ===== src/Redis/Execute/Served.antt =====
-- When an operation on Redis returns a value (src/redis/execute.rs).
use rubix_redis_bridge.Prelude.{
  ℕ, ◌+◌, ◌≡◌, ◌≤◌, ◌↔◌, refl, ap, Option, none, some, Result, ok, err, arith,
}
use rubix_redis_bridge.Text.{Str}
use rubix_redis_bridge.Metrics.{Metrics, Guard, begin_operation}
use rubix_redis_bridge.App.Error.{ApiError}
use rubix_redis_bridge.Redis.Wait.{
  Wait, after, never, delay, Timer, limited-le, and_then, and_then-Parts, and_then-after,
}
use rubix_redis_bridge.Redis.Execute.{
  Arrival, wait_connection, run_operation, with_permit, attempt, conclude, execute_operation,
  answered,
}
use rubix_redis_bridge.Redis.Error.{RedisError}

delay-after :
    {A : Type 0} (d e : ℕ) (w : Wait A) (b : A)
    → delay d w ≡ after e b
    → (r : ℕ) × (w ≡ after r b) × (d + r ≡ e)
unfolding delay
delay-after d e (after r c) b h =
    let same : c ≡ b = cc in let sum : d + r ≡ e = cc in (r, ap (after r) same, sum)
delay-after d e never b h = cc

module _ {Connection E T : Type 0} (a : Arrival Connection) (acquire_timeout : ℕ)
    (operation : Connection → Wait (Result E T)) where
  -- The permit came in time, then a connection, and then the operation returned the value.
  pub record Served (elapsed : ℕ) (value : T) : Type 0 where
    pub connection : Connection
    pub waited : ℕ
    pub connecting : ℕ
    pub running : ℕ
    pub permit_is : a.permit ≡ after waited (ok tt)
    pub waited_le : waited ≤ acquire_timeout
    pub connection_is :
        wait_connection a.target.next_connection a.target a.changes
        ≡ after connecting (ok connection)
    pub operation_is : operation connection ≡ after running (ok value)
    pub sum : waited + (connecting + running) ≡ elapsed

module _ ⦃timer : Timer⦄ {Connection T : Type 0} (a : Arrival Connection) (acquire_timeout : ℕ)
    (operation : Connection → Wait (Result ApiError T)) where
  run_operation_sound :
      (waited elapsed : ℕ) (value : T)
      → a.permit ≡ after waited (ok tt)
      → waited ≤ acquire_timeout
      → (connecting running : ℕ) (found : Result (Unit {0}) Connection)
      → wait_connection a.target.next_connection a.target a.changes ≡ after connecting found
      → run_operation operation found ≡ after running (ok value)
      → waited + (connecting + running) ≡ elapsed
      → Served a acquire_timeout operation elapsed value
  unfolding run_operation
  run_operation_sound waited elapsed value e le connecting running (err closed) f h total = cc
  run_operation_sound waited elapsed value e le connecting running (ok connection) f h total =
      record {
        connection = connection;
        waited = waited;
        connecting = connecting;
        running = running;
        permit_is = e;
        waited_le = le;
        connection_is = f;
        operation_is = h;
        sum = total;
      }

  with_permit_sound :
      (elapsed : ℕ) (value : T) (waited : ℕ) (o : Option (Result (Unit {0}) (Unit {0})))
      → ((permit : Result (Unit {0}) (Unit {0})) → o ≡ some permit → a.permit ≡ after waited permit)
      → waited ≤ acquire_timeout
      → (rest : ℕ) → with_permit a operation o ≡ after rest (ok value)
      → waited + rest ≡ elapsed
      → Served a acquire_timeout operation elapsed value
  unfolding with_permit
  with_permit_sound elapsed value waited none e le rest h total = cc
  with_permit_sound elapsed value waited (some (err closed)) e le rest h total = cc
  with_permit_sound elapsed value waited (some (ok granted)) e le rest h total =
      let p = and_then-Parts _ _ rest (ok value) h in
      run_operation_sound waited elapsed value (e (ok tt) refl) le p.first p.rest p.value p.first_is
        p.rest_is (omega (arith, total, p.sum))

  attempt_sound :
      (elapsed : ℕ) (value : T)
      → attempt a acquire_timeout operation ≡ after elapsed (ok value)
      → Served a acquire_timeout operation elapsed value
  unfolding attempt
  attempt_sound elapsed value h =
      let (rest, later, total) =
        delay-after (timer.limited acquire_timeout a.permit).0 elapsed _ _ h in
      with_permit_sound elapsed value (timer.limited acquire_timeout a.permit).0
        (timer.limited acquire_timeout a.permit).1
        (λ permit e. (timer.was_ready acquire_timeout a.permit permit e).1)
        (limited-le acquire_timeout a.permit) rest later total

  attempt_complete :
      (elapsed : ℕ) (value : T)
      → Served a acquire_timeout operation elapsed value
      → attempt a acquire_timeout operation ≡ after elapsed (ok value)
  unfolding attempt with_permit run_operation delay
  attempt_complete elapsed value s =
      let early =
        timer.in_time {A = Result (Unit {0}) (Unit {0})} acquire_timeout s.waited (ok tt)
          s.waited_le in
      let found =
        and_then-after (wait_connection a.target.next_connection a.target a.changes)
          (run_operation operation) (s.connecting + s.running) (ok value)
          (record {
            first = s.connecting;
            rest = s.running;
            value = ok s.connection;
            first_is = s.connection_is;
            rest_is = s.operation_is;
            sum = refl;
          }) in
      rw s.permit_is (rw early (rw found (rw s.sum refl)))

module _ {T : Type 0} (w : Wait (Result RedisError T)) (d : ℕ) (value : T) where
  answered-after : and_then w (answered (λ v. v)) ≡ after d (ok value) → w ≡ after d (ok value)
  unfolding answered
  answered-after h =
      let p = and_then-Parts w (answered (λ v. v)) d (ok value) h in
      by_value p.value p.first p.rest p.first_is p.rest_is p.sum
    where
      by_value :
          (r : Result RedisError T) (first rest : ℕ)
          → w ≡ after first r
          → answered (λ v. v) r ≡ after rest (ok value)
          → first + rest ≡ d
          → w ≡ after d (ok value)
      by_value (err reason) first rest e h sum = cc
      by_value (ok v) first rest e h sum =
          let same : v ≡ value = cc in
          let now : 0 ≡ rest = cc in
          let total : first ≡ d = omega (arith, now, sum) in rw (e, same, total) refl

  after-answered : w ≡ after d (ok value) → and_then w (answered (λ v. v)) ≡ after d (ok value)
  unfolding answered
  after-answered h = and_then-after w (answered (λ v. v)) d (ok value) (record {
    first = d;
    rest = 0;
    value = ok value;
    first_is = h;
    rest_is = refl;
    sum = omega arith;
  })

-- A query whose errors are turned into answers returns the values of the query.
pub Served-answered :
    {Connection T : Type 0} (a : Arrival Connection) (acquire_timeout : ℕ)
    (query : Connection → Wait (Result RedisError T)) (elapsed : ℕ) (value : T)
    → Served a acquire_timeout (λ c. and_then (query c) (answered (λ v. v))) elapsed value
      ↔ Served a acquire_timeout query elapsed value
Served-answered {T = T} a acquire_timeout query elapsed value = (
  λ s. record {
    connection = s.connection;
    waited = s.waited;
    connecting = s.connecting;
    running = s.running;
    permit_is = s.permit_is;
    waited_le = s.waited_le;
    connection_is = s.connection_is;
    operation_is = answered-after (query s.connection) s.running value s.operation_is;
    sum = s.sum;
  },
  λ s. record {
    connection = s.connection;
    waited = s.waited;
    connecting = s.connecting;
    running = s.running;
    permit_is = s.permit_is;
    waited_le = s.waited_le;
    connection_is = s.connection_is;
    operation_is = after-answered (query s.connection) s.running value s.operation_is;
    sum = s.sum;
  },
)

conclude-eq-ok :
    {T : Type 0} (message : Str) (g : Guard) (m : Metrics) (o : Option (Result ApiError T))
    (value : T)
    → (conclude message g m o).0 ≡ ok value
    → o ≡ some (ok value)
unfolding conclude
conclude-eq-ok message g m none value h = cc
conclude-eq-ok message g m (some (ok v)) value h = ap some h
conclude-eq-ok message g m (some (err reason)) value h = cc

-- An operation on Redis returns a value exactly if the permit came within the limit for it, a connection
-- was found then, the operation returned the value on that connection, and all of it ended within the
-- request's timeout. The time taken is the sum of the three waits, and so is what that timeout limits:
-- it runs from before the wait for the permit, and not from its end.
pub execute_operation-ok_iff :
    ⦃timer : Timer⦄ {Connection T : Type 0} (target_id : Str) (a : Arrival Connection)
    (kind timeout_message : Str) (request_timeout acquire_timeout : ℕ) (m : Metrics)
    (operation : Connection → Wait (Result ApiError T)) (elapsed : ℕ) (value : T)
    → let (time, reply, m') =
        execute_operation target_id a kind timeout_message request_timeout acquire_timeout m
          operation in
      ((time ≡ elapsed) × (reply ≡ ok value))
      ↔ (Served a acquire_timeout operation elapsed value × (elapsed ≤ request_timeout))
unfolding execute_operation conclude
execute_operation-ok_iff ⦃timer⦄ {T = T} target_id a kind timeout_message request_timeout
      acquire_timeout m operation elapsed value =
    (returned, returns)
  where
    w : Wait (Result ApiError T)
    w = attempt a acquire_timeout operation

    returned :
        ((timer.limited request_timeout w).0 ≡ elapsed)
          × ((conclude timeout_message
                (begin_operation target_id kind m).0
                (begin_operation target_id kind m).1
                (timer.limited request_timeout w).1).0
              ≡ ok value)
        → Served a acquire_timeout operation elapsed value × (elapsed ≤ request_timeout)
    returned (time, reply) =
        let done =
          conclude-eq-ok timeout_message _ _ (timer.limited request_timeout w).1 value reply in
        let at = (timer.was_ready request_timeout w (ok value) done).1 in
        (
          attempt_sound a acquire_timeout operation elapsed value (rw (← time) at),
          rw (← time) (limited-le request_timeout w),
        )

    returns :
        Served a acquire_timeout operation elapsed value × (elapsed ≤ request_timeout)
        → ((timer.limited request_timeout w).0 ≡ elapsed)
          × ((conclude timeout_message
                (begin_operation target_id kind m).0
                (begin_operation target_id kind m).1
                (timer.limited request_timeout w).1).0
              ≡ ok value)
    returns (s, le) =
        let at = attempt_complete a acquire_timeout operation elapsed value s in
        let early = timer.in_time {A = Result ApiError T} request_timeout elapsed (ok value) le in
        (rw at (rw early refl), rw at (rw early refl))
