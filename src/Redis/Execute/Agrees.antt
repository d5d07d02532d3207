-- ===== src/Redis/Execute/Agrees.antt =====
-- What an operation on Redis depends on: how the client treats a connection of the target
-- (src/redis/execute.rs).
use rubix_redis_bridge.Prelude.{ℕ, ◌≡◌, refl, ap, Option, none, some, Result, ok, err}
use rubix_redis_bridge.Text.{Str}
use rubix_redis_bridge.Metrics.{Metrics}
use rubix_redis_bridge.App.Error.{ApiError}
use rubix_redis_bridge.Redis.Wait.{Wait, after, never, delay, Timer, and_then}
use rubix_redis_bridge.Redis.Execute.{
  Arrival, wait_connection, run_operation, with_permit, attempt, execute_operation,
}

-- A connection that the wait of a request at its target finds.
abbrev pub IsFound : {Connection : Type 0} → Arrival Connection → Connection → Type 0
IsFound a connection =
    (d : ℕ) × (wait_connection a.target.next_connection a.target a.changes
      ≡ after d (ok connection))

and_then-agrees :
    {A B : Type 0} (w : Wait A) (f g : A → Wait B)
    → ((d : ℕ) (v : A) → w ≡ after d v → f v ≡ g v)
    → and_then w f ≡ and_then w g
unfolding and_then
and_then-agrees (after d v) f g h = ap (delay d) (h d v refl)
and_then-agrees never f g h = refl

module _ ⦃timer : Timer⦄ {Connection T : Type 0} (a : Arrival Connection)
    (f g : Connection → Wait (Result ApiError T))
    (same : (connection : Connection) → IsFound a connection → f connection ≡ g connection) where
  run_operation-agrees :
      (d : ℕ) (found : Result (Unit {0}) Connection)
      → wait_connection a.target.next_connection a.target a.changes ≡ after d found
      → run_operation f found ≡ run_operation g found
  unfolding run_operation
  run_operation-agrees d (err closed) h = refl
  run_operation-agrees d (ok connection) h = same connection (d, h)

  with_permit-agrees :
      (o : Option (Result (Unit {0}) (Unit {0}))) → with_permit a f o ≡ with_permit a g o
  unfolding with_permit
  with_permit-agrees none = refl
  with_permit-agrees (some (err closed)) = refl
  with_permit-agrees (some (ok permit)) =
      and_then-agrees (wait_connection a.target.next_connection a.target a.changes) _ _
        run_operation-agrees

  pub execute_operation-agrees :
      (target_id kind timeout_message : Str) (request_timeout acquire_timeout : ℕ) (m : Metrics)
      → execute_operation target_id a kind timeout_message request_timeout acquire_timeout m f
        ≡ execute_operation target_id a kind timeout_message request_timeout acquire_timeout m g
  unfolding execute_operation attempt
  execute_operation-agrees target_id kind timeout_message request_timeout acquire_timeout m =
      let both = with_permit-agrees (timer.limited acquire_timeout a.permit).1 in rw both refl
