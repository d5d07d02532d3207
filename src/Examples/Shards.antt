-- ===== src/Examples/Shards.antt =====
-- The connection shards and their supervisors at concrete inputs.
use rubix_redis_bridge.Prelude.{ℕ, ◌≡◌, refl, [], ◌∷◌, none, some, All, arith}
use rubix_redis_bridge.App.Shards.{ConnectionSlot, RedisTarget, try_connection, targets_ready}
use rubix_redis_bridge.App.Shards.Counting.{IsCounted, count_connected}
use rubix_redis_bridge.App.Shards.Ready.{Hands, try_connection_available, targets_ready_serves}
use rubix_redis_bridge.App.Shards.Worker.{pong, Supervised, start, turns}
use rubix_redis_bridge.App.Shards.Worker.Supervision.{
  IsSupervised, turns-IsSupervised, start-IsSupervised,
}
use rubix_redis_bridge.App.Shards.Worker.Probing.{silent}

abbrev idle : ConnectionSlot ℕ
idle = record { generation = 0; connection = none }

abbrev dialled : ConnectionSlot ℕ
dialled = record { generation = 4; connection = some 77 }

abbrev half_up : RedisTarget ℕ
half_up = record {
  connections = idle ∷ dialled ∷ [];
  available_shards = 1;
  redis_connected_shards = 1;
  connection_changed = 5;
  next_connection = 2;
}

half_up-IsCounted : IsCounted half_up
unfolding count_connected
half_up-IsCounted = record { fits = omega arith; available = refl; gauge = refl }

try_connection_available_example :
    (given : ℕ × ℕ × ℕ) × (try_connection half_up 2 ≡ some given) × Hands half_up given
try_connection_available_example =
    try_connection_available half_up 2 half_up-IsCounted (omega arith)

targets_ready_serves_example :
    All
      (λ t. (given : ℕ × ℕ × ℕ) × (try_connection t t.next_connection ≡ some given) × Hands t given)
      (half_up ∷ [])
unfolding targets_ready
targets_ready_serves_example =
    targets_ready_serves (half_up ∷ []) (λ t. t.next_connection) (half_up-IsCounted, tt) refl

turns-IsSupervised_example :
    (s' : Supervised ℕ) × (turns (start 2) (
        (1, record { probed = pong; dialled = some 77 })
        ∷ (0, silent)
        ∷ (1, silent)
        ∷ (1, silent)
        ∷ [])
      ≡ some s')
    × IsSupervised s'
unfolding start
turns-IsSupervised_example =
    turns-IsSupervised (start 2)
      ((1, record { probed = pong; dialled = some 77 })
        ∷ (0, silent)
        ∷ (1, silent)
        ∷ (1, silent)
        ∷ [])
      (start-IsSupervised 2 (omega arith))
      (omega arith, (omega arith, (omega arith, (omega arith, tt))))
