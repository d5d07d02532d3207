-- ===== src/App/Shards/Worker.antt =====
-- `maintain_connection`: the supervisors of the shards, one for each. A round of a supervisor's loop is
-- one step; what it observes (the probe's answer, the connection made) is given. Times are
-- milliseconds.
pub mod Supervision
pub mod Probing
use rubix_redis_bridge.Prelude.{
  word, ℕ, zero, suc, ◌+◌, ◌-◌, ◌*◌, ◌^◌, min, Bool, List, [], ◌∷◌, Option, none, some, leb,
  get_elem?, set, replicate, length, if◌then◌else◌,
}
use rubix_redis_bridge.App.Shards.{ConnectionSlot, RedisTarget, connected, disconnected, new_target}

abbrev pub initial_backoff : ℕ
initial_backoff = 250

abbrev pub max_backoff : ℕ
max_backoff = 5000

abbrev pub max_failed_probes : ℕ
max_failed_probes = 2

-- The local variables of `maintain_connection`.
pub record Worker : Type 0 where
  pub backoff : ℕ
  pub failures : ℕ
  pub failed_probes : ℕ

-- The outcome of the `select!`: the slot changed, PING was answered by PONG, or it was not.
pub data Probe : Type 0 where
  changed pong no_pong : Probe

pub record Observation (Connection : Type 0) : Type 0 where
  pub probed : Probe
  pub dialled : Option Connection

abbrev pub new_worker : Worker
new_worker = record { backoff = initial_backoff; failures = 0; failed_probes = 0 }

module _ {Connection : Type 0} where
  -- The rounds with a connection.
  unfoldable pub probe_round :
      Worker → RedisTarget Connection → ℕ → ℕ → Probe → Option (Worker × RedisTarget Connection)
  probe_round w t shard generation changed = some (w, t)
  probe_round w t shard generation pong = some (record w { failed_probes = 0 }, t)
  probe_round w t shard generation no_pong =
      let failed_probes = min (w.failed_probes + 1) 255 in
      if leb max_failed_probes failed_probes
      then elim (disconnected t shard generation) [
        | none ↦ none
        | some (invalidated, t') ↦ some (record w { failed_probes = 0 }, t')
      ]
      else some (record w { failed_probes = failed_probes }, t)

  -- The rounds without one.
  unfoldable pub connect_round :
      Worker
      → RedisTarget Connection
      → ℕ
      → Option Connection
      → Option (Worker × RedisTarget Connection)
  connect_round w t shard (some c) = elim (connected t shard c) [
    | none ↦ none
    | some t' ↦ some (new_worker, t')
  ]
  connect_round w t shard none = some (
    record w {
      failures = min (w.failures + 1) (word - 1);
      backoff = min (w.backoff * 2) max_backoff;
    },
    t,
  )

  unfoldable pub round :
      Worker
      → RedisTarget Connection
      → ℕ
      → Observation Connection
      → Option (Worker × RedisTarget Connection)
  round w t shard o = elim (get_elem? t.connections shard) [
    | none ↦ none
    | some slot ↦ elim slot.connection [
      | none ↦ connect_round w t shard o.dialled
      | some c ↦ probe_round w t shard slot.generation o.probed
    ]
  ]

-- The supervisors of a target, which `start_connection_workers` spawns, and the target.
pub record Supervised (Connection : Type 0) : Type 0 where
  pub workers : List Worker
  pub target : RedisTarget Connection

module _ {Connection : Type 0} where
  unfoldable pub start : ℕ → Supervised Connection
  start connection_shards = record {
    workers = replicate connection_shards new_worker;
    target = new_target connection_shards;
  }

  -- A round of the supervisor of a shard; `none` is a panic.
  unfoldable pub turn :
      Supervised Connection → ℕ × Observation Connection → Option (Supervised Connection)
  turn s (shard, o) = elim (get_elem? s.workers shard) [
    | none ↦ none
    | some w ↦ elim (round w s.target shard o) [
      | none ↦ none
      | some (w', t') ↦ some (record { workers = set s.workers shard w'; target = t' })
    ]
  ]

  -- Any interleaving of the rounds.
  unfoldable pub turns :
      Supervised Connection → List (ℕ × Observation Connection) → Option (Supervised Connection)
  turns s [] = some s
  turns s (next ∷ schedule) = elim (turn s next) [ none ↦ none | some s' ↦ turns s' schedule ]
