-- ===== src/App/Shards/Worker/Probing.antt =====
-- What single rounds do: when a supervisor gives a connection up, and how long it waits to dial again.
use native.Mathlib.Nat.{pow-suc}
use rubix_redis_bridge.Prelude.{
  word, ℕ, zero, suc, ◌-◌, ◌*◌, ◌^◌, ◌<◌, ◌≡◌, refl, min, Option, none, some, arith, length,
  get_elem?, get_elem?-set_self, set,
}
use rubix_redis_bridge.App.Shards.{
  ConnectionSlot, RedisTarget, disconnected, stale_slot, wrapping_add, wrapping_sub,
}
use rubix_redis_bridge.App.Shards.Worker.{
  Worker, no_pong, Observation, new_worker, probe_round, connect_round, round, max_backoff,
  initial_backoff,
}

module _ {Connection : Type 0} where
  abbrev pub silent : Observation Connection
  silent = record { probed = no_pong; dialled = none }

  -- On a connected shard and with no failed probe so far, one unanswered PING keeps the
  -- connection and is counted; the next one in a row takes it out of its slot, and out of the count of
  -- available shards, and the counter of failed probes starts again.
  two_failed_probes :
      (w : Worker) (t : RedisTarget Connection) (shard : ℕ) (slot : ConnectionSlot Connection)
      (c : Connection)
      → shard < length t.connections
      → get_elem? t.connections shard ≡ some slot
      → slot.connection ≡ some c
      → w.failed_probes ≡ 0
      → (round w t shard silent ≡ some (record w { failed_probes = 1 }, t))
        × (t' : RedisTarget Connection) × (round (record w { failed_probes = 1 }) t shard silent
            ≡ some (w, t'))
        × (get_elem? t'.connections shard ≡ some (record slot { connection = none }))
        × (t'.available_shards ≡ wrapping_sub t.available_shards 1)
  unfolding round probe_round disconnected stale_slot
  two_failed_probes w t shard slot c h e on none_failed = (
    ground arith,
    record t {
      connections = set t.connections shard (record slot { connection = none });
      redis_connected_shards = wrapping_sub t.redis_connected_shards 1;
      available_shards = wrapping_sub t.available_shards 1;
      connection_changed = wrapping_add t.connection_changed 1;
    },
    ground arith,
    get_elem?-set_self t.connections shard (record slot { connection = none }) h,
    refl,
  )

  -- The supervisor after some refused connections in a row.
  pub redials : ℕ → Worker → RedisTarget Connection → ℕ → Option (Worker × RedisTarget Connection)
  redials zero w t shard = some (w, t)
  redials (suc n) w t shard = elim (redials n w t shard) [
    | none ↦ none
    | some (w', t') ↦ round w' t' shard silent
  ]

  -- On a shard without a connection, after n refused connections from the start the delay is 250 · 2ⁿ milliseconds, but never over 5 seconds, and the
  -- target is unchanged.
  redials_backoff :
      (n : ℕ) (t : RedisTarget Connection) (shard : ℕ) (slot : ConnectionSlot Connection)
      → get_elem? t.connections shard ≡ some slot
      → slot.connection ≡ none
      → redials n new_worker t shard
        ≡ some (
          record {
            backoff = min (initial_backoff * 2 ^ n) max_backoff;
            failures = min n (word - 1);
            failed_probes = 0;
          },
          t,
        )
  unfolding redials round connect_round
  redials_backoff zero t shard slot e off = ground arith
  redials_backoff (suc n) t shard slot e off =
      let p = pow-suc 2 n in rw (redials_backoff n t shard slot e off) (ground arith)
