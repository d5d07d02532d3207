-- ===== src/App/Shards.antt =====
-- src/app/state.rs: the connection shards of a Redis target. The connection is the redis crate's; the
-- counters are 64-bit words that wrap.
pub mod Select
pub mod Counting
pub mod Worker
pub mod Ready
use rubix_redis_bridge.Prelude.{
  ℕ, zero, suc, ◌+◌, ◌-◌, ◌%◌, ◌^◌, max, Bool, true, false, not, ◌&&◌, ◌||◌, List, [], ◌∷◌, Option,
  none, some, ltb, ◌==◌, length, get_elem?, set, replicate, is_empty, all, if◌then◌else◌,
  wrapping_add, wrapping_sub,
}

-- `(0..len).map(…).find(…)` from an offset on, with the number of offsets left.
unfoldable pub find_ready : ℕ → ℕ → (ℕ → Bool) → ℕ → ℕ → Option ℕ
find_ready start len ready offset zero = none
find_ready start len ready offset (suc left) =
    let index = (start % len + offset) % len in
    let rest = find_ready start len ready (suc offset) left in
    if ready index then some index else rest

unfoldable pub select_ready_shard : ℕ → ℕ → (ℕ → Bool) → Option ℕ
select_ready_shard start len ready = find_ready start len ready 0 len

pub record ConnectionSlot (Connection : Type 0) : Type 0 where
  pub generation : ℕ
  pub connection : Option Connection

-- The part of `RedisTarget` that the supervisors change, with the gauge of connected shards.
pub record RedisTarget (Connection : Type 0) : Type 0 where
  pub connections : List (ConnectionSlot Connection)
  pub available_shards : ℕ
  pub redis_connected_shards : ℕ
  pub connection_changed : ℕ
  pub next_connection : ℕ

module _ {Connection : Type 0} where
  abbrev pub is_connected : ConnectionSlot Connection → Bool
  is_connected slot = elim slot.connection [ none ↦ false | some c ↦ true ]

  -- The closure of `select_ready_shard` in `connection`.
  abbrev pub slot_ready : List (ConnectionSlot Connection) → ℕ → Bool
  slot_ready slots index = elim (get_elem? slots index) [ none ↦ false | some s ↦ is_connected s ]

  -- What `send_modify` and `send_if_modified` do to a slot.
  unfoldable pub connect_slot : ConnectionSlot Connection → Connection → ConnectionSlot Connection
  connect_slot slot c = record {
    generation = max (wrapping_add slot.generation 1) 1;
    connection = some c;
  }

  unfoldable pub stale_slot : ConnectionSlot Connection → ℕ → Bool
  stale_slot slot generation = not (slot.generation == generation) || not (is_connected slot)

  -- `none` is the panic of an index out of range.
  unfoldable pub connected :
      RedisTarget Connection → ℕ → Connection → Option (RedisTarget Connection)
  unfolding connect_slot
  connected t shard c = elim (get_elem? t.connections shard) [
    | none ↦ none
    | some slot ↦ some (record t {
      connections = set t.connections shard (connect_slot slot c);
      redis_connected_shards = wrapping_add t.redis_connected_shards 1;
      available_shards = wrapping_add t.available_shards 1;
      connection_changed = wrapping_add t.connection_changed 1;
    })
  ]

  unfoldable pub disconnected :
      RedisTarget Connection → ℕ → ℕ → Option (Bool × RedisTarget Connection)
  unfolding stale_slot
  disconnected t shard generation = elim (get_elem? t.connections shard) [
    | none ↦ none
    | some slot ↦
        if stale_slot slot generation
        then some (false, t)
        else some (
          true,
          record t {
            connections = set t.connections shard (record slot { connection = none });
            redis_connected_shards = wrapping_sub t.redis_connected_shards 1;
            available_shards = wrapping_sub t.available_shards 1;
            connection_changed = wrapping_add t.connection_changed 1;
          },
        )
  ]

  -- One round of the loop of `connection`: `none` waits for a change.
  unfoldable pub try_connection : RedisTarget Connection → ℕ → Option (ℕ × ℕ × Connection)
  try_connection t start =
      elim (select_ready_shard start (length t.connections) (slot_ready t.connections)) [
        | none ↦ none
        | some index ↦ elim (get_elem? t.connections index) [
          | none ↦ none
          | some slot ↦ elim slot.connection [
            | none ↦ none
            | some c ↦ some (index, slot.generation, c)
          ]
        ]
      ]

  -- `next_connection.fetch_add(1)`, and the first round
  unfoldable pub connection :
      RedisTarget Connection → Option (ℕ × ℕ × Connection) × RedisTarget Connection
  unfolding try_connection
  connection t = (
    try_connection t t.next_connection,
    record t { next_connection = wrapping_add t.next_connection 1 },
  )

  -- The target that `AppState::new` builds.
  unfoldable pub new_target : ℕ → RedisTarget Connection
  new_target connection_shards = record {
    connections = replicate connection_shards (record { generation = 0; connection = none });
    available_shards = 0;
    redis_connected_shards = 0;
    connection_changed = 0;
    next_connection = 0;
  }

  unfoldable pub targets_ready : List (RedisTarget Connection) → Bool
  targets_ready targets = not (is_empty targets) && all (λ t. ltb 0 t.available_shards) targets
