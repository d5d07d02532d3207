-- ===== src/App/Shards/Ready.antt =====
-- `connection` and `targets_ready`: when a request finds a connection without waiting.
use rubix_redis_bridge.Prelude.{
  ℕ, zero, suc, ◌<◌, ◌≡◌, ◌∙◌, inl, inr, refl, sym, true, false, List, [], ◌∷◌, some, arith, ltb,
  length, get_elem?, all, All, Bool-cases, Option-cases, dec_lt, false≢true,
}
use rubix_redis_bridge.App.Shards.{
  ConnectionSlot, RedisTarget, is_connected, slot_ready, select_ready_shard, try_connection,
  targets_ready,
}
use rubix_redis_bridge.App.Shards.Select.{
  AllBelow, AllBelow-at, select_ready_shard_sound, select_ready_shard-eq-none_iff,
}
use rubix_redis_bridge.App.Shards.Counting.{count_connected, IsCounted}

module _ {Connection : Type 0} where
  -- A slot of the list that is connected is found by its index.
  connected_slot :
      (slots : List (ConnectionSlot Connection))
      → 0 < count_connected slots
      → (i : ℕ) × (i < length slots) × (slot_ready slots i ≡ true)
  unfolding count_connected
  connected_slot [] h = absurd (omega arith)
  connected_slot (slot ∷ slots) h = elim (Bool-cases (is_connected slot)) [
    | inl on ↦ (zero, omega arith, on)
    | inr off ↦
        let (i, below, ready) = connected_slot slots (ground arith) in (suc i, omega arith, ready)
  ]

  -- What `connection` hands out comes from a connected slot in range, with its generation.
  pub record Hands (t : RedisTarget Connection) (given : ℕ × ℕ × Connection) : Type 0 where
    pub slot : ConnectionSlot Connection
    pub at_index : get_elem? t.connections given.0 ≡ some slot
    pub generation_is : given.1 ≡ slot.generation
    pub connection_is : slot.connection ≡ some given.2

  slot_ready_slot :
      (slots : List (ConnectionSlot Connection)) (i : ℕ)
      → slot_ready slots i ≡ true
      → (slot : ConnectionSlot Connection) × (c : Connection) × (get_elem? slots i ≡ some slot)
        × (slot.connection ≡ some c)
  slot_ready_slot slots i h = elim (Option-cases (get_elem? slots i)) [
    | inl e ↦ absurd (ground arith)
    | inr (slot, e) ↦ elim (Option-cases slot.connection) [
      | inl f ↦ absurd (ground arith)
      | inr (c, f) ↦ (slot, c, e, f)
    ]
  ]

  count_of_idle :
      (slots : List (ConnectionSlot Connection))
      → AllBelow (length slots) (λ i. slot_ready slots i ≡ false)
      → count_connected slots ≡ 0
  count_of_idle slots idle = elim (dec_lt 0 (count_connected slots)) [
    | yes some_on ↦
        let (i, below, ready) = connected_slot slots some_on in
        let waiting : slot_ready slots i ≡ false = AllBelow-at (length slots) i _ below idle in
        absurd (false≢true (sym waiting ∙ ready))
    | no none_on ↦ omega arith
  ]

  try_connection_at :
      (t : RedisTarget Connection) (start i : ℕ) (slot : ConnectionSlot Connection) (c : Connection)
      → select_ready_shard start (length t.connections) (slot_ready t.connections) ≡ some i
      → get_elem? t.connections i ≡ some slot
      → slot.connection ≡ some c
      → try_connection t start ≡ some (i, slot.generation, c)
  unfolding try_connection
  try_connection_at t start i slot c e at on = ground arith

  -- If the target's counters are those of its slots, a request finds a connection at once whenever the
  -- counter of available shards is positive, wherever the rotation begins: it is that of a connected
  -- slot in range, with the slot's generation.
  pub try_connection_available :
      (t : RedisTarget Connection) (start : ℕ)
      → IsCounted t
      → 0 < t.available_shards
      → (given : ℕ × ℕ × Connection) × (try_connection t start ≡ some given) × Hands t given
  try_connection_available t start v h =
      elim (Option-cases
        (select_ready_shard start (length t.connections) (slot_ready t.connections))) [
          | inl e ↦
              let idle = (select_ready_shard-eq-none_iff start (length t.connections) _).0 e in
              absurd (omega (arith, h, v.available, count_of_idle t.connections idle))
          | inr (i, e) ↦
              let (below, found) = select_ready_shard_sound start (length t.connections) _ i e in
              let (slot, c, at, on) = slot_ready_slot t.connections i found.is_ready in
              (
                (i, slot.generation, c),
                try_connection_at t start i slot c e at on,
                record { slot = slot; at_index = at; generation_is = refl; connection_is = on },
              )
        ]

-- A bridge is not ready by its configuration alone: it has to be connected to every target. If the
-- counters of all targets are those of their slots, a bridge that reports itself ready has a connection
-- at once for a request to any of its targets, wherever the rotation of each begins.
pub targets_ready_serves :
    {Connection : Type 0} (targets : List (RedisTarget Connection))
    (start : RedisTarget Connection → ℕ)
    → All IsCounted targets
    → targets_ready targets ≡ true
    → All
        (λ t.
          (given : ℕ × ℕ × Connection) × (try_connection t (start t) ≡ some given) × Hands t given)
        targets
unfolding targets_ready
targets_ready_serves {Connection} targets start v h = each targets v (ground arith)
  where
    each :
        (ts : List (RedisTarget Connection))
        → All IsCounted ts
        → all (λ t. ltb 0 t.available_shards) ts ≡ true
        → All
            (λ t.
              (given : ℕ × ℕ × Connection) × (try_connection t (start t) ≡ some given)
              × Hands t given)
            ts
    each [] v h = tt
    each (t ∷ ts) (v, vs) h =
        (try_connection_available t (start t) v (ground arith), each ts vs (ground arith))
