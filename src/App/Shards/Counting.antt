-- ===== src/App/Shards/Counting.antt =====
-- The counters agree with the slots, so `fetch_sub` never wraps.
use rubix_redis_bridge.Prelude.{
  ℕ, zero, suc, ◌+◌, ◌≤◌, ◌<◌, ◌≡◌, inl, inr, refl, sym, Bool, false, List, [], ◌∷◌, none, some,
  arith, length, get_elem?, set, length-set, if◌then◌else◌, Bool-cases, Option-cases, subst,
  replicate, length-replicate, word,
}
use rubix_redis_bridge.App.Shards.{
  ConnectionSlot, RedisTarget, is_connected, connect_slot, stale_slot, connected, disconnected,
  new_target,
}

module _ {Connection : Type 0} where
  abbrev pub bit : ConnectionSlot Connection → ℕ
  bit slot = if is_connected slot then 1 else 0

  unfoldable pub count_connected : List (ConnectionSlot Connection) → ℕ
  count_connected [] = 0
  count_connected (slot ∷ slots) = bit slot + count_connected slots

  -- Both counters are the number of connected slots.
  pub record IsCounted (t : RedisTarget Connection) : Type 0 where
    pub fits : length t.connections < word
    pub available : t.available_shards ≡ count_connected t.connections
    pub gauge : t.redis_connected_shards ≡ count_connected t.connections

  count_connected-le-length :
      (slots : List (ConnectionSlot Connection)) → count_connected slots ≤ length slots
  unfolding count_connected
  count_connected-le-length [] = omega arith
  count_connected-le-length (slot ∷ slots) = ground (arith, count_connected-le-length slots)

  count_connected-set :
      (slots : List (ConnectionSlot Connection)) (i : ℕ) (old new : ConnectionSlot Connection)
      → get_elem? slots i ≡ some old
      → count_connected (set slots i new) + bit old ≡ count_connected slots + bit new
  unfolding count_connected
  count_connected-set [] i old new e = cc
  count_connected-set (slot ∷ slots) zero old new e = ground arith
  count_connected-set (slot ∷ slots) (suc i) old new e =
      omega (arith, count_connected-set slots i old new e)

  stale_slot-bit :
      (slot : ConnectionSlot Connection) (generation : ℕ)
      → stale_slot slot generation ≡ false
      → bit slot ≡ 1
  unfolding stale_slot
  stale_slot-bit slot generation h = ground arith

  -- Connecting a shard that is not connected.
  pub connected-IsCounted :
      (t t' : RedisTarget Connection) (shard : ℕ) (c : Connection)
      (slot : ConnectionSlot Connection)
      → IsCounted t
      → get_elem? t.connections shard ≡ some slot
      → slot.connection ≡ none
      → connected t shard c ≡ some t'
      → IsCounted t'
  unfolding connected connect_slot
  connected-IsCounted t t' shard c slot v e free h =
      let new = connect_slot slot c in
      let slots = set t.connections shard new in
      let counts = count_connected-set t.connections shard slot new e in
      let same = length-set t.connections shard new in
      let bound = count_connected-le-length slots in
      let off : bit slot ≡ 0 = ground arith in
      let slots_are : t'.connections ≡ slots = ground arith in
      record {
        fits = rw slots_are (rw same v.fits);
        available = rw slots_are (ground (arith, counts, bound, same, off));
        gauge = rw slots_are (ground (arith, counts, bound, same, off));
      }

  -- Disconnecting a shard, which fails if it has another generation or no connection.
  pub disconnected-IsCounted :
      (t t' : RedisTarget Connection) (shard generation : ℕ) (invalidated : Bool)
      → IsCounted t
      → disconnected t shard generation ≡ some (invalidated, t')
      → IsCounted t'
  unfolding disconnected
  disconnected-IsCounted t t' shard generation invalidated v h =
      elim (Option-cases (get_elem? t.connections shard)) [
        | inl e ↦ absurd (ground arith)
        | inr (slot, e) ↦ elim (Bool-cases (stale_slot slot generation)) [
          | inl stale ↦ let same : t ≡ t' = ground arith in subst IsCounted same v
          | inr current ↦
              let new = record slot { connection = none } in
              let slots = set t.connections shard new in
              let counts = count_connected-set t.connections shard slot new e in
              let same = length-set t.connections shard new in
              let bound = count_connected-le-length t.connections in
              let on : bit slot ≡ 1 = stale_slot-bit slot generation current in
              let slots_are : t'.connections ≡ slots = ground arith in
              record {
                fits = rw slots_are (rw same v.fits);
                available = rw slots_are (ground (arith, counts, bound, on));
                gauge = rw slots_are (ground (arith, counts, bound, on));
              }
        ]
      ]

  pub new_target-IsCounted :
      (shards : ℕ) → shards < word → IsCounted (new_target {Connection = Connection} shards)
  unfolding new_target count_connected
  new_target-IsCounted shards h = record {
    fits = rw length-replicate h;
    available = sym (none_connected shards);
    gauge = sym (none_connected shards);
  }
    where
      idle : ConnectionSlot Connection
      idle = record { generation = 0; connection = none }

      none_connected : (n : ℕ) → count_connected (replicate n idle) ≡ 0
      none_connected zero = refl
      none_connected (suc n) = omega (arith, none_connected n)

  -- Neither changes the number of shards, and neither panics on a shard in range.
  pub length-connected :
      (t t' : RedisTarget Connection) (shard : ℕ) (c : Connection)
      → connected t shard c ≡ some t'
      → length t'.connections ≡ length t.connections
  unfolding connected
  length-connected t t' shard c h = elim (Option-cases (get_elem? t.connections shard)) [
    | inl e ↦ absurd (ground arith)
    | inr (slot, e) ↦ ground (arith, length-set t.connections shard (connect_slot slot c))
  ]

  pub length-disconnected :
      (t t' : RedisTarget Connection) (shard generation : ℕ) (invalidated : Bool)
      → disconnected t shard generation ≡ some (invalidated, t')
      → length t'.connections ≡ length t.connections
  unfolding disconnected
  length-disconnected t t' shard generation invalidated h =
      elim (Option-cases (get_elem? t.connections shard)) [
        | inl e ↦ absurd (ground arith)
        | inr (slot, e) ↦
            ground (arith, length-set t.connections shard (record slot { connection = none }))
      ]
