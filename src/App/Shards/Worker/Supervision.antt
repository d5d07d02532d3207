-- ===== src/App/Shards/Worker/Supervision.antt =====
-- Under any interleaving of the supervisors nothing panics, and the counters stay exact.
use rubix_redis_bridge.Prelude.{
  word, ℕ, ◌+◌, ◌≤◌, ◌<◌, ◌≡◌, ◌≢◌, ◌∙◌, inl, inr, refl, sym, min, List, [], ◌∷◌, Option, none,
  some, arith, leb, length, get_elem?, set, length-set, length-replicate, get_elem?-some, All,
  All-get_elem?, All-set, All-replicate, Bool-cases, Option-cases,
}
use rubix_redis_bridge.App.Shards.{ConnectionSlot, RedisTarget, connected, disconnected, new_target}
use rubix_redis_bridge.App.Shards.Counting.{
  IsCounted, connected-IsCounted, disconnected-IsCounted, new_target-IsCounted, length-connected,
  length-disconnected,
}
use rubix_redis_bridge.App.Shards.Worker.{
  Worker, Probe, changed, pong, no_pong, Observation, new_worker, probe_round, connect_round, round,
  Supervised, start, turn, turns, initial_backoff, max_backoff, max_failed_probes,
}

-- Fewer failed probes than the limit, and a delay between the first and the longest.
abbrev pub IsSound : Worker → Type 0
IsSound w =
    (w.failed_probes < max_failed_probes)
    × (initial_backoff ≤ w.backoff)
    × (w.backoff ≤ max_backoff)

module _ {Connection : Type 0} where
  pub record IsSupervised (s : Supervised Connection) : Type 0 where
    pub one_each : length s.workers ≡ length s.target.connections
    pub sound : All IsSound s.workers
    pub counted : IsCounted s.target

  -- What a round leaves.
  abbrev Keeps : RedisTarget Connection → Option (Worker × RedisTarget Connection) → Type 0
  Keeps t none = ⊥
  Keeps t (some (w', t')) =
      IsSound w' × IsCounted t' × (length t'.connections ≡ length t.connections)

  probe_round-Keeps :
      (w : Worker) (t : RedisTarget Connection) (shard generation : ℕ)
      (slot : ConnectionSlot Connection) (p : Probe)
      → get_elem? t.connections shard ≡ some slot
      → IsSound w
      → IsCounted t
      → Keeps t (probe_round w t shard generation p)
  unfolding probe_round
  probe_round-Keeps w t shard generation slot changed e h v = (h, v, refl)
  probe_round-Keeps w t shard generation slot pong e h v = (ground arith, v, refl)
  probe_round-Keeps w t shard generation slot no_pong e h v =
      elim (Bool-cases (leb max_failed_probes (min (w.failed_probes + 1) 255))) [
        | inr few ↦ rw few ((ground (arith, few), h.1, h.2), v, refl)
        | inl many ↦ rw many (elim (Option-cases (disconnected t shard generation)) [
          | inl panic ↦ absurd (no_panic panic)
          | inr ((invalidated, t'), done) ↦ rw done (
            (omega arith, h.1, h.2),
            disconnected-IsCounted t t' shard generation invalidated v done,
            length-disconnected t t' shard generation invalidated done,
          )
        ])
      ]
    where
      no_panic : disconnected t shard generation ≢ none
      no_panic panic = unfold disconnected in ground (arith, panic, e)

  connect_done :
      (w : Worker) (t t' : RedisTarget Connection) (shard : ℕ) (c : Connection)
      → connected t shard c ≡ some t'
      → connect_round w t shard (some c) ≡ some (new_worker, t')
  unfolding connect_round
  connect_done w t t' shard c done = ground arith

  connect_round-Keeps :
      (w : Worker) (t : RedisTarget Connection) (shard : ℕ) (slot : ConnectionSlot Connection)
      (dialled : Option Connection)
      → get_elem? t.connections shard ≡ some slot
      → slot.connection ≡ none
      → IsSound w
      → IsCounted t
      → Keeps t (connect_round w t shard dialled)
  connect_round-Keeps w t shard slot none e f h v = unfold connect_round in (ground arith, v, refl)
  connect_round-Keeps w t shard slot (some c) e f h v = elim (Option-cases (connected t shard c)) [
    | inl panic ↦ absurd (unfold connected in (ground (arith, panic, e)))
    | inr (t', done) ↦ rw (connect_done w t t' shard c done) (
      omega arith,
      connected-IsCounted t t' shard c slot v e f done,
      length-connected t t' shard c done,
    )
  ]

  round_off :
      (w : Worker) (t : RedisTarget Connection) (shard : ℕ) (slot : ConnectionSlot Connection)
      (o : Observation Connection)
      → get_elem? t.connections shard ≡ some slot
      → slot.connection ≡ none
      → round w t shard o ≡ connect_round w t shard o.dialled
  unfolding round
  round_off w t shard slot o e off = ground arith

  round_on :
      (w : Worker) (t : RedisTarget Connection) (shard : ℕ) (slot : ConnectionSlot Connection)
      (c : Connection) (o : Observation Connection)
      → get_elem? t.connections shard ≡ some slot
      → slot.connection ≡ some c
      → round w t shard o ≡ probe_round w t shard slot.generation o.probed
  unfolding round
  round_on w t shard slot c o e on = ground arith

  round-Keeps :
      (w : Worker) (t : RedisTarget Connection) (shard : ℕ) (slot : ConnectionSlot Connection)
      (o : Observation Connection)
      → get_elem? t.connections shard ≡ some slot
      → IsSound w
      → IsCounted t
      → Keeps t (round w t shard o)
  round-Keeps w t shard slot o e h v = elim (Option-cases slot.connection) [
    | inl off ↦
        rw (round_off w t shard slot o e off)
          (connect_round-Keeps w t shard slot o.dialled e off h v)
    | inr (c, on) ↦
        rw (round_on w t shard slot c o e on)
          (probe_round-Keeps w t shard slot.generation slot o.probed e h v)
  ]

  turn_done :
      (s : Supervised Connection) (shard : ℕ) (o : Observation Connection) (w w' : Worker)
      (t' : RedisTarget Connection)
      → get_elem? s.workers shard ≡ some w
      → round w s.target shard o ≡ some (w', t')
      → turn s (shard, o) ≡ some (record { workers = set s.workers shard w'; target = t' })
  unfolding turn
  turn_done s shard o w w' t' at done = ground arith

  turn-IsSupervised :
      (s : Supervised Connection) (shard : ℕ) (o : Observation Connection)
      → IsSupervised s
      → shard < length s.workers
      → (s' : Supervised Connection) × (turn s (shard, o) ≡ some s')
        × IsSupervised s'
        × (length s'.workers ≡ length s.workers)
  turn-IsSupervised s shard o v h =
      let (w, at) = get_elem?-some s.workers shard h in
      let (slot, e) = get_elem?-some s.target.connections shard (rw (← v.one_each) h) in
      let kept =
        round-Keeps w s.target shard slot o e (All-get_elem? IsSound s.workers shard w v.sound at)
          v.counted in
      elim (Option-cases (round w s.target shard o)) [
        | inl panic ↦ absurd (rw panic at kept)
        | inr ((w', t'), done) ↦
            let (sound, counted, same) = kept_of w w' t' done kept in
            (
              record { workers = set s.workers shard w'; target = t' },
              turn_done s shard o w w' t' at done,
              record {
                one_each = length-set s.workers shard w' ∙ v.one_each ∙ sym same;
                sound = All-set IsSound s.workers shard w' v.sound sound;
                counted = counted;
              },
              length-set s.workers shard w',
            )
      ]
    where
      kept_of :
          (w w' : Worker) (t' : RedisTarget Connection)
          → round w s.target shard o ≡ some (w', t')
          → Keeps s.target (round w s.target shard o)
          → Keeps s.target (some (w', t'))
      kept_of w w' t' done k = rw done at k

  turns_done :
      (s s' : Supervised Connection) (next : ℕ × Observation Connection)
      (schedule : List (ℕ × Observation Connection))
      → turn s next ≡ some s'
      → turns s (next ∷ schedule) ≡ turns s' schedule
  unfolding turns
  turns_done s s' next schedule done = ground arith

  -- From a state as supervision starts in or has reached, however the rounds of the supervisors of the
  -- target's shards interleave, and whatever they observe, none panics, and then both counters equal
  -- the number of connected shards, and every supervisor has fewer than two failed probes and a delay
  -- of 250 to 5000 milliseconds.
  pub turns-IsSupervised :
      (s : Supervised Connection) (schedule : List (ℕ × Observation Connection))
      → IsSupervised s
      → All (λ next. next.0 < length s.workers) schedule
      → (s' : Supervised Connection) × (turns s schedule ≡ some s') × IsSupervised s'
  turns-IsSupervised s [] v h = (s, (unfold turns in refl), v)
  turns-IsSupervised s ((shard, o) ∷ schedule) v (h, hs) =
      let (s', done, v', same) = turn-IsSupervised s shard o v h in
      let (s'', rest, v'') = turns-IsSupervised s' schedule v' (rw same hs) in
      (s'', turns_done s s' (shard, o) schedule done ∙ rest, v'')

  pub start-IsSupervised :
      (connection_shards : ℕ)
      → connection_shards < word
      → IsSupervised (start {Connection = Connection} connection_shards)
  unfolding start new_target
  start-IsSupervised n h = record {
    one_each = length-replicate n new_worker ∙ sym (length-replicate n _);
    sound = All-replicate IsSound n (omega arith);
    counted = unfold new_target in new_target-IsCounted n h;
  }
