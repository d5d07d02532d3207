-- ===== src/App/Shards/Select.antt =====
-- `select_ready_shard` takes the first ready shard of the rotation, and misses none.
use native.Mathlib.Nat.{mod-lt, mod-eq_of_lt, mod-eq-sub-mod}
use rubix_redis_bridge.Prelude.{
  ℕ, zero, suc, ◌+◌, ◌-◌, ◌%◌, ◌<◌, ◌≡◌, ◌↔◌, ◌∙◌, inl, inr, ap, Bool, true, false, none, some,
  arith, Bool-cases, Option-cases, subst, dec_lt,
}
use rubix_redis_bridge.App.Shards.{find_ready, select_ready_shard}

-- What holds of every number below a bound.
abbrev pub AllBelow : ℕ → (ℕ → Type 0) → Type 0
AllBelow zero P = Unit
AllBelow (suc n) P = AllBelow n P × P n

pub AllBelow-at : (n k : ℕ) (P : ℕ → Type 0) → k < n → AllBelow n P → P k
AllBelow-at zero k P h a = elim h [ ]
AllBelow-at (suc n) k P h (a, p) = elim (dec_lt k n) [
  | yes below ↦ AllBelow-at n k P below a
  | no above ↦ let e : n ≡ k = omega arith in subst P e p
]

pub AllBelow-intro : (n : ℕ) (P : ℕ → Type 0) → ((k : ℕ) → k < n → P k) → AllBelow n P
AllBelow-intro zero P f = tt
AllBelow-intro (suc n) P f = (AllBelow-intro n P (λ k h. f k (omega arith)), f n (omega arith))

-- The shard at an offset of the rotation that begins at `start`.
abbrev pub at_offset : ℕ → ℕ → ℕ → ℕ
at_offset start len offset = (start % len + offset) % len

module _ (start len : ℕ) (ready : ℕ → Bool) where
  -- The shards of the rotation up to an offset are not ready, and the one at the offset is.
  pub record Found (index : ℕ) : Type 0 where
    pub offset : ℕ
    pub in_rotation : offset < len
    pub index_is : index ≡ at_offset start len offset
    pub is_ready : ready index ≡ true
    pub passed : AllBelow offset (λ o. ready (at_offset start len o) ≡ false)

  find_ready_sound :
      (index offset left : ℕ)
      → offset + left ≡ len
      → AllBelow offset (λ o. ready (at_offset start len o) ≡ false)
      → find_ready start len ready offset left ≡ some index
      → Found index
  unfolding find_ready
  find_ready_sound index offset zero e passed h = absurd (ground arith)
  find_ready_sound index offset (suc left) e passed h =
      elim (Bool-cases (ready (at_offset start len offset))) [
        | inl is_ready ↦
            let index_is : index ≡ at_offset start len offset = ground arith in
            record {
              offset = offset;
              in_rotation = omega arith;
              index_is = index_is;
              is_ready = rw index_is is_ready;
              passed = passed;
            }
        | inr waiting ↦
            find_ready_sound index (suc offset) left (omega arith) (passed, waiting) (ground arith)
      ]

  find_ready-none :
      (offset left : ℕ)
      → offset + left ≡ len
      → AllBelow offset (λ o. ready (at_offset start len o) ≡ false)
      → find_ready start len ready offset left ≡ none
      → AllBelow len (λ o. ready (at_offset start len o) ≡ false)
  unfolding find_ready
  find_ready-none offset zero e passed h =
      let all : offset ≡ len = omega arith in
      subst (λ n. AllBelow n (λ o. ready (at_offset start len o) ≡ false)) all passed
  find_ready-none offset (suc left) e passed h =
      elim (Bool-cases (ready (at_offset start len offset))) [
        | inl is_ready ↦ absurd (ground arith)
        | inr waiting ↦
            find_ready-none (suc offset) left (omega arith) (passed, waiting) (ground arith)
      ]

-- The offset at which the rotation reaches a shard.
reaches :
    (start len index : ℕ) → index < len → (o : ℕ) × (o < len) × (at_offset start len o ≡ index)
reaches start len index h = elim (dec_lt index (start % len)) [
  | yes before ↦
      let s = start % len in
      let below : s < len = mod-lt start (omega arith) in
      let sum : s + (index + len - s) ≡ index + len = omega arith in
      let back : index + len - len ≡ index = omega arith in
      (
        index + len - s,
        omega arith,
        ap (λ (n : ℕ). n % len) sum
            ∙ mod-eq-sub-mod (omega arith)
            ∙ ap (λ (n : ℕ). n % len) back
            ∙ mod-eq_of_lt h,
      )
  | no after ↦
      let s = start % len in
      let sum : s + (index - s) ≡ index = omega arith in
      (index - s, omega arith, ap (λ (n : ℕ). n % len) sum ∙ mod-eq_of_lt h)
]

-- The shard chosen is the first ready one in the rotation that begins at `start`, and lies in range.
pub select_ready_shard_sound :
    (start len : ℕ) (ready : ℕ → Bool) (index : ℕ)
    → select_ready_shard start len ready ≡ some index
    → (index < len) × Found start len ready index
unfolding select_ready_shard
select_ready_shard_sound start len ready index h =
    let f = find_ready_sound start len ready index 0 len (omega arith) tt h in
    (rw f.index_is (mod-lt (start % len + f.offset) (omega (arith, f.in_rotation))), f)

-- No shard is chosen exactly if no shard in range is ready, wherever the rotation begins.
pub select_ready_shard-eq-none_iff :
    (start len : ℕ) (ready : ℕ → Bool)
    → (select_ready_shard start len ready ≡ none) ↔ AllBelow len (λ i. ready i ≡ false)
unfolding select_ready_shard
select_ready_shard-eq-none_iff start len ready = (none_ready, none_found)
  where
    none_ready : select_ready_shard start len ready ≡ none → AllBelow len (λ i. ready i ≡ false)
    none_ready h =
        let turns = find_ready-none start len ready 0 len (omega arith) tt h in
        AllBelow-intro len _ λ i below.
          let (o, turn, reached) = reaches start len i below in
          subst (λ j. ready j ≡ false) reached (AllBelow-at len o _ turn turns)

    none_found : AllBelow len (λ i. ready i ≡ false) → select_ready_shard start len ready ≡ none
    none_found waiting = elim (Option-cases (select_ready_shard start len ready)) [
      | inl e ↦ e
      | inr (i, e) ↦
          let (below, f) = select_ready_shard_sound start len ready i e in
          let idle : ready i ≡ false = AllBelow-at len i _ below waiting in
          absurd (ground (arith, f.is_ready, idle))
    ]
