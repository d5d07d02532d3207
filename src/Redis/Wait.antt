-- ===== src/Redis/Wait.antt =====
-- Futures, as far as src/redis/execute.rs and `RedisTarget::connection` wait for them: a future is
-- ready after some milliseconds with a value, or never.
use rubix_redis_bridge.Prelude.{
  ℕ, ◌+◌, ◌≤◌, ◌≡◌, refl, inl, inr, Option, none, some, Option-cases, arith,
}

pub data Wait (A : Type 0) : Type 0 where
  after : ℕ → A → Wait A
  never : Wait A

module _ {A : Type 0} where
  unfoldable pub delay : ℕ → Wait A → Wait A
  delay d (after e a) = after (d + e) a
  delay d never = never

-- `tokio::time::timeout` of the tokio crate: when it ends, and with the future's value if the future
-- was ready by then. As its documentation says, a future that is ready in time gives its value when it
-- is ready, and otherwise the timeout ends, with no value, when its duration has elapsed.
pub record Timer : Type 1 where
  pub limited : {A : Type 0} → ℕ → Wait A → ℕ × Option A
  pub in_time :
      {A : Type 0} (limit d : ℕ) (a : A) → d ≤ limit → limited limit (after d a) ≡ (d, some a)
  pub at_end :
      {A : Type 0} (limit : ℕ) (w : Wait A)
      → (limited limit w).1 ≡ none
      → (limited limit w).0 ≡ limit
  pub was_ready :
      {A : Type 0} (limit : ℕ) (w : Wait A) (a : A)
      → (limited limit w).1 ≡ some a
      → ((limited limit w).0 ≤ limit) × (w ≡ after (limited limit w).0 a)

module _ ⦃timer : Timer⦄ {A : Type 0} where
  pub limited-le : (limit : ℕ) (w : Wait A) → (timer.limited limit w).0 ≤ limit
  limited-le limit w = elim (Option-cases (timer.limited limit w).1) [
    | inl e ↦
        let end : (timer.limited limit w).0 ≡ limit = timer.at_end limit w e in omega (arith, end)
    | inr (a, e) ↦ (timer.was_ready limit w a e).0
  ]

-- `.await`
module _ {A B : Type 0} where
  unfoldable pub and_then : Wait A → (A → Wait B) → Wait B
  unfolding delay
  and_then (after d a) next = delay d (next a)
  and_then never next = never

  -- When the whole is ready, so is the first part, and then the rest.
  pub record Parts (w : Wait A) (next : A → Wait B) (d : ℕ) (b : B) : Type 0 where
    pub first : ℕ
    pub rest : ℕ
    pub value : A
    pub first_is : w ≡ after first value
    pub rest_is : next value ≡ after rest b
    pub sum : first + rest ≡ d

  pub and_then-Parts :
      (w : Wait A) (next : A → Wait B) (d : ℕ) (b : B)
      → and_then w next ≡ after d b
      → Parts w next d b
  unfolding and_then delay
  and_then-Parts never next d b h = cc
  and_then-Parts (after e a) next d b h = by_rest (next a) refl h
    where
      by_rest : (v : Wait B) → next a ≡ v → delay e v ≡ after d b → Parts (after e a) next d b
      by_rest never eq k = cc
      by_rest (after r c) eq k =
          let total : e + r ≡ d = cc in
          let same : c ≡ b = cc in
          record {
            first = e;
            rest = r;
            value = a;
            first_is = refl;
            rest_is = rw (← same) eq;
            sum = total;
          }

  pub and_then-after :
      (w : Wait A) (next : A → Wait B) (d : ℕ) (b : B)
      → Parts w next d b
      → and_then w next ≡ after d b
  unfolding and_then delay
  and_then-after w next d b p = rw p.first_is (rw (p.rest_is, p.sum) refl)
