-- ===== src/Auth/Lockout/Threshold.antt =====
-- How many failures lock an address.
use rubix_redis_bridge.Prelude.{
  ℕ, suc, ◌+◌, ◌-◌, ◌≤◌, ◌<◌, ◌≡◌, ◌∙◌, refl, ap, true, false, List, [], ◌∷◌, ◌++◌, none, some,
  arith, length, replicate, get, put, contains_key, get-put_self, contains_key-get, All,
}
use rubix_redis_bridge.Net.{IpAddr, ip_eq}
use rubix_redis_bridge.Auth.Lockout.{
  AuthState, AuthLockout, AuthFailure, tracked, locked, fresh_state, fail_state, record_entry,
  record_failure_at, is_full, is_enabled,
}
use rubix_redis_bridge.Auth.Lockout.Locked.{IsLockedUntil}

-- The failures of one address at the instants given, with the answer to each.
pub record_failures : AuthLockout → IpAddr → List ℕ → List AuthFailure × AuthLockout
record_failures l ip [] = ([], l)
record_failures l ip (now ∷ times) =
    let (answer, l') = record_failure_at l ip now in
    let (answers, l'') = record_failures l' ip times in (answer ∷ answers, l'')

-- An entry that has counted so many failures in a window that began at the instant given.
abbrev Counts : AuthLockout → IpAddr → ℕ → ℕ → Type 0
Counts l ip start n =
    (s : AuthState) × (get l.entries ip ≡ some s)
    × (s.failures ≡ n)
    × (s.window_started_at ≡ start)
    × (s.locked_until ≡ none)

fail_state_counts :
    (l : AuthLockout) (now : ℕ) (s : AuthState)
    → s.locked_until ≡ none
    → now - s.window_started_at < l.failure_window
    → suc s.failures < l.max_failures
    → fail_state l now s ≡ (tracked, record s { failures = s.failures + 1; last_seen_at = now })
unfolding fail_state
fail_state_counts l now s free inside below = ground arith

fail_state_locks :
    (l : AuthLockout) (now : ℕ) (s : AuthState)
    → s.locked_until ≡ none
    → now - s.window_started_at < l.failure_window
    → l.max_failures ≤ suc s.failures
    → fail_state l now s ≡ (
      locked,
      record s {
        failures = s.failures + 1;
        last_seen_at = now;
        locked_until = some (now + l.lockout_duration);
      },
    )
unfolding fail_state
fail_state_locks l now s free inside reached = ground arith

-- A failure of an address that has an entry, or that finds room for one.
record_known :
    (l : AuthLockout) (ip : IpAddr) (now : ℕ) (s s' : AuthState) (answer : AuthFailure)
    → is_enabled l ≡ true
    → get l.entries ip ≡ some s
    → fail_state l now s ≡ (answer, s')
    → record_failure_at l ip now ≡ (answer, record l { entries = put l.entries ip s' })
unfolding record_failure_at record_entry
record_known l ip now s s' answer on e f =
    let known : contains_key l.entries ip ≡ true = contains_key-get l.entries ip ∙ rw e refl in
    rw (on, known, e, f) (ground arith)

record_new :
    (l : AuthLockout) (ip : IpAddr) (now : ℕ) (s' : AuthState) (answer : AuthFailure)
    → is_enabled l ≡ true
    → get l.entries ip ≡ none
    → is_full l ≡ false
    → fail_state l now (fresh_state now) ≡ (answer, s')
    → record_failure_at l ip now ≡ (answer, record l { entries = put l.entries ip s' })
unfolding record_failure_at record_entry
record_new l ip now s' answer on e room f = rw (on, room, e, f)

abbrev pub last : ℕ → List ℕ → ℕ
last now [] = now
last now (later ∷ times) = last later times

module _ (ip : IpAddr) (start : ℕ) where
  -- From an entry, the failure that brings the count to the limit locks the address.
  failures_lock :
      (l : AuthLockout) (n now : ℕ) (times : List ℕ)
      → is_enabled l ≡ true
      → Counts l ip start n
      → All (λ t. t - start < l.failure_window) (now ∷ times)
      → n + suc (length times) ≡ l.max_failures
      → ((record_failures l ip (now ∷ times)).0 ≡ replicate (length times) tracked ++ locked ∷ [])
        × IsLockedUntil
            (record_failures l ip (now ∷ times)).1
            ip
            (last now times + l.lockout_duration)
  unfolding record_failures
  failures_lock l n now [] on (s, e, f, w, free) (inside, _) reached =
      let r =
        record_known l ip now s _ locked on e
          (fail_state_locks l now s free (rw w inside) (omega arith)) in
      rw r (refl, (_, get-put_self l.entries ip _, refl))
  failures_lock l n now (later ∷ times) on (s, e, f, w, free) (inside, rest) reached =
      let counted = record s { failures = s.failures + 1; last_seen_at = now } in
      let l' = record l { entries = put l.entries ip counted } in
      let r =
        record_known l ip now s counted tracked on e
          (fail_state_counts l now s free (rw w inside) (omega arith)) in
      let (answers, lock) =
        failures_lock l' (suc n) later times on
          (counted, get-put_self l.entries ip counted, omega (arith, f), w, free) rest
          (omega arith) in
      rw r (ap (◌∷◌ tracked) answers, lock)

-- An address that is not yet tracked, with room in the table, fails `max_failures` times within one
-- window of its first failure: every answer but the last is "tracked", the last is "locked", and the
-- lock ends `lockout_duration` after the last failure.
pub threshold :
    (l : AuthLockout) (ip : IpAddr) (start : ℕ) (times : List ℕ)
    → get l.entries ip ≡ none
    → is_full l ≡ false
    → All (λ t. t - start < l.failure_window) (start ∷ times)
    → suc (length times) ≡ l.max_failures
    → ((record_failures l ip (start ∷ times)).0 ≡ replicate (length times) tracked ++ locked ∷ [])
      × IsLockedUntil
          (record_failures l ip (start ∷ times)).1
          ip
          (last start times + l.lockout_duration)
unfolding record_failures
threshold l ip start [] e room (inside, _) reached =
    let on : is_enabled l ≡ true = ground (arith, reached) in
    let r =
      record_new l ip start _ locked on e room
        (fail_state_locks l start (fresh_state start) refl inside (omega arith)) in
    rw r (refl, (_, get-put_self l.entries ip _, refl))
threshold l ip start (later ∷ times) e room (inside, rest) reached =
    let on : is_enabled l ≡ true = ground (arith, reached) in
    let counted = record (fresh_state start) { failures = 1; last_seen_at = start } in
    let l' = record l { entries = put l.entries ip counted } in
    let r =
      record_new l ip start counted tracked on e room
        (fail_state_counts l start (fresh_state start) refl inside (omega arith)) in
    let (answers, lock) =
      failures_lock ip start l' 1 later times on
        (counted, get-put_self l.entries ip counted, refl, refl, refl) rest (omega arith) in
    rw r (ap (◌∷◌ tracked) answers, lock)
