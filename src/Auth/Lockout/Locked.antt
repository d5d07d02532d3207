-- ===== src/Auth/Lockout/Locked.antt =====
-- A lock holds until it ends: no other client, failure, snapshot or eviction lifts it.
use rubix_redis_bridge.Prelude.{
  ℕ, ◌<◌, ◌≡◌, ◌≢◌, ◌∙◌, inl, inr, refl, ap, true, not, ◌&&◌, List, [], ◌∷◌, some, arith,
  if◌then◌else◌, get, contains_key, get-put, get-delete, get-retain, contains_key-get, All,
  Bool-cases,
}
use rubix_redis_bridge.Net.{IpAddr, ip_eq, ip_beq_iff, ip_beq}
use rubix_redis_bridge.Auth.Lockout.{
  AuthState, AuthLockout, AuthFailure, already_locked, disabled, entry_limit_reached, Event, fails,
  succeeds, snapshots, fail_state, state_or_new, record_entry, record_failure_at, record_success,
  cleanup_stale_entries, is_full, is_enabled, snapshot_at, step, run,
}
use rubix_redis_bridge.Auth.Lockout.Invariant.{IsValid, run-IsValid, step-IsValid}

abbrev pub IsLockedUntil : AuthLockout → IpAddr → ℕ → Type 0
IsLockedUntil l ip until =
    (s : AuthState) × (get l.entries ip ≡ some s) × (s.locked_until ≡ some until)

-- An event before `until` that is not a success of the address.
abbrev pub Leaves : IpAddr → ℕ → Event → Type 0
Leaves ip until (fails other now) = now < until
Leaves ip until (succeeds other) = other ≢ ip
Leaves ip until (snapshots now) = now < until

-- A failure while the lock lasts changes nothing.
fail_state_locked :
    (l : AuthLockout) (now until : ℕ) (s : AuthState)
    → now < until
    → s.locked_until ≡ some until
    → fail_state l now s ≡ (already_locked, s)
unfolding fail_state
fail_state_locked l now until s before lock = ground arith

-- The ways through `record_failure_at`: off, full after the cleanup, room after it, room before.
record_failure_cases {ℓ} :
    (P : AuthFailure × AuthLockout → Type ℓ) (l : AuthLockout) (ip : IpAddr) (now : ℕ)
    → P (disabled, l)
    → P (entry_limit_reached, cleanup_stale_entries now l)
    → P (record_entry (cleanup_stale_entries now l) ip now)
    → P (record_entry l ip now)
    → P (record_failure_at l ip now)
unfolding record_failure_at
record_failure_cases P l ip now off full cleaned room = elim (Bool-cases (is_enabled l)) [
  | inr e ↦ rw e off
  | inl e ↦ rw e (elim (Bool-cases (is_full l && not (contains_key l.entries ip))) [
    | inr f ↦ rw f room
    | inl f ↦ rw f (elim (Bool-cases (is_full (cleanup_stale_entries now l))) [
      | inl g ↦ rw g full
      | inr g ↦ rw g cleaned
    ])
  ])
]

module _ (ip : IpAddr) (until : ℕ) where
  cleanup-IsLockedUntil :
      (now : ℕ) (l : AuthLockout)
      → now < until
      → IsValid l
      → IsLockedUntil l ip until
      → IsLockedUntil (cleanup_stale_entries now l) ip until
  unfolding cleanup_stale_entries
  cleanup-IsLockedUntil now l before v (s, e, lock) =
      (s, get-retain _ l.entries ip v.distinct ∙ rw e (ground arith), lock)

  record_entry-IsLockedUntil :
      (now : ℕ) (l : AuthLockout) (other : IpAddr)
      → now < until
      → IsLockedUntil l ip until
      → IsLockedUntil (record_entry l other now).1 ip until
  unfolding record_entry
  record_entry-IsLockedUntil now l other before (s, e, lock) = elim (Bool-cases (ip_beq other ip)) [
    | inl same ↦
        let o : other ≡ ip = (ip_beq_iff other ip).0 same in
        (s, rw o (get-put l.entries ip ip _ ∙ kept), lock)
    | inr differs ↦ (s, get-put l.entries other ip _ ∙ rw differs e, lock)
  ]
    where
      kept :
          (if ip_beq ip ip
            then some (fail_state l now (state_or_new now (get l.entries ip))).1
            else get l.entries ip)
          ≡ some s
      kept = rw e (rw (fail_state_locked l now until s before lock) (ground arith))

  record_failure_at-IsLockedUntil :
      (now : ℕ) (l : AuthLockout) (other : IpAddr)
      → now < until
      → IsValid l
      → IsLockedUntil l ip until
      → IsLockedUntil (record_failure_at l other now).1 ip until
  record_failure_at-IsLockedUntil now l other before v k =
      let cleaned = cleanup-IsLockedUntil now l before v k in
      record_failure_cases (λ r. IsLockedUntil r.1 ip until) l other now k cleaned
        (record_entry-IsLockedUntil now (cleanup_stale_entries now l) other before cleaned)
        (record_entry-IsLockedUntil now l other before k)

  record_success-IsLockedUntil :
      (l : AuthLockout) (other : IpAddr)
      → other ≢ ip
      → IsLockedUntil l ip until
      → IsLockedUntil (record_success l other) ip until
  unfolding record_success
  record_success-IsLockedUntil l other ne (s, e, lock) =
      (s, ground (arith, get-delete l.entries other ip, ip_beq_iff other ip), lock)

  snapshot_at-IsLockedUntil :
      (now : ℕ) (l : AuthLockout)
      → now < until
      → IsValid l
      → IsLockedUntil l ip until
      → IsLockedUntil (snapshot_at l now).1 ip until
  unfolding snapshot_at
  snapshot_at-IsLockedUntil now l before v k = elim (Bool-cases (is_enabled l)) [
    | inl on ↦ rw on (cleanup-IsLockedUntil now l before v k)
    | inr off ↦ rw off k
  ]

  step-IsLockedUntil :
      (l : AuthLockout) (e : Event)
      → IsValid l
      → Leaves ip until e
      → IsLockedUntil l ip until
      → IsLockedUntil (step l e) ip until
  unfolding step
  step-IsLockedUntil l (fails other now) v h k = record_failure_at-IsLockedUntil now l other h v k
  step-IsLockedUntil l (succeeds other) v h k = record_success-IsLockedUntil l other h k
  step-IsLockedUntil l (snapshots now) v h k = snapshot_at-IsLockedUntil now l h v k

  pub run-IsLockedUntil :
      (l : AuthLockout) (events : List Event)
      → IsValid l
      → All (Leaves ip until) events
      → IsLockedUntil l ip until
      → IsLockedUntil (run l events) ip until
  unfolding run
  run-IsLockedUntil l [] v h k = k
  run-IsLockedUntil l (e ∷ events) v (h, hs) k =
      run-IsLockedUntil (step l e) events (step-IsValid l e v) hs (step-IsLockedUntil l e v h k)

  record_entry_locked :
      (now : ℕ) (l : AuthLockout)
      → now < until
      → IsLockedUntil l ip until
      → (record_entry l ip now).0 ≡ already_locked
  unfolding record_entry
  record_entry_locked now l before (s, e, lock) =
      rw e (ap (λ r. r.0) (fail_state_locked l now until s before lock))

  -- A failure of a locked address is answered by "already locked".
  locked_fails :
      (l : AuthLockout) (now : ℕ)
      → is_enabled l ≡ true
      → now < until
      → IsLockedUntil l ip until
      → (record_failure_at l ip now).0 ≡ already_locked
  unfolding record_failure_at
  locked_fails l now on before (s, e, lock) =
      ground
        (arith, contains_key-get l.entries ip, e, record_entry_locked now l before (s, e, lock))

step-is_enabled : (l : AuthLockout) (e : Event) → (step l e).max_failures ≡ l.max_failures
unfolding step record_success snapshot_at cleanup_stale_entries record_entry
step-is_enabled l (fails ip now) =
    record_failure_cases (λ r. r.1.max_failures ≡ l.max_failures) l ip now refl refl refl refl
step-is_enabled l (succeeds ip) = ground arith
step-is_enabled l (snapshots now) = ground arith

run-is_enabled :
    (l : AuthLockout) (events : List Event) → (run l events).max_failures ≡ l.max_failures
unfolding run
run-is_enabled l [] = refl
run-is_enabled l (e ∷ events) = run-is_enabled (step l e) events ∙ step-is_enabled l e

-- In a valid table of an enabled lockout, whatever other clients do, and however full the table is:
-- if an address is locked until an instant, then after any events before that instant that are not a success of the address itself,
-- its next failure before that instant is answered by "already locked", and the lock is unchanged.
pub run-already_locked :
    (ip : IpAddr) (until now : ℕ) (l : AuthLockout) (events : List Event)
    → IsValid l
    → is_enabled l ≡ true
    → IsLockedUntil l ip until
    → All (Leaves ip until) events
    → now < until
    → ((record_failure_at (run l events) ip now).0 ≡ already_locked)
      × IsLockedUntil (record_failure_at (run l events) ip now).1 ip until
run-already_locked ip until now l events v on k hs before =
    let kept = run-IsLockedUntil ip until l events v hs k in
    let on' : is_enabled (run l events) ≡ true = rw (run-is_enabled l events) on in
    (
      locked_fails ip until (run l events) now on' before kept,
      record_failure_at-IsLockedUntil ip until now (run l events) ip before (run-IsValid l events v)
          kept,
    )
