-- ===== src/Auth/Lockout/Invariant.antt =====
-- The lockout table stays within its bound, and its counters within the limit.
use rubix_redis_bridge.Prelude.{
  ℕ, ◌+◌, ◌≤◌, ◌<◌, ◌≡◌, ◌⊎◌, inl, inr, refl, Bool, true, false, not, List, [], ◌∷◌, none, some,
  arith, length, get, put, delete, retain, contains_key, HasDistinctKeys, length-put,
  length-delete-le, length-retain-le, put-HasDistinctKeys, delete-HasDistinctKeys,
  retain-HasDistinctKeys, Bool-cases, Option-cases,
}
use rubix_redis_bridge.Net.{IpAddr, ip_eq}
use rubix_redis_bridge.Auth.Lockout.{
  AuthState, AuthLockout, Event, fails, succeeds, snapshots, empty, fresh_state, count_failure,
  fail_state, state_or_new, record_entry, record_failure_at, record_success, cleanup_stale_entries,
  is_stale, is_full, is_enabled, snapshot_at, step, run,
}

-- A counter that is not locked is below the limit; a locked one has reached it, and its lock ends
-- one lockout duration after the last failure counted.
abbrev pub IsCounted : AuthLockout → AuthState → Type 0
IsCounted l s = elim s.locked_until [
  | none ↦ s.failures < l.max_failures
  | some until ↦ (s.failures ≡ l.max_failures) × (until ≡ s.last_seen_at + l.lockout_duration)
]

abbrev pub AllCounted : AuthLockout → List (IpAddr × AuthState) → Type 0
AllCounted l [] = Unit
AllCounted l ((ip, s) ∷ m) = IsCounted l s × AllCounted l m

pub record IsValid (l : AuthLockout) : Type 0 where
  pub distinct : HasDistinctKeys l.entries
  pub bounded : length l.entries ≤ l.max_entries
  pub counted : AllCounted l l.entries

AllCounted-put :
    (l : AuthLockout) (m : List (IpAddr × AuthState)) (ip : IpAddr) (s : AuthState)
    → AllCounted l m
    → IsCounted l s
    → AllCounted l (put m ip s)
unfolding put
AllCounted-put l [] ip s h c = (c, tt)
AllCounted-put l ((j, w) ∷ m) ip s (h, hs) c = ground (arith, AllCounted-put l m ip s hs c)

AllCounted-retain :
    (l : AuthLockout) (p : AuthState → Bool) (m : List (IpAddr × AuthState))
    → AllCounted l m
    → AllCounted l (retain p m)
unfolding retain
AllCounted-retain l p [] h = tt
AllCounted-retain l p ((j, w) ∷ m) (h, hs) = ground (arith, AllCounted-retain l p m hs)

AllCounted-delete :
    (l : AuthLockout) (m : List (IpAddr × AuthState)) (ip : IpAddr)
    → AllCounted l m
    → AllCounted l (delete m ip)
unfolding delete
AllCounted-delete l [] ip h = tt
AllCounted-delete l ((j, w) ∷ m) ip (h, hs) = ground (arith, AllCounted-delete l m ip hs)

AllCounted-get :
    (l : AuthLockout) (m : List (IpAddr × AuthState)) (ip : IpAddr) (s : AuthState)
    → AllCounted l m
    → get m ip ≡ some s
    → IsCounted l s
unfolding get
AllCounted-get l [] ip s h e = absurd (ground arith)
AllCounted-get l ((j, w) ∷ m) ip s (h, hs) e = ground (arith, AllCounted-get l m ip s hs)

count_failure-IsCounted :
    (l : AuthLockout) (now : ℕ) (s : AuthState)
    → 0 < l.max_failures
    → s.failures < l.max_failures
    → s.locked_until ≡ none
    → IsCounted l (count_failure l now s).1
unfolding count_failure
count_failure-IsCounted l now s on below free = ground arith

fail_state-IsCounted :
    (l : AuthLockout) (now : ℕ) (s : AuthState)
    → 0 < l.max_failures
    → IsCounted l s
    → IsCounted l (fail_state l now s).1
unfolding fail_state
fail_state-IsCounted l now s on c = ground (
  arith,
  count_failure-IsCounted l now s on,
  count_failure-IsCounted l now (fresh_state now) on on refl,
)

cleanup-IsValid : (now : ℕ) (l : AuthLockout) → IsValid l → IsValid (cleanup_stale_entries now l)
unfolding cleanup_stale_entries
cleanup-IsValid now l v = record {
  distinct = retain-HasDistinctKeys _ l.entries v.distinct;
  bounded = omega (
    arith,
    v.bounded,
    length-retain-le (λ state. not (is_stale now l.failure_window state)) l.entries,
  );
  counted = AllCounted-retain l _ l.entries v.counted;
}

state_or_new-IsCounted :
    (l : AuthLockout) (ip : IpAddr) (now : ℕ)
    → 0 < l.max_failures
    → IsValid l
    → IsCounted l (state_or_new now (get l.entries ip))
state_or_new-IsCounted l ip now on v = elim (Option-cases (get l.entries ip)) [
  | inl e ↦ rw e on
  | inr (s, e) ↦ rw e (AllCounted-get l l.entries ip s v.counted e)
]

record_entry-IsValid :
    (l : AuthLockout) (ip : IpAddr) (now : ℕ)
    → 0 < l.max_failures
    → IsValid l
    → (is_full l ≡ false) ⊎ (contains_key l.entries ip ≡ true)
    → IsValid (record_entry l ip now).1
unfolding record_entry
record_entry-IsValid l ip now on v room = record {
  distinct = put-HasDistinctKeys l.entries ip _ v.distinct;
  bounded = ground (
    arith,
    v.bounded,
    length-put l.entries ip (fail_state l now (state_or_new now (get l.entries ip))).1,
  );
  counted =
      AllCounted-put l l.entries ip _ v.counted
        (fail_state-IsCounted l now _ on (state_or_new-IsCounted l ip now on v));
}

record_failure_at-IsValid :
    (l : AuthLockout) (ip : IpAddr) (now : ℕ) → IsValid l → IsValid (record_failure_at l ip now).1
unfolding record_failure_at
record_failure_at-IsValid l ip now v = ground (
  arith,
  cleanup-IsValid now l v,
  record_entry-IsValid l ip now,
  record_entry-IsValid (cleanup_stale_entries now l) ip now,
)

record_success-IsValid : (l : AuthLockout) (ip : IpAddr) → IsValid l → IsValid (record_success l ip)
unfolding record_success
record_success-IsValid l ip v = elim (Bool-cases (is_enabled l)) [
  | inl on ↦ rw on (record {
    distinct = delete-HasDistinctKeys l.entries ip v.distinct;
    bounded = omega (arith, v.bounded, length-delete-le l.entries ip);
    counted = AllCounted-delete l l.entries ip v.counted;
  })
  | inr off ↦ rw off v
]

snapshot_at-IsValid : (l : AuthLockout) (now : ℕ) → IsValid l → IsValid (snapshot_at l now).1
unfolding snapshot_at
snapshot_at-IsValid l now v = ground (arith, cleanup-IsValid now l v)

pub step-IsValid : (l : AuthLockout) (e : Event) → IsValid l → IsValid (step l e)
unfolding step
step-IsValid l (fails ip now) v = record_failure_at-IsValid l ip now v
step-IsValid l (succeeds ip) v = record_success-IsValid l ip v
step-IsValid l (snapshots now) v = snapshot_at-IsValid l now v

-- Every call keeps the lockout valid, whatever the addresses and the times.
pub run-IsValid : (l : AuthLockout) (events : List Event) → IsValid l → IsValid (run l events)
unfolding run
run-IsValid l [] v = v
run-IsValid l (e ∷ events) v = run-IsValid (step l e) events (step-IsValid l e v)

-- After any sequence of failures, successes and snapshots from an empty table: each address has one
-- entry, there are at most `max_entries`, an entry without a lock counts fewer than `max_failures`
-- failures, and a locked one exactly that many, its lock ending `lockout_duration` after the last.
pub run-empty-IsValid :
    (max_failures failure_window lockout_duration max_entries : ℕ) (events : List Event)
    → IsValid (run (empty max_failures failure_window lockout_duration max_entries) events)
run-empty-IsValid f w d m events =
    run-IsValid (empty f w d m) events
      (record { distinct = tt; bounded = omega arith; counted = tt })

-- No operation changes the bound.
pub step-max_entries : (l : AuthLockout) (e : Event) → (step l e).max_entries ≡ l.max_entries
unfolding step record_failure_at record_entry cleanup_stale_entries record_success snapshot_at
step-max_entries l (fails ip now) = ground arith
step-max_entries l (succeeds ip) = ground arith
step-max_entries l (snapshots now) = ground arith
