-- ===== src/Auth/Lockout.antt =====
-- src/auth/lockout.rs. Instants and durations are numbers of one unit; `duration_since` stops at 0.
pub mod Invariant
pub mod Locked
pub mod Threshold
use rubix_redis_bridge.Prelude.{
  ℕ, ◌+◌, ◌-◌, Bool, true, false, not, ◌&&◌, List, [], ◌∷◌, Option, none, some, ltb, leb, length,
  if◌then◌else◌, get, put, delete, retain, contains_key,
}
use rubix_redis_bridge.Net.{IpAddr, ip_eq}

pub record AuthState : Type 0 where
  pub failures : ℕ
  pub window_started_at : ℕ
  pub last_seen_at : ℕ
  pub locked_until : Option ℕ

pub data AuthFailure : Type 0 where
  disabled tracked locked already_locked entry_limit_reached : AuthFailure

pub record AuthSnapshot : Type 0 where
  pub tracked_ips : ℕ
  pub locked_ips : ℕ

pub record AuthLockout : Type 0 where
  pub max_failures : ℕ
  pub failure_window : ℕ
  pub lockout_duration : ℕ
  pub max_entries : ℕ
  pub entries : List (IpAddr × AuthState)

-- `AuthLockout::new`
abbrev pub empty : ℕ → ℕ → ℕ → ℕ → AuthLockout
empty max_failures failure_window lockout_duration max_entries = record {
  max_failures = max_failures;
  failure_window = failure_window;
  lockout_duration = lockout_duration;
  max_entries = max_entries;
  entries = [];
}

-- `AuthState::new`, which is also what `reset_window` leaves
abbrev pub fresh_state : ℕ → AuthState
fresh_state now = record {
  failures = 0;
  window_started_at = now;
  last_seen_at = now;
  locked_until = none;
}

unfoldable pub is_stale : ℕ → ℕ → AuthState → Bool
is_stale now failure_window state = elim state.locked_until [
  | some until ↦ leb until now
  | none ↦ leb failure_window (now - state.last_seen_at)
]

abbrev pub is_enabled : AuthLockout → Bool
is_enabled l = ltb 0 l.max_failures

unfoldable pub cleanup_stale_entries : ℕ → AuthLockout → AuthLockout
unfolding is_stale
cleanup_stale_entries now l = record l {
  entries = retain (λ state. not (is_stale now l.failure_window state)) l.entries;
}

-- The window check, the count and the lock, once the state is not locked.
unfoldable pub count_failure : AuthLockout → ℕ → AuthState → AuthFailure × AuthState
count_failure l now state =
    let current =
      if leb l.failure_window (now - state.window_started_at) then fresh_state now else state in
    let counted = record current { failures = current.failures + 1; last_seen_at = now } in
    if leb l.max_failures counted.failures
    then (locked, record counted { locked_until = some (now + l.lockout_duration) })
    else (tracked, counted)

-- The `if let Some(until) = state.locked_until`
unfoldable pub fail_state : AuthLockout → ℕ → AuthState → AuthFailure × AuthState
unfolding count_failure
fail_state l now state = elim state.locked_until [
  | none ↦ count_failure l now state
  | some until ↦
      if ltb now until then (already_locked, state) else count_failure l now (fresh_state now)
]

abbrev pub state_or_new : ℕ → Option AuthState → AuthState
state_or_new now none = fresh_state now
state_or_new now (some state) = state

-- `entries.entry(ip).or_insert_with(...)` and what is done with the entry
unfoldable pub record_entry : AuthLockout → IpAddr → ℕ → AuthFailure × AuthLockout
unfolding fail_state
record_entry l ip now =
    let (result, state) = fail_state l now (state_or_new now (get l.entries ip)) in
    (result, record l { entries = put l.entries ip state })

abbrev pub is_full : AuthLockout → Bool
is_full l = leb l.max_entries (length l.entries)

unfoldable pub record_failure_at : AuthLockout → IpAddr → ℕ → AuthFailure × AuthLockout
unfolding cleanup_stale_entries record_entry
record_failure_at l ip now =
    if not (is_enabled l)
    then (disabled, l)
    else if is_full l && not (contains_key l.entries ip)
    then (let cleaned = cleanup_stale_entries now l in
        if is_full cleaned then (entry_limit_reached, cleaned) else record_entry cleaned ip now)
    else record_entry l ip now

unfoldable pub record_success : AuthLockout → IpAddr → AuthLockout
record_success l ip = if not (is_enabled l) then l else record l { entries = delete l.entries ip }

abbrev pub is_locked_state : ℕ → AuthState → Bool
is_locked_state now state = elim state.locked_until [ none ↦ false | some until ↦ ltb now until ]

unfoldable pub count_locked : ℕ → List (IpAddr × AuthState) → ℕ
count_locked now [] = 0
count_locked now ((ip, state) ∷ entries) =
    (if is_locked_state now state then 1 else 0) + count_locked now entries

unfoldable pub snapshot_at : AuthLockout → ℕ → AuthSnapshot × AuthLockout
unfolding cleanup_stale_entries count_locked
snapshot_at l now =
    if not (is_enabled l)
    then (record { tracked_ips = 0; locked_ips = 0 }, l)
    else (let cleaned = cleanup_stale_entries now l in
        (
          record {
            tracked_ips = length cleaned.entries;
            locked_ips = count_locked now cleaned.entries;
          },
          cleaned,
        ))

-- What the handlers do to the lockout, in the order of the mutex.
pub data Event : Type 0 where
  fails : IpAddr → ℕ → Event
  succeeds : IpAddr → Event
  snapshots : ℕ → Event

unfoldable pub step : AuthLockout → Event → AuthLockout
step l (fails ip now) = (record_failure_at l ip now).1
step l (succeeds ip) = record_success l ip
step l (snapshots now) = (snapshot_at l now).1

unfoldable pub run : AuthLockout → List Event → AuthLockout
run l [] = l
run l (e ∷ events) = run (step l e) events
