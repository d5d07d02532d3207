-- ===== src/Examples/Lockout.antt =====
-- The lockout at concrete inputs.
use rubix_redis_bridge.Prelude.{◌≡◌, refl, [], ◌∷◌, ◌++◌, some, replicate, get, arith}
use rubix_redis_bridge.Net.{IpAddr, v4, v6, ip_beq}
use rubix_redis_bridge.Auth.Lockout.{
  AuthLockout, AuthState, tracked, locked, already_locked, empty, fails, succeeds, snapshots, run,
  record_failure_at,
}
use rubix_redis_bridge.Auth.Lockout.Invariant.{IsValid, run-empty-IsValid}
use rubix_redis_bridge.Auth.Lockout.Locked.{IsLockedUntil, run-already_locked}
use rubix_redis_bridge.Auth.Lockout.Threshold.{record_failures, threshold}

-- 3 failures in 60 seconds lock for 300 seconds, at most 2 addresses.
abbrev small : AuthLockout
small = empty 3 60 300 2

abbrev client : IpAddr
client = v4 7

threshold_example :
    ((record_failures small client (10 ∷ 20 ∷ 30 ∷ [])).0 ≡ replicate 2 tracked ++ locked ∷ [])
    × IsLockedUntil (record_failures small client (10 ∷ 20 ∷ 30 ∷ [])).1 client 330
unfolding get
threshold_example =
    threshold small client 10 (20 ∷ 30 ∷ []) refl refl
      (omega arith, (omega arith, (omega arith, tt))) refl

abbrev locked_state : AuthState
locked_state = record {
  failures = 3;
  window_started_at = 10;
  last_seen_at = 30;
  locked_until = some 330;
}

abbrev locked_table : AuthLockout
locked_table = record small { entries = (client, locked_state) ∷ [] }

locked_table-IsValid : IsValid locked_table
locked_table-IsValid = record {
  distinct = (tt, tt);
  bounded = omega arith;
  counted = ((refl, refl), tt);
}

run-already_locked_example :
    ((record_failure_at
        (run locked_table
          (fails (v6 1) 40 ∷ fails client 50 ∷ fails (v4 8) 60 ∷ snapshots 100 ∷ []))
        client
        329).0
      ≡ already_locked)
    × IsLockedUntil
        (record_failure_at
          (run locked_table
            (fails (v6 1) 40 ∷ fails client 50 ∷ fails (v4 8) 60 ∷ snapshots 100 ∷ []))
          client
          329).1
        client
        330
unfolding get ip_beq
run-already_locked_example =
    run-already_locked client 330 329 locked_table
      (fails (v6 1) 40 ∷ fails client 50 ∷ fails (v4 8) 60 ∷ snapshots 100 ∷ [])
      locked_table-IsValid refl (locked_state, refl, refl)
      (omega arith, (omega arith, (omega arith, (omega arith, tt)))) (omega arith)

run-empty-IsValid_example :
    IsValid (run small (fails client 10 ∷ fails (v6 1) 20 ∷ fails (v4 8) 25 ∷ succeeds client ∷ []))
run-empty-IsValid_example =
    run-empty-IsValid 3 60 300 2
      (fails client 10 ∷ fails (v6 1) 20 ∷ fails (v4 8) 25 ∷ succeeds client ∷ [])
