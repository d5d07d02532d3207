-- ===== src/Examples/Requests.antt =====
-- Requests with and without a valid token.
use rubix_redis_bridge.Prelude.{
  ◌≡◌, ◌≢◌, ◌↔◌, refl, true, false, [], ◌∷◌, none, some, ok, err, get, list_eq, list_beq, arith,
}
use rubix_redis_bridge.Text.{
  Str, lit, split_once, is_whitespace, trim, trim_start, trim_end, eq_ignore_ascii_case,
  to_ascii_lowercase, to_lower,
}
use rubix_redis_bridge.Net.{IpAddr, v4, ip_beq}
use rubix_redis_bridge.Config.Token.{allows_command_route}
use rubix_redis_bridge.Config.Hash.{TokenHash, hash_eq, hash_same}
use rubix_redis_bridge.Auth.Lockout.{AuthState, empty}
use rubix_redis_bridge.Auth.Lockout.Invariant.{IsValid}
use rubix_redis_bridge.Auth.Lockout.Locked.{IsLockedUntil}
use rubix_redis_bridge.App.Error.{text, too_many_requests}
use rubix_redis_bridge.App.Routes.{AuthRoute, Routes}
use rubix_redis_bridge.Auth.Request.{
  Auth, Request, bearer_token, refuse, token_hash, bridge_auth, command_auth, realtime_auth,
}
use rubix_redis_bridge.Auth.Request.Accepts.{HasBearer, bridge_auth_iff, command_realtime_auth_iff}
use rubix_redis_bridge.Auth.Request.Locked.{bridge_auth_locked}

abbrev plain : Str → TokenHash
plain token = record { digest = token }

abbrev keyed : Str → Str → TokenHash
keyed key token = record { digest = token }

abbrev realtime_route : AuthRoute
realtime_route = record {
  target = 0;
  token_type = record { command = false; ratelimit = false; realtime = true };
}

abbrev routes : Routes
routes = (record { digest = lit "secret" }, realtime_route) ∷ []

abbrev caller : IpAddr
caller = v4 7

abbrev locked_out : AuthState
locked_out = record {
  failures = 3;
  window_started_at = 10;
  last_seen_at = 30;
  locked_until = some 330;
}

abbrev auth : Auth
auth = record {
  auth_lockout = record (empty 3 60 300 2) { entries = (caller, locked_out) ∷ [] };
  metrics = record {
    auth_failed_total = 3;
    auth_lockouts_total = 1;
    auth_locked_requests_total = 0;
    auth_lockout_entry_limit_total = 0;
    auth_lockout_tracked_ips = 1;
    auth_lockout_locked_ips = 1;
  };
}

abbrev good : Request
good = record { authorization = some (lit "bearer secret "); ip = caller; now = 100; later = 101 }

abbrev bad : Request
bad = record { authorization = some (lit "Basic secret"); ip = caller; now = 100; later = 101 }

good_accepted : (bridge_auth plain keyed routes none auth good).0 ≡ ok realtime_route
unfolding bridge_auth bearer_token split_once is_whitespace trim trim_start trim_end
    eq_ignore_ascii_case to_ascii_lowercase to_lower lit list_eq list_beq hash_eq hash_same get
    token_hash
good_accepted = refl

bad_refused : (route : AuthRoute) → (bridge_auth plain keyed routes none auth bad).0 ≢ ok route
unfolding bridge_auth bearer_token split_once is_whitespace trim trim_start trim_end
    eq_ignore_ascii_case to_ascii_lowercase to_lower lit list_eq list_beq refuse
bad_refused route h = cc

bridge_auth_iff_example :
    (token : Str) × HasBearer good token
    × (get routes (token_hash plain keyed none token) ≡ some realtime_route)
bridge_auth_iff_example =
    (bridge_auth_iff plain keyed routes none auth good realtime_route).0 good_accepted

command_realtime_auth_iff_example :
    (((command_auth plain keyed routes none auth good).0 ≡ ok realtime_route) ↔ (
      ((bridge_auth plain keyed routes none auth good).0 ≡ ok realtime_route)
      × (allows_command_route realtime_route.token_type ≡ true)))
    × (((realtime_auth plain keyed routes none auth good).0 ≡ ok realtime_route) ↔ (
        ((bridge_auth plain keyed routes none auth good).0 ≡ ok realtime_route)
        × (realtime_route.token_type.realtime ≡ true)))
command_realtime_auth_iff_example =
    command_realtime_auth_iff plain keyed routes none auth good realtime_route

auth-IsValid : IsValid auth.auth_lockout
auth-IsValid = record { distinct = (tt, tt); bounded = omega arith; counted = ((refl, refl), tt) }

bridge_auth_locked_example :
    ((bridge_auth plain keyed routes none auth bad).0
      ≡ err (too_many_requests (text (lit "Too many failed authentication attempts"))))
    × IsLockedUntil (bridge_auth plain keyed routes none auth bad).1.auth_lockout caller 330
unfolding get ip_beq
bridge_auth_locked_example =
    bridge_auth_locked plain keyed routes none auth bad 330 auth-IsValid refl
      (locked_out, refl, refl) (omega arith) (omega arith) bad_refused
