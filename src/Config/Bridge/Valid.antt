-- ===== src/Config/Bridge/Valid.antt =====
-- What a configuration that `Bridge::from_env` returns promises to the rest of the program.
use rubix_redis_bridge.Prelude.{
  ℕ, ◌<◌, ◌≡◌, ◌≢◌, refl, subst, Bool, true, false, List, [], ◌∷◌, Option, none, some, Result, ok,
  err, ◌>>◌, bail_if, map_err, >>=-eq-ok, arith, leb, ◌==◌, is_empty, All, Mem, list_eq, nat_eq,
}
use rubix_redis_bridge.Text.{Str, lit}
use rubix_redis_bridge.Commands.{denied_commands}
use rubix_redis_bridge.Client.{TrustedProxy, parse_proxies}
use rubix_redis_bridge.Client.Trust.{IsProxy}
use rubix_redis_bridge.Client.Spoofing.{parse_proxies-IsProxy}
use rubix_redis_bridge.Config.Hash.{TokenHash}
use rubix_redis_bridge.Config.Env.{Variable, parse_bool_env, env_first}
use rubix_redis_bridge.Config.Types.{FileConfig}
use rubix_redis_bridge.Config.Targets.Sound.{IsConfigured}
use rubix_redis_bridge.Config.Mode.{load_targets}
use rubix_redis_bridge.Config.Mode.Loaded.{load_targets-IsConfigured}
use rubix_redis_bridge.Security.Policy.{SecurityPolicy, validate}
use rubix_redis_bridge.Security.Policy.Validate.{validate_iff}
use rubix_redis_bridge.Config.Bridge.{
  Bridge, env, proxy, policy, target, no_trusted_proxies, Numbers, read_numbers, proxies_or_default,
  read_proxies, read_allowed, read_blocked, check_lockout, check_limits, no_targets_configured,
  assemble, from_env,
}

-- The limits leave room for a request, and the lockout has a window, a duration and a table if it is on.
pub record IsLimited (b : Bridge) : Type 0 where
  pub concurrency : 0 < b.max_concurrency
  pub realtime : 0 < b.max_realtime_concurrency
  pub acquire : 0 < b.acquire_timeout
  pub acquire_lt : b.acquire_timeout < b.request_timeout
  pub response : 0 < b.max_response_bytes
  pub window : 0 < b.auth_lockout_failures → 0 < b.auth_lockout_window
  pub duration : 0 < b.auth_lockout_failures → 0 < b.auth_lockout_duration
  pub entries : 0 < b.auth_lockout_failures → 0 < b.auth_lockout_max_entries

pub record IsSound (b : Bridge) : Type 0 where
  pub limits : IsLimited b
  pub allows : b.security.allowed_commands ≢ []
  pub none_denied : All (λ name. ¬ Mem name denied_commands) b.security.allowed_commands
  pub targets : IsConfigured b.targets
  pub proxies : All IsProxy b.trusted_proxies
  pub some_proxy : b.trust_proxy_headers ≡ true → b.trusted_proxies ≢ []
  pub no_proxy : b.trust_proxy_headers ≡ false → b.trusted_proxies ≡ []

module _ {E : Type 0} where
  pub ok_injective : {A : Type 0} (a b : A) → ◌≡◌ {A = Result E A} (ok a) (ok b) → a ≡ b
  ok_injective a b h = cc

  >>-eq-ok :
      {B : Type 0} (first : Result E (Unit {0})) (next : Result E B) (value : B)
      → (first >> next) ≡ ok value
      → (first ≡ ok tt) × (next ≡ ok value)
  >>-eq-ok (err reason) next value h = cc
  >>-eq-ok (ok done) next value h = (refl, h)

  pub bail_if-ok :
      {B : Type 0} (test : Bool) (reason : E) (next : Result E B) (value : B)
      → (bail_if test reason >> next) ≡ ok value
      → (test ≡ false) × (next ≡ ok value)
  bail_if-ok true reason next value h = cc
  bail_if-ok false reason next value h = (refl, h)

pub map_err-ok {ℓ} :
    {E F : Type 0} {A : Type ℓ} (f : E → F) (r : Result E A) (a : A) → map_err f r ≡ ok a → r ≡ ok a
map_err-ok f (err reason) a h = cc
map_err-ok f (ok value) a h = let same : value ≡ a = cc in rw same refl

check_lockout-ok :
    (n : Numbers)
    → check_lockout n ≡ ok tt
    → 0 < n.auth_lockout_failures
    → (0 < n.auth_lockout_window_seconds)
      × (0 < n.auth_lockout_seconds)
      × (0 < n.auth_lockout_max_entries)
unfolding check_lockout
check_lockout-ok n h on = (ground (arith, h), ground (arith, h), ground (arith, h))

check_limits-ok :
    (n : Numbers)
    → check_limits n ≡ ok tt
    → (0 < n.max_concurrency)
      × (0 < n.max_realtime_concurrency)
      × (0 < n.acquire_timeout_ms)
      × (n.acquire_timeout_ms < n.request_timeout_ms)
      × (0 < n.max_response_bytes)
unfolding check_limits
check_limits-ok n h =
    let (a, h1) = bail_if-ok (n.max_concurrency == 0) _ _ tt h in
    let (b, h2) = bail_if-ok (n.max_realtime_concurrency == 0) _ _ tt h1 in
    let (c, h3) = bail_if-ok (n.request_timeout_ms == 0) _ _ tt h2 in
    let (d, h4) = bail_if-ok (n.acquire_timeout_ms == 0) _ _ tt h3 in
    let (e, h5) = bail_if-ok (leb n.request_timeout_ms n.acquire_timeout_ms) _ _ tt h4 in
    let (f, h6) = bail_if-ok (n.max_response_bytes == 0) _ _ tt h5 in
    (ground (arith, a), ground (arith, b), ground (arith, d), ground (arith, e), ground (arith, f))

-- The proxies that are read for a setting of the headers.
record AreRead (trust_proxy_headers : Bool) (proxies : List TrustedProxy) : Type 0 where
  valid : All IsProxy proxies
  some_proxy : trust_proxy_headers ≡ true → proxies ≢ []
  no_proxy : trust_proxy_headers ≡ false → proxies ≡ []

read_proxies-AreRead :
    (var : Str → Variable) (trust_proxy_headers : Bool) (proxies : List TrustedProxy)
    → read_proxies var trust_proxy_headers ≡ ok proxies
    → AreRead trust_proxy_headers proxies
unfolding read_proxies
read_proxies-AreRead var false proxies h =
    let same : [] ≡ proxies = cc in
    rw (← same) (record { valid = tt; some_proxy = λ e. cc; no_proxy = λ e. refl })
read_proxies-AreRead var true proxies h =
    let given = env_first var (lit "RRB_TRUSTED_PROXIES" ∷ []) in
    let (found, read, h1) = >>=-eq-ok (proxies_or_default given) _ h in
    let (filled, h2) = bail_if-ok (is_empty found) no_trusted_proxies (ok found) proxies h1 in
    let same : found ≡ proxies = cc in
    rw (← same) (record {
      valid = by_given given found read;
      some_proxy = λ e empty. absurd (ground (arith, filled, empty));
      no_proxy = λ e. cc;
    })
  where
    by_given :
        (o : Option Str) (found : List TrustedProxy)
        → proxies_or_default o ≡ ok found
        → All IsProxy found
    by_given none found h = let none_found : [] ≡ found = cc in rw (← none_found) tt
    by_given (some text) found h =
        parse_proxies-IsProxy text found (map_err-ok proxy (parse_proxies text) found h)

-- A configuration that the bridge starts with is sound. Requests may run, and wait for less than their
-- whole timeout; replies may have bytes; the lockout, if it is on, has a window, a duration and entries.
-- The policy allows some command and none that is hard-denied. Every target has its limits, shards and
-- tokens, and no two share an identifier or a hash. Every trusted proxy has an address and a prefix of
-- its family; there is one if the headers of proxies are trusted, and none otherwise.
pub from_env-IsSound :
    (var : Str → Variable) (read_to_string : Str → Option Str) (from_str : Str → Option FileConfig)
    (sha256 : Str → TokenHash) (hex_decode : Str → Option (List ℕ)) (b : Bridge)
    → from_env var read_to_string from_str sha256 hex_decode ≡ ok b
    → IsSound b
unfolding from_env
from_env-IsSound var read_to_string from_str sha256 hex_decode b h =
    let (n, numbers, h1) = >>=-eq-ok (read_numbers var) _ h in
    let (trusts, trust_read, h2) =
      >>=-eq-ok (map_err env (parse_bool_env var (lit "RRB_TRUST_PROXY_HEADERS") false)) _ h1 in
    let (proxies, proxies_read, h3) = >>=-eq-ok (read_proxies var trusts) _ h2 in
    let (allowed, allowed_read, h4) = >>=-eq-ok (read_allowed var) _ h3 in
    let (blocked, blocked_read, h5) = >>=-eq-ok (read_blocked var) _ h4 in
    let (lockout, h6) = >>-eq-ok (check_lockout n) _ b h5 in
    let security : SecurityPolicy = record {
      allowed_commands = allowed;
      blocked_commands = blocked;
      max_pipeline_commands = n.max_pipeline_commands;
      max_command_args = n.max_command_args;
      max_arg_bytes = n.max_arg_bytes;
    } in
    let (valid, h7) = >>-eq-ok (map_err policy (validate security)) _ b h6 in
    let (limits, h8) = >>-eq-ok (check_limits n) _ b h7 in
    let (targets, loaded, h9) =
      >>=-eq-ok (map_err target (load_targets var read_to_string from_str sha256 hex_decode)) _
        h8 in
    let (some_target, h10) = bail_if-ok (is_empty targets) no_targets_configured _ b h9 in
    let read = read_proxies-AreRead var trusts proxies proxies_read in
    let (allows, none_denied) =
      (validate_iff security).0 (map_err-ok policy (validate security) tt valid) in
    let (concurrency, realtime, acquire, acquire_lt, response) = check_limits-ok n limits in
    let on = check_lockout-ok n lockout in
    let configured =
      load_targets-IsConfigured var read_to_string from_str sha256 hex_decode targets
        (map_err-ok target _ targets loaded) in
    let same = ok_injective (assemble var n trusts proxies security targets) b h10 in
    subst IsSound same (record {
      limits = record {
        concurrency = concurrency;
        realtime = realtime;
        acquire = acquire;
        acquire_lt = acquire_lt;
        response = response;
        window = λ some_failures. (on some_failures).0;
        duration = λ some_failures. (on some_failures).1;
        entries = λ some_failures. (on some_failures).2;
      };
      allows = allows;
      none_denied = none_denied;
      targets = configured;
      proxies = read.valid;
      some_proxy = read.some_proxy;
      no_proxy = read.no_proxy;
    })
