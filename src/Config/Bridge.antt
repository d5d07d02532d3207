-- ===== src/Config/Bridge.antt =====
-- src/config/mod.rs: `Bridge::from_env`. A duration is the number of milliseconds or of seconds that is
-- read for it. `var` is `std::env::var`; the digest, the files and their decoders are those of
-- `load_targets`.
pub mod Valid
use Prim.Native.String.{String}
use rubix_redis_bridge.Prelude.{
  ℕ, zero, suc, ◌+◌, ◌*◌, ◌^◌, Bool, true, false, not, ◌&&◌, List, [], ◌∷◌, ◌++◌, Option, none,
  some, Result, ok, err, ◌>>=◌, ◌>>◌, bail_if, map_err, ltb, leb, ◌==◌, is_empty, insert_all,
  remove_item, list_eq, nat_eq, if◌then◌else◌,
}
use rubix_redis_bridge.Text.{Str, lit, str_eq}
use rubix_redis_bridge.Commands.{
  allowed_commands as allowed_table, denied_commands, ratelimit_commands, realtime_commands,
}
use rubix_redis_bridge.Client.{TrustedProxy, ProxyError, parse_proxies}
use rubix_redis_bridge.Config.Hash.{TokenHash}
use rubix_redis_bridge.Config.Env.{
  Variable, EnvError, parse_usize, parse_env_or_default, parse_command_list, parse_csv_env_first,
  parse_bool_env, env_first, env_or,
}
use rubix_redis_bridge.Config.Types.{Redis, FileConfig, ConfigError}
use rubix_redis_bridge.Config.Targets.{trimmed}
use rubix_redis_bridge.Config.Mode.{load_targets}
use rubix_redis_bridge.Security.Types.{PolicyError}
use rubix_redis_bridge.Security.Policy.{SecurityPolicy, validate}

pub record Bridge : Type 0 where
  pub host : Str
  pub port : ℕ
  pub targets : List Redis
  pub hash_token : Option Str
  pub security : SecurityPolicy
  pub max_body_bytes : ℕ
  pub max_concurrency : ℕ
  pub max_realtime_concurrency : ℕ
  pub request_timeout : ℕ
  pub acquire_timeout : ℕ
  pub max_response_bytes : ℕ
  pub metrics_token : Option Str
  pub auth_lockout_failures : ℕ
  pub auth_lockout_window : ℕ
  pub auth_lockout_duration : ℕ
  pub auth_lockout_max_entries : ℕ
  pub trust_proxy_headers : Bool
  pub trusted_proxies : List TrustedProxy

-- The `bail!`s, and the errors that `?` passes on.
pub data BridgeError : Type 0 where
  env : EnvError → BridgeError
  proxy : ProxyError → BridgeError
  policy : PolicyError → BridgeError
  target : ConfigError → BridgeError
  no_trusted_proxies no_lockout_window no_lockout_seconds no_lockout_entries : BridgeError
  no_concurrency no_realtime_concurrency no_request_timeout no_acquire_timeout : BridgeError
  acquire_timeout_too_long no_response_bytes no_targets_configured : BridgeError

-- The numbers that are read first.
pub record Numbers : Type 0 where
  pub port : ℕ
  pub max_body_bytes : ℕ
  pub max_concurrency : ℕ
  pub max_realtime_concurrency : ℕ
  pub max_pipeline_commands : ℕ
  pub max_command_args : ℕ
  pub max_arg_bytes : ℕ
  pub request_timeout_ms : ℕ
  pub acquire_timeout_ms : ℕ
  pub max_response_bytes : ℕ
  pub auth_lockout_failures : ℕ
  pub auth_lockout_window_seconds : ℕ
  pub auth_lockout_seconds : ℕ
  pub auth_lockout_max_entries : ℕ

-- `str::parse::<u16>`
unfoldable pub parse_u16 : Str → Option ℕ
parse_u16 text = elim (parse_usize text) [
  | none ↦ none
  | some n ↦ if ltb n (2 ^ 16) then some n else none
]

abbrev pub proxies_or_default : Option Str → Result BridgeError (List TrustedProxy)
proxies_or_default none = ok []
proxies_or_default (some text) = map_err proxy (parse_proxies text)

abbrev pub or_list : Option (List Str) → List Str → List Str
or_list none default = default
or_list (some given) default = given

-- The loop that removes the commands of the capabilities
unfoldable pub remove_all : List Str → List Str → List Str
remove_all blocked [] = blocked
remove_all blocked (command ∷ more) = remove_all (remove_item blocked command) more

module _ (var : Str → Variable) where
  abbrev pub number_env : Str → ℕ → Result BridgeError ℕ
  number_env key default = map_err env (parse_env_or_default parse_usize var key default)

  unfoldable pub read_numbers : Result BridgeError Numbers
  unfolding parse_u16
  read_numbers = do
    port ← map_err env (parse_env_or_default parse_u16 var (lit "RRB_PORT") 8080)
    max_body_bytes ← number_env (lit "RRB_MAX_BODY_BYTES") (1024 * 1024)
    max_concurrency ← number_env (lit "RRB_MAX_CONCURRENCY") 1024
    max_realtime_concurrency ← number_env (lit "RRB_REALTIME_MAX_CONCURRENCY") 1024
    max_pipeline_commands ← number_env (lit "RRB_MAX_PIPELINE_COMMANDS") 1000
    max_command_args ← number_env (lit "RRB_MAX_COMMAND_ARGS") 256
    max_arg_bytes ← number_env (lit "RRB_MAX_ARG_BYTES") (256 * 1024)
    request_timeout_ms ← number_env (lit "RRB_REQUEST_TIMEOUT_MS") 5000
    acquire_timeout_ms ← number_env (lit "RRB_ACQUIRE_TIMEOUT_MS") 100
    max_response_bytes ← number_env (lit "RRB_MAX_RESPONSE_BYTES") (10 * 1024 * 1024)
    auth_lockout_failures ← number_env (lit "RRB_AUTH_LOCKOUT_FAILURES") 10
    auth_lockout_window_seconds ← number_env (lit "RRB_AUTH_LOCKOUT_WINDOW_SECONDS") 300
    auth_lockout_seconds ← number_env (lit "RRB_AUTH_LOCKOUT_SECONDS") 300
    auth_lockout_max_entries ← number_env (lit "RRB_AUTH_LOCKOUT_MAX_ENTRIES") 65536
    ok (record {
      port = port;
      max_body_bytes = max_body_bytes;
      max_concurrency = max_concurrency;
      max_realtime_concurrency = max_realtime_concurrency;
      max_pipeline_commands = max_pipeline_commands;
      max_command_args = max_command_args;
      max_arg_bytes = max_arg_bytes;
      request_timeout_ms = request_timeout_ms;
      acquire_timeout_ms = acquire_timeout_ms;
      max_response_bytes = max_response_bytes;
      auth_lockout_failures = auth_lockout_failures;
      auth_lockout_window_seconds = auth_lockout_window_seconds;
      auth_lockout_seconds = auth_lockout_seconds;
      auth_lockout_max_entries = auth_lockout_max_entries;
    })

  unfoldable pub read_proxies : Bool → Result BridgeError (List TrustedProxy)
  read_proxies false = ok []
  read_proxies true = do
    trusted_proxies ← proxies_or_default (env_first var (lit "RRB_TRUSTED_PROXIES" ∷ []))
    bail_if (is_empty trusted_proxies) no_trusted_proxies
    ok trusted_proxies

  unfoldable pub read_allowed : Result BridgeError (List Str)
  read_allowed = do
    given ← map_err env (parse_csv_env_first var (lit "RRB_ALLOWED_COMMANDS" ∷ []))
    ok (or_list given (parse_command_list allowed_table))

  unfoldable pub read_blocked : Result BridgeError (List Str)
  unfolding remove_all
  read_blocked = do
    extra ← map_err env (parse_csv_env_first var (lit "RRB_BLOCKED_COMMANDS" ∷ []))
    ok (
        insert_all
          (remove_all (parse_command_list denied_commands)
            (ratelimit_commands ++ realtime_commands))
          (or_list extra []))

-- The tests of the lockout, and those of the limits.
unfoldable pub check_lockout : Numbers → Result BridgeError (Unit {0})
check_lockout n = do
  bail_if (ltb 0 n.auth_lockout_failures && n.auth_lockout_window_seconds == 0) no_lockout_window
  bail_if (ltb 0 n.auth_lockout_failures && n.auth_lockout_seconds == 0) no_lockout_seconds
  bail_if (ltb 0 n.auth_lockout_failures && n.auth_lockout_max_entries == 0) no_lockout_entries
  ok tt

unfoldable pub check_limits : Numbers → Result BridgeError (Unit {0})
check_limits n = do
  bail_if (n.max_concurrency == 0) no_concurrency
  bail_if (n.max_realtime_concurrency == 0) no_realtime_concurrency
  bail_if (n.request_timeout_ms == 0) no_request_timeout
  bail_if (n.acquire_timeout_ms == 0) no_acquire_timeout
  bail_if (leb n.request_timeout_ms n.acquire_timeout_ms) acquire_timeout_too_long
  bail_if (n.max_response_bytes == 0) no_response_bytes
  ok tt

-- The record at the end of `from_env`
abbrev pub assemble :
    (Str → Variable) → Numbers → Bool → List TrustedProxy → SecurityPolicy → List Redis → Bridge
assemble var n trust_proxy_headers trusted_proxies security targets = record {
  host = env_or var (lit "RRB_HOST") (lit "0.0.0.0");
  port = n.port;
  targets = targets;
  hash_token =
      if str_eq (env_or var (lit "RRB_MODE") (lit "file")) (lit "file")
      then trimmed (env_first var (lit "RRB_HASH_TOKEN" ∷ []))
      else none;
  security = security;
  max_body_bytes = n.max_body_bytes;
  max_concurrency = n.max_concurrency;
  max_realtime_concurrency = n.max_realtime_concurrency;
  request_timeout = n.request_timeout_ms;
  acquire_timeout = n.acquire_timeout_ms;
  max_response_bytes = n.max_response_bytes;
  metrics_token = trimmed (env_first var (lit "RRB_METRICS_TOKEN" ∷ []));
  auth_lockout_failures = n.auth_lockout_failures;
  auth_lockout_window = n.auth_lockout_window_seconds;
  auth_lockout_duration = n.auth_lockout_seconds;
  auth_lockout_max_entries = n.auth_lockout_max_entries;
  trust_proxy_headers = trust_proxy_headers;
  trusted_proxies = trusted_proxies;
}

module _ (var : Str → Variable) (read_to_string : Str → Option Str)
    (from_str : Str → Option FileConfig) (sha256 : Str → TokenHash)
    (hex_decode : Str → Option (List ℕ)) where
  unfoldable pub from_env : Result BridgeError Bridge
  unfolding read_proxies read_allowed read_blocked
  from_env = do
    n ← read_numbers var
    trust_proxy_headers ← map_err env (parse_bool_env var (lit "RRB_TRUST_PROXY_HEADERS") false)
    trusted_proxies ← read_proxies var trust_proxy_headers
    allowed_commands ← read_allowed var
    blocked_commands ← read_blocked var
    check_lockout n
    let security : SecurityPolicy = record {
      allowed_commands = allowed_commands;
      blocked_commands = blocked_commands;
      max_pipeline_commands = n.max_pipeline_commands;
      max_command_args = n.max_command_args;
      max_arg_bytes = n.max_arg_bytes;
    }
    map_err policy (validate security)
    check_limits n
    targets ← map_err target (load_targets var read_to_string from_str sha256 hex_decode)
    bail_if (is_empty targets) no_targets_configured
    ok (assemble var n trust_proxy_headers trusted_proxies security targets)
