-- ===== src/Examples/Environment.antt =====
-- An environment that holds one target.
use rubix_redis_bridge.Prelude.{
  ℕ, ◌≡◌, refl, arith, ap, get_elem?, Bool, true, false, List, [], ◌∷◌, Option, none, some, ok,
  contains, list_eq, list_beq, nat_eq, if◌then◌else◌,
}
use rubix_redis_bridge.Text.{Str, lit, str_eq, split, trim, trim_start, trim_end, is_whitespace}
use rubix_redis_bridge.Config.Hash.{TokenHash}
use rubix_redis_bridge.Config.Env.{
  Variable, value, not_present, parse_usize, parse_digits, parse_value, parse_env_first, parse_csv,
  non_blank, env_first, env_or,
}
use rubix_redis_bridge.Config.Types.{Redis, FileConfig}
use rubix_redis_bridge.Config.Targets.{trimmed}
use rubix_redis_bridge.Config.Targets.Sound.{IsConfigured}
use rubix_redis_bridge.Config.Mode.{load_targets, load_env_target, env_token_type}
use rubix_redis_bridge.Config.Mode.Loaded.{load_targets-IsConfigured}
use rubix_redis_bridge.Security.Types.{command_word}
use rubix_redis_bridge.Prelude.{insert_all, insert, filter, ◌++◌, ◌*◌, ◌-◌, ◌^◌}
use rubix_redis_bridge.Text.{to_ascii_uppercase, to_upper}
use rubix_redis_bridge.Commands.{denied_commands, ratelimit_commands, realtime_commands}
use rubix_redis_bridge.Security.Deny.{is_denied_command}
use rubix_redis_bridge.Security.Policy.{validate}
use rubix_redis_bridge.Config.Env.{
  parse_env_or_default, parse_bool_env, parse_csv_env_first, parse_command_list,
}
use rubix_redis_bridge.Config.Bridge.{
  Bridge, read_numbers, read_proxies, read_allowed, read_blocked, remove_all, check_lockout,
  check_limits, from_env,
}
use rubix_redis_bridge.Text.Decimal.{nat_to_string}
use rubix_redis_bridge.Main.{Started, id_or_empty, settings_of, first_state, main}
use rubix_redis_bridge.Auth.Request.{Request, token_hash, bridge_auth}
use rubix_redis_bridge.Auth.Request.Accepts.{HasBearer}
use rubix_redis_bridge.App.Routes.{AuthRoute, Crates}
use rubix_redis_bridge.Net.{v4}
use rubix_redis_bridge.Text.{eq_ignore_ascii_case, to_ascii_lowercase, to_lower}
use rubix_redis_bridge.Main.Start.{main-IsServing}
use rubix_redis_bridge.Main.Serving.{IsServing}
use rubix_redis_bridge.Main.Authenticates.{started_auth_iff}
use rubix_redis_bridge.Config.Bridge.Valid.{IsSound, from_env-IsSound}

abbrev var : Str → Variable
var key =
    if str_eq key (lit "RRB_MODE")
    then value (lit "env")
    else if str_eq key (lit "RRB_TOKEN")
    then value (lit " secret")
    else if str_eq key (lit "REDIS_URL")
    then value (lit "redis://main")
    else if str_eq key (lit "RRB_OPERATION_LIMIT")
    then value (lit "+12")
    else not_present

abbrev pub plain_hash : Str → TokenHash
plain_hash token = record { digest = token }

abbrev pub no_file : Str → Option Str
no_file path = none

abbrev pub no_config : Str → Option FileConfig
no_config contents = none

abbrev pub no_hex : Str → Option (List ℕ)
no_hex digits = none

abbrev env_target : Redis
env_target = record {
  rrb_id = lit "env";
  connection_string = lit "redis://main";
  operation_limit = 12;
  connection_shards = 4;
  tokens =
      record {
        id = lit "env";
        name = some (lit "Environment token");
        hash = record { digest = lit "secret" };
        enabled = true;
        token_type = record { command = true; ratelimit = false; realtime = false };
      }
      ∷ [];
}

env_loaded : load_targets var no_file no_config plain_hash no_hex ≡ ok (env_target ∷ [])
unfolding load_targets load_env_target env_token_type env_first env_or trimmed trim trim_start
    trim_end is_whitespace lit list_eq list_beq parse_env_first parse_value parse_usize parse_digits
env_loaded = refl

load_targets-IsConfigured_example : IsConfigured (env_target ∷ [])
load_targets-IsConfigured_example =
    load_targets-IsConfigured var no_file no_config plain_hash no_hex (env_target ∷ []) env_loaded

abbrev shard_key : Str
shard_key = lit "RRB_CONNECTION_SHARDS"

shards_not_set : var shard_key ≡ not_present
unfolding lit list_eq list_beq
shards_not_set = refl

-- The same variables with one allowed command.
abbrev pub bridge_var : Str → Variable
bridge_var key = if str_eq key (lit "RRB_ALLOWED_COMMANDS") then value (lit "get") else var key

abbrev pub loaded_bridge : Bridge
loaded_bridge = record {
  host = lit "0.0.0.0";
  port = 8080;
  targets = env_target ∷ [];
  hash_token = none;
  security = record {
    allowed_commands = lit "GET" ∷ [];
    blocked_commands =
        insert_all
          (remove_all (parse_command_list denied_commands)
            (ratelimit_commands ++ realtime_commands))
          [];
    max_pipeline_commands = 1000;
    max_command_args = 256;
    max_arg_bytes = 256 * 1024;
  };
  max_body_bytes = 1024 * 1024;
  max_concurrency = 1024;
  max_realtime_concurrency = 1024;
  request_timeout = 5000;
  acquire_timeout = 100;
  max_response_bytes = 10 * 1024 * 1024;
  metrics_token = none;
  auth_lockout_failures = 10;
  auth_lockout_window = 300;
  auth_lockout_duration = 300;
  auth_lockout_max_entries = 65536;
  trust_proxy_headers = false;
  trusted_proxies = [];
}

pub bridge_loaded : from_env bridge_var no_file no_config plain_hash no_hex ≡ ok loaded_bridge
unfolding from_env read_numbers parse_env_or_default parse_bool_env read_proxies read_allowed
    parse_csv_env_first parse_csv insert_all insert contains filter non_blank command_word
    to_ascii_uppercase to_upper split read_blocked check_lockout check_limits validate
    is_denied_command denied_commands load_targets load_env_target env_token_type env_first env_or
    trimmed trim trim_start trim_end is_whitespace lit list_eq list_beq parse_env_first parse_value
    parse_usize parse_digits
bridge_loaded = refl

from_env-IsSound_example : IsSound loaded_bridge
from_env-IsSound_example =
    from_env-IsSound bridge_var no_file no_config plain_hash no_hex loaded_bridge bridge_loaded

-- The limit of the semaphore of tokio on a machine of 64 bits.
abbrev pub crates : Crates
crates = record { opens = λ url. true; max_permits = 2 ^ 61 - 1 }

abbrev pub binds : Str → Bool
binds address = true

abbrev keyed_hash : Str → Str → TokenHash
keyed_hash key token = record { digest = token }

-- The address is its text.
abbrev pub parse_address : Str → Option Str
parse_address text = some text

pub served :
    (s : Started ℕ Str) × (main bridge_var no_file no_config plain_hash no_hex crates parse_address
        binds
      ≡ ok s)
    × IsServing loaded_bridge s
served =
    main-IsServing bridge_var no_file no_config plain_hash no_hex crates parse_address binds
      loaded_bridge (loaded_bridge.host ++ (lit ":" ++ nat_to_string loaded_bridge.port))
      bridge_loaded ((refl, omega arith), tt) (omega arith) refl refl

abbrev request : Request
request = record { authorization = some (lit "Bearer secret"); ip = v4 7; now = 100; later = 101 }

abbrev env_route : AuthRoute
env_route = record {
  target = 0;
  token_type = record { command = true; ratelimit = false; realtime = false };
}

request_bearer : HasBearer request (lit "secret")
unfolding lit is_whitespace trim trim_start trim_end eq_ignore_ascii_case to_ascii_lowercase
    to_lower list_eq
request_bearer = record {
  header = lit "Bearer secret";
  scheme = lit "Bearer";
  rest = lit "secret";
  is_sent = refl;
  cut = record { separator = b' '; passes = refl; first = ground arith; text_is = refl };
  is_bearer = refl;
  token_is = refl;
  not_blank = refl;
}

started_auth_iff_example :
    (bridge_auth plain_hash keyed_hash
      (settings_of served.0.app).token_routes
      (settings_of served.0.app).hash_token
      (first_state served.0.app).auth
      request).0
    ≡ ok env_route
unfolding settings_of token_hash
started_auth_iff_example =
    (started_auth_iff bridge_var no_file no_config plain_hash keyed_hash no_hex crates parse_address
        binds loaded_bridge served.0 (first_state served.0.app).auth request env_route bridge_loaded
        served.1).1
      (
        lit "secret",
        env_target,
        request_bearer,
        record {
          offset = 0;
          config = env_target;
          target_is = omega arith;
          at_target = refl;
          is_token = record {
            index = 0;
            token = record {
              id = lit "env";
              name = some (lit "Environment token");
              hash = record { digest = lit "secret" };
              enabled = true;
              token_type = record { command = true; ratelimit = false; realtime = false };
            };
            at_index = refl;
            is_enabled = refl;
            hash_is = refl;
            caps_are = refl;
          };
        },
        refl,
        ap id_or_empty (ap (λ ids. get_elem? ids 0) (served.2).target_ids),
      )
