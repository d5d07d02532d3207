-- ===== src/Examples/Configuration.antt =====
-- A target file and the routes of its tokens.
use rubix_redis_bridge.Prelude.{
  ℕ, ◌≡◌, refl, true, false, List, [], ◌∷◌, Option, none, some, ok, contains, insert, list_eq,
  list_beq,
}
use rubix_redis_bridge.Text.{
  Str, lit, trim, trim_start, trim_end, is_whitespace, utf8_len, split, to_ascii_lowercase,
  to_lower,
}
use rubix_redis_bridge.Config.Token.{parse}
use rubix_redis_bridge.Config.Hash.{hash_eq, hash_same, hmac_sha256_parse}
use rubix_redis_bridge.Config.Types.{Redis, FileAuthToken, FileConfig}
use rubix_redis_bridge.Config.Targets.{
  parse_file_targets, parse_targets, parse_target, parse_tokens, parse_token, see_hash, trimmed,
  token_type_of,
}
use rubix_redis_bridge.Config.Targets.Sound.{IsConfigured, parse_file_targets-IsConfigured}
use rubix_redis_bridge.Config.Bridge.{Bridge}

abbrev digits : Str
digits = lit "0123456789abcdef0123456789abcdef0123456789abcdef0123456789abcdef"

abbrev open_token : FileAuthToken
open_token = record {
  id = lit "one";
  name = none;
  hash = digits;
  enabled = true;
  token_type = some (lit "realtime");
}

abbrev old_token : FileAuthToken
old_token = record {
  id = lit "two";
  name = none;
  hash = digits;
  enabled = false;
  token_type = none;
}

abbrev file : FileConfig
file = record {
  version = 1;
  targets =
      record {
        rrb_id = lit " main";
        connection_string = lit "redis://main";
        operation_limit = 8;
        connection_shards = 2;
        tokens = open_token ∷ old_token ∷ [];
      }
      ∷ [];
}

abbrev main_target : Redis
main_target = record {
  rrb_id = lit "main";
  connection_string = lit "redis://main";
  operation_limit = 8;
  connection_shards = 2;
  tokens =
      record {
        id = lit "one";
        name = none;
        hash = record { digest = digits };
        enabled = true;
        token_type = record { command = false; ratelimit = false; realtime = true };
      }
      ∷ record {
        id = lit "two";
        name = none;
        hash = record { digest = digits };
        enabled = false;
        token_type = record { command = true; ratelimit = false; realtime = false };
      }
      ∷ [];
}

abbrev decode : Str → Option (List ℕ)
decode s = some s

abbrev read : Str → Option FileConfig
read contents = some file

file_parsed : parse_file_targets decode read (lit "{}") (some (lit "key")) ≡ ok (main_target ∷ [])
unfolding parse_file_targets parse_targets parse_target parse_tokens parse_token see_hash trimmed
    token_type_of hmac_sha256_parse utf8_len lit trim trim_start trim_end is_whitespace contains
    insert list_eq list_beq hash_eq hash_same parse split to_ascii_lowercase to_lower
file_parsed = refl

parse_file_targets-IsConfigured_example : IsConfigured (main_target ∷ [])
parse_file_targets-IsConfigured_example =
    parse_file_targets-IsConfigured decode read (lit "{}") (some (lit "key")) (main_target ∷ [])
      file_parsed

abbrev bridge : Bridge
bridge = record {
  host = lit "0.0.0.0";
  port = 8080;
  targets = main_target ∷ [];
  hash_token = some (lit "key");
  security = record {
    allowed_commands = lit "GET" ∷ [];
    blocked_commands = [];
    max_pipeline_commands = 2;
    max_command_args = 3;
    max_arg_bytes = 16;
  };
  max_body_bytes = 1024;
  max_concurrency = 8;
  max_realtime_concurrency = 8;
  request_timeout = 5000;
  acquire_timeout = 100;
  max_response_bytes = 1024;
  trust_proxy_headers = false;
  trusted_proxies = [];
  metrics_token = none;
  auth_lockout_failures = 3;
  auth_lockout_window = 60;
  auth_lockout_duration = 300;
  auth_lockout_max_entries = 100;
}

main_target-IsConfigured : IsConfigured (main_target ∷ [])
main_target-IsConfigured =
    parse_file_targets-IsConfigured decode read (lit "{}") (some (lit "key")) (main_target ∷ [])
      file_parsed
