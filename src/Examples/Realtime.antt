-- ===== src/Examples/Realtime.antt =====
-- A subscription of a client.
use rubix_redis_bridge.Prelude.{
  ℕ, ◌≡◌, refl, true, false, [], ◌∷◌, ◌++◌, none, some, ok, get, list_eq, list_beq,
}
use rubix_redis_bridge.Text.{
  Str, lit, split_once, is_whitespace, trim, trim_start, trim_end, eq_ignore_ascii_case,
  to_ascii_lowercase, to_lower, encode, encode_char, utf8_len,
}
use rubix_redis_bridge.Net.{v4}
use rubix_redis_bridge.Metrics.{new_metrics, realtime_connection}
use rubix_redis_bridge.Config.Hash.{TokenHash, hash_eq, hash_same}
use rubix_redis_bridge.Auth.Lockout.{empty}
use rubix_redis_bridge.Auth.Request.{bearer_token, token_hash, bridge_auth, realtime_auth}
use rubix_redis_bridge.Auth.Request.Accepts.{HasBearer}
use rubix_redis_bridge.App.Routes.{AuthRoute}
use rubix_redis_bridge.App.Handlers.{Settings}
use rubix_redis_bridge.Redis.Wait.{after}
use rubix_redis_bridge.App.Realtime.{
  is_unsupported, validate_channel, RealtimeState, Subscribing, open_stream, take_permit,
  check_channel, check_subscription, check_route, subscribe,
}
use rubix_redis_bridge.App.Realtime.Opens.{IsOpened, subscribe_opens_iff}
use rubix_redis_bridge.App.Realtime.Stream.{Messages, RealtimeClient, new_messages}
use rubix_redis_bridge.App.Realtime.Release.{Realtime, next}
use rubix_redis_bridge.Examples.Execution.{stop_at, stopwatch}

abbrev plain : Str → TokenHash
plain token = record { digest = token }

abbrev keyed : Str → Str → TokenHash
keyed key token = record { digest = token }

abbrev settings : Settings
settings = record {
  security = record {
    allowed_commands = lit "GET" ∷ [];
    blocked_commands = [];
    max_pipeline_commands = 2;
    max_command_args = 3;
    max_arg_bytes = 16;
  };
  token_routes =
      (
        record { digest = lit "secret" },
        record {
          target = 0;
          token_type = record { command = false; ratelimit = false; realtime = true };
        },
      )
      ∷ [];
  hash_token = none;
  metrics_token = none;
  request_timeout = 50;
  acquire_timeout = 10;
  max_response_bytes = 2;
  target_ids = λ target. lit "t";
}

abbrev state : RealtimeState
state = record {
  auth = record {
    auth_lockout = empty 3 60 300 2;
    metrics = record {
      auth_failed_total = 0;
      auth_lockouts_total = 0;
      auth_locked_requests_total = 0;
      auth_lockout_entry_limit_total = 0;
      auth_lockout_tracked_ips = 0;
      auth_lockout_locked_ips = 0;
    };
  };
  metrics = new_metrics;
  permits = 1;
}

-- The subscription is the number 5, after 20 milliseconds.
abbrev request : Subscribing ℕ Str
request = record {
  caller = record { authorization = some (lit "Bearer secret"); ip = v4 7; now = 100; later = 101 };
  channel = lit "news";
  body = some [];
  setup = λ target channel. after 20 (ok 5);
}

subscribe_opens_iff_example :
    (route : AuthRoute) × (token : Str) × HasBearer request.caller token
    × (get settings.token_routes (token_hash plain keyed settings.hash_token token) ≡ some route)
    × (route.token_type.realtime ≡ true)
    × IsOpened settings request route state 5
        (record { target = lit "t" })
        (lit "subscribe," ++ (lit "news" ++ lit ",1"))
unfolding subscribe check_route check_subscription check_channel take_permit open_stream
    validate_channel is_unsupported realtime_connection realtime_auth bridge_auth bearer_token
    split_once is_whitespace trim trim_start trim_end eq_ignore_ascii_case to_ascii_lowercase
    to_lower lit list_eq list_beq hash_eq hash_same get token_hash stop_at encode encode_char
    utf8_len
subscribe_opens_iff_example =
    (subscribe_opens_iff settings request plain keyed state 5 (record { target = lit "t" })
        (lit "subscribe," ++ (lit "news" ++ lit ",1"))).0
      refl

-- The subscription 5 gives nothing.
abbrev silent : RealtimeClient ℕ
silent = record { next = λ pubsub. after 3 none; request_timeout = 50 }

abbrev idle : Realtime ℕ
idle = record { state = state; streams = [] }

abbrev subscribed : RealtimeState
subscribed = (subscribe settings request plain keyed state).1

abbrev messages : Messages ℕ
messages = new_messages 5 (record { target = lit "t" })
