-- ===== src/Examples/Handlers.antt =====
-- The handlers at concrete requests.
use rubix_redis_bridge.Prelude.{
  ℕ, ◌≡◌, refl, false, true, Bool, List, [], ◌∷◌, none, some, ok, get, list_eq, list_beq, contains,
  collect, ◌==◌, if◌then◌else◌, nat_eq,
}
use rubix_redis_bridge.Text.{
  Str, lit, split_once, is_whitespace, trim, trim_start, trim_end, eq_ignore_ascii_case,
  to_ascii_lowercase, to_lower, to_ascii_uppercase, to_upper, encode, encode_char,
}
use rubix_redis_bridge.Net.{v4}
use rubix_redis_bridge.Metrics.{new_metrics}
use rubix_redis_bridge.Commands.{denied_commands, ratelimit_commands, realtime_commands}
use rubix_redis_bridge.Config.Token.{allows_command_route}
use rubix_redis_bridge.Config.Hash.{TokenHash, hash_eq, hash_same}
use rubix_redis_bridge.Security.Types.{
  CommandArg, string, number, command_word, as_command_name, to_arg_bytes,
}
use rubix_redis_bridge.Security.Deny.{is_denied_command, reject_command}
use rubix_redis_bridge.Security.Policy.{
  saturating_add, screen, is_permitted, parse_command_array, parse_command,
}
use rubix_redis_bridge.Auth.Lockout.{empty}
use rubix_redis_bridge.Auth.Request.{
  bearer_token, refuse, metrics_auth, token_hash, bridge_auth, command_auth,
}
use rubix_redis_bridge.App.Response.{Response, serialized_response, to_writer, write_all, write}
use rubix_redis_bridge.App.Shards.{RedisTarget, try_connection, select_ready_shard, find_ready}
use rubix_redis_bridge.Redis.Value.{int}
use rubix_redis_bridge.Text.Decimal.{pos}
use rubix_redis_bridge.Redis.Json.{Json}
use rubix_redis_bridge.Redis.Wait.{after, never, delay, and_then}
use rubix_redis_bridge.Redis.Execute.{
  Arrival, Client, quiet, wait_connection, execute_operation, attempt, with_permit, run_operation,
  conclude, execute_command, answered,
}
use rubix_redis_bridge.Redis.Execute.Agrees.{IsFound}
use rubix_redis_bridge.Examples.Execution.{stop_at, stopwatch}
use rubix_redis_bridge.App.Handlers.{
  Settings, State, HttpRequest, response_or_denied, answer_reply, run_parsed, check_body,
  check_auth, handle, command, pipeline, multi_exec,
}
use rubix_redis_bridge.App.Handlers.Sends.{command_sends_accepted, batches_send_accepted}
use rubix_redis_bridge.App.Handlers.Answers.{IsAnswered, command_answers_iff}
use rubix_redis_bridge.App.Handlers.Refused.{IsStranger}
use rubix_redis_bridge.App.Realtime.{RealtimeState}
use rubix_redis_bridge.Main.Routes.{
  Endpoint, Method, app, health, api, realtime, Extracted, Served, serve,
}
use rubix_redis_bridge.Main.Routes.Strangers.{IsRefused, IsDenied, serve-IsRefused}

abbrev pub plain : Str → TokenHash
plain token = record { digest = token }

abbrev pub keyed : Str → Str → TokenHash
keyed key token = record { digest = token }

abbrev pub same : Str → Str
same text = text

-- A writer that sends every value as `{}` in two chunks.
abbrev pub braces : Json → List (List ℕ) × Bool
braces value = ((b'{' ∷ []) ∷ (b'}' ∷ []) ∷ [], false)

abbrev up : RedisTarget ℕ
up = record {
  connections = record { generation = 1; connection = some 77 } ∷ [];
  available_shards = 1;
  redis_connected_shards = 1;
  connection_changed = 1;
  next_connection = 0;
}

abbrev arrival : Arrival ℕ
arrival = record { permit = after 2 (ok tt); target = up; changes = quiet }

abbrev settings : Settings
settings = record {
  security = record {
    allowed_commands = lit "GET" ∷ [];
    blocked_commands = [];
    max_pipeline_commands = 2;
    max_command_args = 3;
    max_arg_bytes = 16;
  };
  token_routes =
      (
        record { digest = lit "secret" },
        record {
          target = 0;
          token_type = record { command = true; ratelimit = false; realtime = false };
        },
      )
      ∷ [];
  hash_token = none;
  metrics_token = none;
  request_timeout = 50;
  acquire_timeout = 10;
  max_response_bytes = 2;
  target_ids = λ target. lit "t";
}

abbrev state : State
state = record {
  auth = record {
    auth_lockout = empty 3 60 300 2;
    metrics = record {
      auth_failed_total = 0;
      auth_lockouts_total = 0;
      auth_locked_requests_total = 0;
      auth_lockout_entry_limit_total = 0;
      auth_lockout_tracked_ips = 0;
      auth_lockout_locked_ips = 0;
    };
  };
  metrics = new_metrics;
}

abbrev request : {Body : Type 0} → Body → HttpRequest ℕ Body
request body = record {
  caller = record { authorization = some (lit "Bearer secret"); ip = v4 7; now = 100; later = 101 };
  encoding = none;
  body = some body;
  arrivals = λ target. arrival;
}

abbrev get_key : List (CommandArg Str)
get_key = string (lit "get") ∷ number (lit "7") ∷ []

abbrev pub client : Client ℕ
client = record {
  query = λ connection cmd. after 3 (ok (int (pos 7)));
  query_pipeline = λ connection cmds. after 3 (ok []);
  query_transaction = λ connection cmds. after 3 (ok []);
}

-- It answers on connection 77 only.
abbrev picky : Client ℕ
picky = record {
  query = λ connection cmd. if connection == 77 then after 3 (ok (int (pos 7))) else never;
  query_pipeline = λ connection cmds. if connection == 77 then after 3 (ok []) else never;
  query_transaction = λ connection cmds. if connection == 77 then after 3 (ok []) else never;
}

found_77 : (connection : ℕ) → IsFound arrival connection → connection ≡ 77
unfolding wait_connection try_connection select_ready_shard find_ready
found_77 connection (d, h) = cc

command_sends_accepted_example :
    command plain keyed braces same same client settings state (request get_key)
    ≡ command plain keyed braces same same picky settings state (request get_key)
command_sends_accepted_example =
    command_sends_accepted plain keyed braces same same settings state client picky
      (request get_key)
      (λ route array cmd connection caller body accepted found.
        let only = found_77 connection found in rw only refl)

batches_send_accepted_example :
    (pipeline plain keyed braces same same client settings state (request (get_key ∷ []))
      ≡ pipeline plain keyed braces same same picky settings state (request (get_key ∷ [])))
    × (multi_exec plain keyed braces same same client settings state (request (get_key ∷ []))
        ≡ multi_exec plain keyed braces same same picky settings state (request (get_key ∷ [])))
batches_send_accepted_example =
    batches_send_accepted plain keyed braces same same settings state client picky
      (request (get_key ∷ []))
      (λ route cmds connection sendable. let only = found_77 connection sendable.2 in rw only refl)
      (λ route cmds connection sendable. let only = found_77 connection sendable.2 in rw only refl)

abbrev reply : Response
reply = record { status = 200; content_type = lit "application/json"; body = b'{' ∷ b'}' ∷ [] }

command_answers_iff_example :
    IsAnswered plain keyed braces same same client settings (request get_key) reply
unfolding command handle check_auth check_body run_parsed answer_reply response_or_denied
    command_auth bridge_auth bearer_token split_once is_whitespace trim trim_start trim_end
    eq_ignore_ascii_case to_ascii_lowercase to_lower lit list_eq list_beq hash_eq hash_same get
    token_hash allows_command_route parse_command parse_command_array as_command_name command_word
    to_ascii_uppercase to_upper screen reject_command is_denied_command is_permitted contains
    ratelimit_commands realtime_commands denied_commands saturating_add collect to_arg_bytes encode
    encode_char execute_command execute_operation attempt with_permit run_operation conclude stop_at
    delay and_then answered wait_connection try_connection select_ready_shard find_ready
    serialized_response to_writer write_all write
command_answers_iff_example =
    (command_answers_iff plain keyed braces same same client settings (request get_key) state
        reply).0
      refl

abbrev serving : RealtimeState
serving = record { auth = state.auth; metrics = state.metrics; permits = 1 }

-- A list of commands from a client that sends no authorization header.
abbrev pub unknown : Extracted ℕ ℕ Str
unknown = record {
  caller = record { authorization = none; ip = v4 7; now = 100; later = 101 };
  encoding = none;
  single_body = none;
  list_body = some (get_key ∷ []);
  arrivals = λ target. arrival;
  targets = up ∷ [];
  render = none;
  channel = [];
  setup = λ target channel. never;
}

unknown-IsStranger : IsStranger plain keyed settings serving.auth unknown.caller
unfolding bridge_auth bearer_token refuse metrics_auth
unknown-IsStranger = record { no_route = λ route h. cc; no_metrics = λ h. cc }

abbrev served : Served ℕ × RealtimeState
served = serve plain keyed braces same same client settings serving unknown Endpoint.pipeline

serve-IsRefused_example : IsRefused served.0 × IsDenied serving served.1
unfolding app health api realtime lit list_eq list_beq contains
serve-IsRefused_example =
    serve-IsRefused plain keyed braces same same client settings serving unknown 4096 16 5
      (record { method = Method.post; path = lit "/pipeline"; endpoint = Endpoint.pipeline }) refl
      refl unknown-IsStranger
