-- ===== src/Main/Routes/Runs.antt =====
-- What stays true while the program of src/main.rs serves requests.
use rubix_redis_bridge.Prelude.{
  ℕ, ◌≤◌, ◌≡◌, ap, Bool, List, [], ◌∷◌, Option, ok, length, arith, HasDistinctKeys,
}
use rubix_redis_bridge.Text.{Str, lit}
use rubix_redis_bridge.Config.Hash.{TokenHash}
use rubix_redis_bridge.Config.Env.{Variable}
use rubix_redis_bridge.Config.Types.{FileConfig}
use rubix_redis_bridge.App.Routes.{Crates}
use rubix_redis_bridge.Net.{ip_eq}
use rubix_redis_bridge.Config.Bridge.{Bridge, from_env}
use rubix_redis_bridge.Security.Policy.{parse_command, parse_command_list}
use rubix_redis_bridge.Auth.Lockout.Invariant.{IsValid}
use rubix_redis_bridge.Auth.Request.Keeps.{IsKept}
use rubix_redis_bridge.App.Handlers.{
  Settings, State, HttpRequest, run_with, command as answer_command, pipeline as answer_pipeline,
  multi_exec as answer_multi_exec,
}
use rubix_redis_bridge.App.Handlers.Keeps.{metrics-IsKept, handle-IsKept}
use rubix_redis_bridge.App.Realtime.{RealtimeState}
use rubix_redis_bridge.App.Realtime.Keeps.{subscribe-IsKept}
use rubix_redis_bridge.Redis.Json.{Json, command_response, pipeline_response, transaction_response}
use rubix_redis_bridge.Redis.Wait.{Timer}
use rubix_redis_bridge.Redis.Execute.{
  Client, execute_command, execute_pipeline, execute_transaction,
}
use rubix_redis_bridge.Main.{Started, settings_of, first_state, main}
use rubix_redis_bridge.Main.Start.{started-IsServing}
use rubix_redis_bridge.Main.Routes.{
  Endpoint, root, healthz, readyz, metrics, command, pipeline, multi_exec, subscribe, Extracted,
  serve,
}

module _ ⦃timer : Timer⦄ {Connection PubSub Number : Type 0} (sha256 : Str → TokenHash)
    (hmac_sha256 : Str → Str → TokenHash) (write_json : Json → List (List ℕ) × Bool)
    (number_to_string : Number → Str) (base64_text : List ℕ → Str)
    (client : Client Connection) where
  module _ (settings : Settings) (s : RealtimeState)
      (request : Extracted Connection PubSub Number) where
    abbrev shared : State
    shared = record { auth = s.auth; metrics = s.metrics }

    abbrev of_body : {Body : Type 0} → Option Body → HttpRequest Connection Body
    of_body body = record {
      caller = request.caller;
      encoding = request.encoding;
      body = body;
      arrivals = request.arrivals;
    }

    serve-IsKept :
        {limit : ℕ} (endpoint : Endpoint)
        → IsKept limit s.auth
        → IsKept limit
            (serve sha256 hmac_sha256 write_json number_to_string base64_text client settings s
              request endpoint).1.auth
    unfolding serve answer_command answer_pipeline answer_multi_exec
    serve-IsKept root v = v
    serve-IsKept healthz v = v
    serve-IsKept readyz v = v
    serve-IsKept metrics v = metrics-IsKept settings shared request.caller request.render v
    serve-IsKept command v =
        handle-IsKept write_json (lit "command") (lit "single")
          (parse_command number_to_string settings.security)
          (run_with settings (execute_command client)) (command_response base64_text) settings
          shared (of_body request.single_body) sha256 hmac_sha256 v
    serve-IsKept pipeline v =
        handle-IsKept write_json (lit "pipeline") (lit "pipeline")
          (parse_command_list number_to_string settings.security)
          (run_with settings (execute_pipeline client)) (pipeline_response base64_text) settings
          shared (of_body request.list_body) sha256 hmac_sha256 v
    serve-IsKept multi_exec v =
        handle-IsKept write_json (lit "multi_exec") (lit "multi_exec")
          (parse_command_list number_to_string settings.security)
          (run_with settings (execute_transaction client)) (transaction_response base64_text)
          settings shared (of_body request.list_body) sha256 hmac_sha256 v
    serve-IsKept subscribe v =
        subscribe-IsKept settings
          (record {
            caller = request.caller;
            channel = request.channel;
            body = request.single_body;
            setup = request.setup;
          })
          sha256 hmac_sha256 s v

  -- Requests, one after the other.
  unfoldable pub serve_all :
      Settings
      → List (Endpoint × Extracted Connection PubSub Number)
      → RealtimeState
      → RealtimeState
  serve_all settings [] s = s
  serve_all settings ((endpoint, request) ∷ requests) s =
      serve_all settings requests
        (serve sha256 hmac_sha256 write_json number_to_string base64_text client settings s request
          endpoint).1

  serve_all-IsKept :
      {limit : ℕ} (settings : Settings)
      (requests : List (Endpoint × Extracted Connection PubSub Number)) (s : RealtimeState)
      → IsKept limit s.auth
      → IsKept limit (serve_all settings requests s).auth
  unfolding serve_all
  serve_all-IsKept settings [] s v = v
  serve_all-IsKept settings ((endpoint, request) ∷ requests) s v =
      serve_all-IsKept settings requests _ (serve-IsKept settings s request endpoint v)

  -- When `main` comes to serve the configuration that it has read, then whatever requests it serves,
  -- one after the other, on all routes, from all addresses and at all times, with whatever tokens
  -- and bodies: the table of the lockout stays valid, and it never holds more addresses than
  -- RRB_AUTH_LOCKOUT_MAX_ENTRIES allows, and no address twice.
  pub serve_all-IsValid :
      {Address : Type 0} (var : Str → Variable) (read_to_string : Str → Option Str)
      (from_str : Str → Option FileConfig) (hex_decode : Str → Option (List ℕ)) (crates : Crates)
      (parse_address : Str → Option Address) (binds : Address → Bool) (b : Bridge)
      (started : Started Connection Address)
      (requests : List (Endpoint × Extracted Connection PubSub Number))
      → from_env var read_to_string from_str sha256 hex_decode ≡ ok b
      → main var read_to_string from_str sha256 hex_decode crates parse_address binds ≡ ok started
      → let table =
          (serve_all
            (settings_of started.app)
            requests
            (first_state started.app)).auth.auth_lockout in
        IsValid table
        × (length table.entries ≤ b.auth_lockout_max_entries)
        × HasDistinctKeys table.entries
  serve_all-IsValid var read_to_string from_str hex_decode crates parse_address binds b started
        requests loaded starts =
      let serving =
        started-IsServing var read_to_string from_str sha256 hex_decode crates parse_address binds b
          started loaded starts in
      let (valid, bound) =
        serve_all-IsKept (settings_of started.app) requests (first_state started.app)
          (serving.lockout, ap (λ l. l.max_entries) serving.table) in
      let bounded = valid.bounded in (valid, omega (arith, bounded, bound), valid.distinct)
