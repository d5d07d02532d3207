-- ===== src/Examples/Running.antt =====
-- A program that has started, and two requests to it.
use rubix_redis_bridge.Prelude.{ℕ, ◌≤◌, List, [], ◌∷◌, length, HasDistinctKeys}
use rubix_redis_bridge.Net.{ip_eq}
use rubix_redis_bridge.App.Realtime.{RealtimeState}
use rubix_redis_bridge.Text.{Str}
use rubix_redis_bridge.Auth.Lockout.Invariant.{IsValid}
use rubix_redis_bridge.Main.{settings_of, first_state}
use rubix_redis_bridge.Main.Routes.{Endpoint, Extracted}
use rubix_redis_bridge.Main.Routes.Runs.{serve_all, serve_all-IsValid}
use rubix_redis_bridge.Examples.Environment.{
  bridge_var, plain_hash, no_file, no_config, no_hex, crates, parse_address, binds, loaded_bridge,
  bridge_loaded, served,
}
use rubix_redis_bridge.Examples.Execution.{stopwatch}
use rubix_redis_bridge.Examples.Handlers.{keyed, same, braces, client, unknown}

-- The second one fails to authenticate.
abbrev requests : List (Endpoint × Extracted ℕ ℕ Str)
requests = (Endpoint.healthz, unknown) ∷ (Endpoint.pipeline, unknown) ∷ []

abbrev end_state : RealtimeState
end_state =
    serve_all plain_hash keyed braces same same client (settings_of served.0.app) requests
      (first_state served.0.app)

serve_all-IsValid_example :
    IsValid end_state.auth.auth_lockout
    × (length end_state.auth.auth_lockout.entries ≤ loaded_bridge.auth_lockout_max_entries)
    × HasDistinctKeys end_state.auth.auth_lockout.entries
serve_all-IsValid_example =
    serve_all-IsValid plain_hash keyed braces same same client bridge_var no_file no_config no_hex
      crates parse_address binds loaded_bridge served.0 requests bridge_loaded served.1
