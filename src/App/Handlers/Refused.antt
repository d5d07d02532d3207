-- ===== src/App/Handlers/Refused.antt =====
-- What the handlers of src/app/handlers.rs answer to a client without a token.
use rubix_redis_bridge.Prelude.{
  ℕ, ◌≡◌, ◌≢◌, inl, inr, refl, subst, Bool, List, Option, Result, ok, err, Result-cases, list_eq,
  nat_eq,
}
use rubix_redis_bridge.Text.{Str, lit}
use rubix_redis_bridge.Metrics.{Metrics, request_denied}
use rubix_redis_bridge.Config.Hash.{TokenHash, hash_eq}
use rubix_redis_bridge.Config.Token.{TokenCaps}
use rubix_redis_bridge.Security.Types.{CommandArg, PolicyError}
use rubix_redis_bridge.Auth.Request.{Auth, Request, metrics_auth, bridge_auth, command_auth}
use rubix_redis_bridge.App.Error.{ApiError}
use rubix_redis_bridge.App.Routes.{AuthRoute}
use rubix_redis_bridge.App.Handlers.{
  Answer, failure, Settings, State, HttpRequest, run_with, handle, check_auth,
  metrics as answer_metrics, command as answer_command, pipeline as answer_pipeline,
  multi_exec as answer_multi_exec,
}
use rubix_redis_bridge.Security.Policy.{parse_command, parse_command_list}
use rubix_redis_bridge.Redis.Json.{Json, command_response, pipeline_response, transaction_response}
use rubix_redis_bridge.Redis.Wait.{Timer}
use rubix_redis_bridge.Redis.Execute.{
  Arrival, Client, execute_command, execute_pipeline, execute_transaction,
}
use rubix_redis_bridge.Auth.Request.Refuses.{
  IsRefusal, Refuses, metrics_auth-Refuses, bridge_auth-Refuses,
}

-- The caller has neither the token of a route nor that of the metrics.
pub record IsStranger (sha256 : Str → TokenHash) (hmac_sha256 : Str → Str → TokenHash)
    (settings : Settings) (a : Auth) (caller : Request) : Type 0 where
  pub no_route :
      (route : AuthRoute)
      → (bridge_auth sha256 hmac_sha256 settings.token_routes settings.hash_token a caller).0
        ≢ ok route
  pub no_metrics : (metrics_auth settings.metrics_token a caller).0 ≢ ok tt

-- An answer and a state that `fail_with` gives after a failed authentication.
unfoldable pub Denies : Str → Metrics → ApiError → Answer × State → Type 0
Denies name m error result =
    (result.0 ≡ failure error) × (result.1.metrics ≡ request_denied name (lit "auth") m)

module _ (sha256 : Str → TokenHash) (hmac_sha256 : Str → Str → TokenHash)
    (settings : Settings) where
  unfoldable pub RefusedBy : Result ApiError AuthRoute → Type 0
  RefusedBy result = (error : ApiError) × (result ≡ err error) × IsRefusal error

  pub stranger-RefusedBy :
      (a : Auth) (caller : Request)
      → IsStranger sha256 hmac_sha256 settings a caller
      → RefusedBy
          (bridge_auth sha256 hmac_sha256 settings.token_routes settings.hash_token a caller).0
  unfolding Refuses RefusedBy
  stranger-RefusedBy a caller stranger =
      let result =
        (bridge_auth sha256 hmac_sha256 settings.token_routes settings.hash_token a caller).0 in
      elim (Result-cases result) [
        | inl (route, e) ↦ absurd (stranger.no_route route e)
        | inr (error, e) ↦ (
          error,
          e,
          subst Refuses e (
              bridge_auth-Refuses sha256 hmac_sha256 settings.token_routes settings.hash_token a
                caller),
        )
      ]

  pub metrics_refused_by :
      (a : Auth) (caller : Request)
      → IsStranger sha256 hmac_sha256 settings a caller
      → (error : ApiError) × ((metrics_auth settings.metrics_token a caller).0 ≡ err error)
        × IsRefusal error
  unfolding Refuses
  metrics_refused_by a caller stranger =
      elim (Result-cases (metrics_auth settings.metrics_token a caller).0) [
        | inl (granted, e) ↦ absurd (stranger.no_metrics e)
        | inr (error, e) ↦
            (error, e, subst Refuses e (metrics_auth-Refuses settings.metrics_token a caller))
      ]

  pub metrics-Denies :
      (state : State) (caller : Request) (render : Option Str) (error : ApiError)
      → (metrics_auth settings.metrics_token state.auth caller).0 ≡ err error
      → Denies (lit "metrics") state.metrics error (answer_metrics settings state caller render)
  unfolding answer_metrics Denies
  metrics-Denies state caller render error e =
      (simp (answer_metrics, e) refl, simp (answer_metrics, e) refl)

  -- `handle`, under the name of a route, for a caller that is refused.
  handle-refused :
      {Connection Body Parsed Reply : Type 0} (write_json : Json → List (List ℕ) × Bool)
      (name kind : Str) (parse : Body → TokenCaps → Result PolicyError Parsed)
      (execute : Str → Arrival Connection → Parsed → Metrics → ℕ × Result ApiError Reply × Metrics)
      (render : Bool → Reply → Json) (s : State) (request : HttpRequest Connection Body)
      (error : ApiError)
      → (bridge_auth sha256 hmac_sha256 settings.token_routes settings.hash_token s.auth
          request.caller).0
        ≡ err error
      → Denies name s.metrics error
          (handle write_json name kind parse execute render settings s request sha256 hmac_sha256)
  unfolding handle command_auth check_auth Denies
  handle-refused write_json name kind parse execute render s request error e =
      (simp (handle, command_auth, e) refl, simp (handle, command_auth, e) refl)

module _ ⦃timer : Timer⦄ {Connection Number : Type 0} (sha256 : Str → TokenHash)
    (hmac_sha256 : Str → Str → TokenHash) (write_json : Json → List (List ℕ) × Bool)
    (number_to_string : Number → Str) (base64_text : List ℕ → Str) (client : Client Connection)
    (settings : Settings) where
  pub command-Denies :
      (state : State) (http : HttpRequest Connection (List (CommandArg Number))) (error : ApiError)
      → (bridge_auth sha256 hmac_sha256 settings.token_routes settings.hash_token state.auth
          http.caller).0
        ≡ err error
      → Denies (lit "command") state.metrics error (
          answer_command sha256 hmac_sha256 write_json number_to_string base64_text client settings
            state http)
  unfolding answer_command
  command-Denies state http error e =
      handle-refused sha256 hmac_sha256 settings write_json (lit "command") (lit "single")
        (parse_command number_to_string settings.security)
        (run_with settings (execute_command client)) (command_response base64_text) state http error
        e

  pub pipeline-Denies :
      (state : State) (http : HttpRequest Connection (List (List (CommandArg Number))))
      (error : ApiError)
      → (bridge_auth sha256 hmac_sha256 settings.token_routes settings.hash_token state.auth
          http.caller).0
        ≡ err error
      → Denies (lit "pipeline") state.metrics error (
          answer_pipeline sha256 hmac_sha256 write_json number_to_string base64_text client settings
            state http)
  unfolding answer_pipeline
  pipeline-Denies state http error e =
      handle-refused sha256 hmac_sha256 settings write_json (lit "pipeline") (lit "pipeline")
        (parse_command_list number_to_string settings.security)
        (run_with settings (execute_pipeline client)) (pipeline_response base64_text) state http
        error e

  pub multi_exec-Denies :
      (state : State) (http : HttpRequest Connection (List (List (CommandArg Number))))
      (error : ApiError)
      → (bridge_auth sha256 hmac_sha256 settings.token_routes settings.hash_token state.auth
          http.caller).0
        ≡ err error
      → Denies (lit "multi_exec") state.metrics error (
          answer_multi_exec sha256 hmac_sha256 write_json number_to_string base64_text client
            settings state http)
  unfolding answer_multi_exec
  multi_exec-Denies state http error e =
      handle-refused sha256 hmac_sha256 settings write_json (lit "multi_exec") (lit "multi_exec")
        (parse_command_list number_to_string settings.security)
        (run_with settings (execute_transaction client)) (transaction_response base64_text) state
        http error e
