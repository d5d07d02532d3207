-- ===== src/App/Handlers/Keeps.antt =====
-- The handlers of src/app/handlers.rs leave the state of the authentication as the authentication of
-- the request has left it.
use rubix_redis_bridge.Prelude.{
  ℕ, ◌≡◌, refl, subst, sym, inl, inr, Bool, List, Option, none, some, Result, ok, err, Result-cases,
}
use rubix_redis_bridge.Text.{Str}
use rubix_redis_bridge.Metrics.{Metrics}
use rubix_redis_bridge.Config.Token.{TokenCaps}
use rubix_redis_bridge.Config.Hash.{TokenHash}
use rubix_redis_bridge.Security.Types.{PolicyError}
use rubix_redis_bridge.Auth.Request.{Auth, Request, metrics_auth, command_auth}
use rubix_redis_bridge.Auth.Request.Keeps.{
  IsKept, refresh-IsKept, metrics_auth-IsKept, command_auth-IsKept,
}
use rubix_redis_bridge.App.Error.{ApiError}
use rubix_redis_bridge.App.Response.{Response, ResponseError}
use rubix_redis_bridge.App.Routes.{AuthRoute}
use rubix_redis_bridge.Redis.Json.{Json}
use rubix_redis_bridge.Redis.Execute.{Arrival}
use rubix_redis_bridge.App.Handlers.{
  Settings, State, HttpRequest, response_or_denied, answer_reply, run_parsed, check_body,
  check_auth, handle, metrics,
}

pub metrics-IsKept :
    {limit : ℕ} (settings : Settings) (s : State) (caller : Request) (render : Option Str)
    → IsKept limit s.auth
    → IsKept limit (metrics settings s caller render).1.auth
unfolding metrics
metrics-IsKept {limit} settings s caller render v =
    let kept = metrics_auth-IsKept settings.metrics_token s.auth caller v in
    elim (Result-cases (metrics_auth settings.metrics_token s.auth caller).0) [
      | inr (error, e) ↦ simp (metrics, e) kept
      | inl (granted, e) ↦
          let fresh =
            refresh-IsKept caller.later (metrics_auth settings.metrics_token s.auth caller).1
              kept in
          elim render as (λ render. IsKept limit (metrics settings s caller render).1.auth) [
            | none ↦ simp (metrics, e) fresh
            | some body ↦ simp (metrics, e) fresh
          ]
    ]

response_or_denied-auth :
    (route : Str) (r : Result ResponseError Response) (s : State)
    → (response_or_denied route r s).1.auth ≡ s.auth
unfolding response_or_denied
response_or_denied-auth route (ok response) s = refl
response_or_denied-auth route (err error) s = refl

module _ (write_json : Json → List (List ℕ) × Bool) {Connection Body Parsed Reply : Type 0}
    (route_name kind : Str) (parse : Body → TokenCaps → Result PolicyError Parsed)
    (execute : Str → Arrival Connection → Parsed → Metrics → ℕ × Result ApiError Reply × Metrics)
    (render : Bool → Reply → Json) (settings : Settings) (s : State)
    (request : HttpRequest Connection Body) where
  answer_reply-auth :
      (auth : Auth) (outcome : Result ApiError Reply) (m : Metrics)
      → (answer_reply write_json route_name render settings request auth outcome m).1.auth ≡ auth
  unfolding answer_reply
  answer_reply-auth auth (err error) m = refl
  answer_reply-auth auth (ok reply) m =
      response_or_denied-auth route_name _ (record { auth = auth; metrics = m })

  run_parsed-auth :
      (auth : Auth) (route : AuthRoute) (r : Result PolicyError Parsed)
      → (run_parsed write_json route_name kind parse execute render settings s request auth route
          r).1.auth
        ≡ auth
  unfolding run_parsed
  run_parsed-auth auth route (err error) = refl
  run_parsed-auth auth route (ok parsed) =
      let done =
        execute (settings.target_ids route.target) (request.arrivals route.target) parsed
          s.metrics in
      answer_reply-auth auth done.1 done.2

  check_body-auth :
      (auth : Auth) (route : AuthRoute) (body : Option Body)
      → (check_body write_json route_name kind parse execute render settings s request auth route
          body).1.auth
        ≡ auth
  unfolding check_body
  check_body-auth auth route none = refl
  check_body-auth auth route (some body) = run_parsed-auth auth route _

  check_auth-auth :
      (auth : Auth) (allowed : Result ApiError AuthRoute)
      → (check_auth write_json route_name kind parse execute render settings s request auth
          allowed).1.auth
        ≡ auth
  unfolding check_auth
  check_auth-auth auth (err error) = refl
  check_auth-auth auth (ok route) = check_body-auth auth route request.body

  pub handle-IsKept :
      {limit : ℕ} (sha256 : Str → TokenHash) (hmac_sha256 : Str → Str → TokenHash)
      → IsKept limit s.auth
      → IsKept limit
          (handle write_json route_name kind parse execute render settings s request sha256
            hmac_sha256).1.auth
  unfolding handle
  handle-IsKept {limit} sha256 hmac_sha256 v =
      let result =
        command_auth sha256 hmac_sha256 settings.token_routes settings.hash_token s.auth
          request.caller in
      subst (IsKept limit) (sym (check_auth-auth result.1 result.0)) (
        command_auth-IsKept sha256 hmac_sha256 settings.token_routes settings.hash_token s.auth
          request.caller v)
