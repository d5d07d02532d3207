-- ===== src/Main/Routes/Strangers.antt =====
-- What the routes of src/main.rs answer to a client without a token.
use rubix_redis_bridge.Prelude.{
  ℕ, ◌≡◌, ◌⊎◌, inl, inr, refl, arith, ap, Bool, true, false, List, [], ◌∷◌, ◌++◌, Option, some, not,
  ◌&&◌, get_elem?, All, All-get_elem?, contains, list_eq, list_beq, nat_eq,
}
use rubix_redis_bridge.Text.{Str, lit}
use rubix_redis_bridge.Metrics.{request_denied}
use rubix_redis_bridge.Config.Hash.{TokenHash, hash_eq}
use rubix_redis_bridge.Auth.Request.{bridge_auth, realtime_auth}
use rubix_redis_bridge.App.Error.{ApiError}
use rubix_redis_bridge.App.Handlers.{Answer, failure, Settings, State, HttpRequest}
use rubix_redis_bridge.App.Realtime.{
  RealtimeState, refused, deny, check_route, subscribe as open_subscription,
}
use rubix_redis_bridge.Redis.Json.{Json}
use rubix_redis_bridge.Redis.Wait.{Timer}
use rubix_redis_bridge.Redis.Execute.{Client}
use rubix_redis_bridge.Main.Routes.{
  Endpoint, root, healthz, readyz, metrics, command, pipeline, multi_exec, subscribe, Method, get,
  post, Route, Router, health, api, realtime, app, Extracted, Served, answered, subscribed,
  with_permits, serve,
}
use rubix_redis_bridge.Auth.Request.Refuses.{IsRefusal}
use rubix_redis_bridge.App.Handlers.Refused.{
  IsStranger, Denies, RefusedBy, stranger-RefusedBy, metrics_refused_by, metrics-Denies,
  command-Denies, pipeline-Denies, multi_exec-Denies,
}

abbrev is_get : Method → Bool
is_get get = true
is_get post = false

-- The three routes that answer everyone.
abbrev pub is_public : Route → Bool
is_public r = contains (lit "/" ∷ lit "/healthz" ∷ lit "/readyz" ∷ []) r.path && is_get r.method

abbrev pub needs_token : Endpoint → Bool
needs_token root = false
needs_token healthz = false
needs_token readyz = false
needs_token metrics = true
needs_token command = true
needs_token pipeline = true
needs_token multi_exec = true
needs_token subscribe = true

-- An error, in place of an answer or of a stream.
pub record IsRefused {PubSub : Type 0} (served : Served PubSub) : Type 0 where
  pub error : ApiError
  pub is_error : (served ≡ answered (failure error)) ⊎ (served ≡ subscribed (refused error))
  pub status : IsRefusal error

-- The routes of all routers.
abbrev pub routes_of : List Router → List Route
routes_of [] = []
routes_of (router ∷ routers) = router.routes ++ routes_of routers

-- The table gives away no handler that needs a token.
Guarded : Route → Type 0
Guarded r = is_public r ≡ not (needs_token r.endpoint)

app-Guarded :
    (body_limit max_concurrency : ℕ) → All Guarded (routes_of (app body_limit max_concurrency))
unfolding app health api realtime Guarded contains list_eq list_beq lit
app-Guarded body_limit max_concurrency =
    (refl, (refl, (refl, (refl, (refl, (refl, (refl, (refl, tt))))))))

-- What a refusal leaves behind: one more refused request of this route, and the permits.
pub record IsDenied (s s' : RealtimeState) : Type 0 where
  pub route_name : Str
  pub metrics : s'.metrics ≡ request_denied route_name (lit "auth") s.metrics
  pub permits : s'.permits ≡ s.permits

Denies-IsDenied :
    {PubSub : Type 0} (name : Str) (s : RealtimeState) (error : ApiError) (result : Answer × State)
    → IsRefusal error
    → Denies name s.metrics error result
    → IsRefused {PubSub = PubSub} (with_permits s.permits result).0
      × IsDenied s (with_permits {PubSub = PubSub} s.permits result).1
unfolding Denies
Denies-IsDenied name s error result refusal (answer_is, metrics_are) = (
  record { error = error; is_error = inl (ap answered answer_is); status = refusal },
  record { route_name = name; metrics = metrics_are; permits = refl },
)

module _ ⦃timer : Timer⦄ {Connection PubSub Number : Type 0} (sha256 : Str → TokenHash)
    (hmac_sha256 : Str → Str → TokenHash) (write_json : Json → List (List ℕ) × Bool)
    (number_to_string : Number → Str) (base64_text : List ℕ → Str) (client : Client Connection)
    (settings : Settings) (s : RealtimeState) (request : Extracted Connection PubSub Number) where
  abbrev of_body : {Body : Type 0} → Option Body → HttpRequest Connection Body
  of_body body = record {
    caller = request.caller;
    encoding = request.encoding;
    body = body;
    arrivals = request.arrivals;
  }

  serve_here : Endpoint → Served PubSub × RealtimeState
  serve_here endpoint =
      serve sha256 hmac_sha256 write_json number_to_string base64_text client settings s request
        endpoint

  refused_by :
      IsStranger sha256 hmac_sha256 settings s.auth request.caller
      → RefusedBy sha256 hmac_sha256 settings
          (bridge_auth sha256 hmac_sha256 settings.token_routes settings.hash_token s.auth
            request.caller).0
  refused_by = stranger-RefusedBy sha256 hmac_sha256 settings s.auth request.caller

  serve_here-IsRefused :
      (endpoint : Endpoint)
      → needs_token endpoint ≡ true
      → IsStranger sha256 hmac_sha256 settings s.auth request.caller
      → IsRefused (serve_here endpoint).0 × IsDenied s (serve_here endpoint).1
  unfolding serve_here serve RefusedBy open_subscription realtime_auth check_route deny
  serve_here-IsRefused root h stranger = cc
  serve_here-IsRefused healthz h stranger = cc
  serve_here-IsRefused readyz h stranger = cc
  serve_here-IsRefused metrics h stranger =
      let (error, e, refusal) =
        metrics_refused_by sha256 hmac_sha256 settings s.auth request.caller stranger in
      Denies-IsDenied (lit "metrics") s error _ refusal (
        metrics-Denies sha256 hmac_sha256 settings (record { auth = s.auth; metrics = s.metrics })
          request.caller request.render error e)
  serve_here-IsRefused command h stranger =
      let (error, e, refusal) = refused_by stranger in
      Denies-IsDenied (lit "command") s error _ refusal (
        command-Denies sha256 hmac_sha256 write_json number_to_string base64_text client settings
          (record { auth = s.auth; metrics = s.metrics }) (of_body request.single_body) error e)
  serve_here-IsRefused pipeline h stranger =
      let (error, e, refusal) = refused_by stranger in
      Denies-IsDenied (lit "pipeline") s error _ refusal (
        pipeline-Denies sha256 hmac_sha256 write_json number_to_string base64_text client settings
          (record { auth = s.auth; metrics = s.metrics }) (of_body request.list_body) error e)
  serve_here-IsRefused multi_exec h stranger =
      let (error, e, refusal) = refused_by stranger in
      Denies-IsDenied (lit "multi_exec") s error _ refusal (
        multi_exec-Denies sha256 hmac_sha256 write_json number_to_string base64_text client settings
          (record { auth = s.auth; metrics = s.metrics }) (of_body request.list_body) error e)
  serve_here-IsRefused subscribe h stranger =
      let (error, e, refusal) = refused_by stranger in
      (
        record {
          error = error;
          is_error = inr (simp (open_subscription, realtime_auth, e) refl);
          status = refusal;
        },
        record {
          route_name = lit "subscribe";
          metrics = simp (open_subscription, realtime_auth, e) refl;
          permits = simp (open_subscription, realtime_auth, e) refl;
        },
      )

  -- Of the routes of the program, only GET of `/`, `/healthz` and `/readyz` answers a client that has
  -- no token. On every other one, a client whose request carries neither the token of a route nor
  -- that of the metrics gets an error, with status 401 or, from the lockout, 429. Then one more
  -- refused request is counted, no other metric changes but those of the authentication, so that
  -- no operation has been started, and no realtime permit is taken.
  pub serve-IsRefused :
      (body_limit max_concurrency n : ℕ) (route : Route)
      → get_elem? (routes_of (app body_limit max_concurrency)) n ≡ some route
      → is_public route ≡ false
      → IsStranger sha256 hmac_sha256 settings s.auth request.caller
      → IsRefused
          (serve sha256 hmac_sha256 write_json number_to_string base64_text client settings s
            request route.endpoint).0
        × IsDenied s
            (serve sha256 hmac_sha256 write_json number_to_string base64_text client settings s
              request route.endpoint).1
  unfolding serve_here Guarded
  serve-IsRefused body_limit max_concurrency n route at private stranger =
      let guarded =
        All-get_elem? Guarded (routes_of (app body_limit max_concurrency)) n route
          (app-Guarded body_limit max_concurrency) at in
      serve_here-IsRefused route.endpoint (ground (arith, guarded, private)) stranger
