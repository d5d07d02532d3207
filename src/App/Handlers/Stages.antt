-- ===== src/App/Handlers/Stages.antt =====
-- What the stages of a handler of src/app/handlers.rs have found when it answers with a reply.
use rubix_redis_bridge.Prelude.{
  ℕ, ◌≡◌, ◌≤◌, ◌↔◌, refl, Bool, false, List, Option, none, some, Result, ok, err, inl, inr, list_eq,
  nat_eq, length, Bool-cases, arith, ltb, if◌then◌else◌,
}
use rubix_redis_bridge.Text.{Str, lit}
use rubix_redis_bridge.Metrics.{Metrics}
use rubix_redis_bridge.Config.Token.{TokenCaps}
use rubix_redis_bridge.Config.Hash.{hash_eq}
use rubix_redis_bridge.Security.Types.{PolicyError}
use rubix_redis_bridge.Auth.Request.{Auth}
use rubix_redis_bridge.App.Error.{ApiError}
use rubix_redis_bridge.App.Response.{
  Response, ResponseError, serialized_response, too_large, encode,
}
use rubix_redis_bridge.App.Response.Limit.{joined, serialized_response_lem}
use rubix_redis_bridge.App.Routes.{AuthRoute}
use rubix_redis_bridge.Redis.Json.{Json}
use rubix_redis_bridge.Redis.Execute.{Arrival}
use rubix_redis_bridge.App.Handlers.{
  encoded, Settings, State, HttpRequest, base64, response_or_denied, answer_reply, run_parsed,
  check_body, check_auth,
}

-- The bytes fit, and are sent as JSON.
pub record IsWritten (chunks : List (List ℕ) × Bool) (max_response_bytes : ℕ) (response : Response)
    : Type 0 where
  pub whole : chunks.1 ≡ false
  pub fits : length (joined chunks.0) ≤ max_response_bytes
  pub response_is :
      response
      ≡ record { status = 200; content_type = lit "application/json"; body = joined chunks.0 }

response_or_denied-IsWritten :
    (route : Str) (r : Result ResponseError Response) (s : State) (response : Response)
    → (response_or_denied route r s).0 ≡ encoded response
    → r ≡ ok response
unfolding response_or_denied
response_or_denied-IsWritten route (ok written) s response h = cc
response_or_denied-IsWritten route (err error) s response h = cc

serialized-IsWritten :
    (chunks : List (List ℕ)) (fails : Bool) (limit : ℕ) (response : Response)
    → (serialized_response 200 chunks fails limit ≡ ok response)
      ↔ IsWritten (chunks, fails) limit response
serialized-IsWritten chunks fails limit response =
    rw (serialized_response_lem 200 chunks fails limit) (written, writes)
  where
    sent : Response
    sent = record { status = 200; content_type = lit "application/json"; body = joined chunks }

    result : Result ResponseError Response
    result =
        if ltb limit (length (joined chunks))
        then err (too_large limit)
        else if fails
        then err encode
        else ok sent

    written : result ≡ ok response → IsWritten (chunks, fails) limit response
    written h = elim (Bool-cases (ltb limit (length (joined chunks)))) [
      | inl over ↦ absurd (ground (arith, h))
      | inr fits ↦ elim (Bool-cases fails) [
        | inl f ↦ absurd (ground (arith, h))
        | inr whole ↦
            let same : ◌≡◌ {A = Result ResponseError Response} (ok sent) (ok response) =
              ground (arith, h) in
            let is : sent ≡ response = cc in
            record { whole = whole; fits = ground arith; response_is = rw is refl }
      ]
    ]

    writes : IsWritten (chunks, fails) limit response → result ≡ ok response
    writes w = ground (arith, w.whole, w.fits, w.response_is)

module _ (write_json : Json → List (List ℕ) × Bool) {Connection Body Parsed Reply : Type 0}
    (route_name kind : Str) (parse : Body → TokenCaps → Result PolicyError Parsed)
    (execute : Str → Arrival Connection → Parsed → Metrics → ℕ × Result ApiError Reply × Metrics)
    (render : Bool → Reply → Json) (settings : Settings) (s : State)
    (request : HttpRequest Connection Body) (response : Response) where
  -- What the stages of a handler find after the authentication.
  pub record IsRun (route : AuthRoute) : Type 0 where
    pub body : Body
    pub parsed : Parsed
    pub reply : Reply
    pub body_is : request.body ≡ some body
    pub parsed_is : parse body route.token_type ≡ ok parsed
    pub reply_is :
        (execute
          (settings.target_ids route.target)
          (request.arrivals route.target)
          parsed
          s.metrics).1
        ≡ ok reply
    pub is_written :
        IsWritten
          (write_json (render (base64 request.encoding) reply))
          settings.max_response_bytes
          response

  answer_reply_sound :
      (auth : Auth) (r : Result ApiError Reply) (m : Metrics)
      → (answer_reply write_json route_name render settings request auth r m).0 ≡ encoded response
      → (reply : Reply) × (r ≡ ok reply)
        × IsWritten
            (write_json (render (base64 request.encoding) reply))
            settings.max_response_bytes
            response
  unfolding answer_reply
  answer_reply_sound auth (err error) m h = cc
  answer_reply_sound auth (ok reply) m h = (
    reply,
    refl,
    (serialized-IsWritten _ _ _ response).0
        (response_or_denied-IsWritten route_name _ _ response h),
  )

  run_parsed_sound :
      (auth : Auth) (route : AuthRoute) (body : Body) (r : Result PolicyError Parsed)
      → request.body ≡ some body
      → parse body route.token_type ≡ r
      → (run_parsed write_json route_name kind parse execute render settings s request auth route
          r).0
        ≡ encoded response
      → IsRun route
  unfolding run_parsed
  run_parsed_sound auth route body (err error) b p h = cc
  run_parsed_sound auth route body (ok parsed) b p h =
      let (reply, reply_is, written) = answer_reply_sound auth _ _ h in
      record {
        body = body;
        parsed = parsed;
        reply = reply;
        body_is = b;
        parsed_is = p;
        reply_is = reply_is;
        is_written = written;
      }

  check_body_sound :
      (auth : Auth) (route : AuthRoute) (o : Option Body)
      → request.body ≡ o
      → (check_body write_json route_name kind parse execute render settings s request auth route
          o).0
        ≡ encoded response
      → IsRun route
  unfolding check_body
  check_body_sound auth route none b h = cc
  check_body_sound auth route (some body) b h = run_parsed_sound auth route body _ b refl h

  pub check_auth_sound :
      (auth : Auth) (r : Result ApiError AuthRoute)
      → (check_auth write_json route_name kind parse execute render settings s request auth r).0
        ≡ encoded response
      → (route : AuthRoute) × (r ≡ ok route) × IsRun route
  unfolding check_auth
  check_auth_sound auth (err error) h = cc
  check_auth_sound auth (ok route) h =
      (route, refl, check_body_sound auth route request.body refl h)

  pub check_auth_complete :
      (auth : Auth) (r : Result ApiError AuthRoute) (route : AuthRoute)
      → r ≡ ok route
      → IsRun route
      → (check_auth write_json route_name kind parse execute render settings s request auth r).0
        ≡ encoded response
  unfolding check_auth check_body run_parsed answer_reply response_or_denied
  check_auth_complete auth r route e run =
      let written = (serialized-IsWritten _ _ _ response).1 run.is_written in
      rw e (rw run.body_is (rw run.parsed_is (rw run.reply_is (rw written refl))))
