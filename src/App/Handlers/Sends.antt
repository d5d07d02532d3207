-- ===== src/App/Handlers/Sends.antt =====
-- What the handlers of src/app/handlers.rs send to Redis.
use rubix_redis_bridge.Prelude.{
  ℕ, Bool, ◌≡◌, ◌≤◌, refl, ap, true, List, Option, none, some, Result, ok, err, get, list_eq,
  nat_eq, length, Forall₂, map,
}
use rubix_redis_bridge.Text.{Str, lit}
use rubix_redis_bridge.Metrics.{Metrics}
use rubix_redis_bridge.Config.Token.{TokenCaps, allows_command_route}
use rubix_redis_bridge.Config.Hash.{TokenHash, hash_eq}
use rubix_redis_bridge.Security.Types.{CommandArg, RedisCommand, PolicyError}
use rubix_redis_bridge.Security.Policy.{parse_command, parse_command_list}
use rubix_redis_bridge.Security.Policy.Accepts.{Accepts}
use rubix_redis_bridge.Security.Policy.Parse.{parse_command_iff}
use rubix_redis_bridge.Security.Policy.Batches.{parse_command_list_iff}
use rubix_redis_bridge.Auth.Request.{Auth, Request, command_auth, token_hash}
use rubix_redis_bridge.Auth.Request.Accepts.{HasBearer, bridge_auth_iff, command_realtime_auth_iff}
use rubix_redis_bridge.App.Error.{ApiError}
use rubix_redis_bridge.App.Routes.{AuthRoute}
use rubix_redis_bridge.Redis.Json.{Json, command_response, pipeline_response, transaction_response}
use rubix_redis_bridge.Redis.Wait.{Timer, and_then}
use rubix_redis_bridge.Redis.Execute.{
  Arrival, Client, answered, pipeline_reply, execute_command, execute_pipeline, execute_transaction,
}
use rubix_redis_bridge.Redis.Execute.Agrees.{IsFound, execute_operation-agrees}
use rubix_redis_bridge.App.Handlers.{
  Answer, Settings, State, HttpRequest, answer_reply, run_parsed, check_body, check_auth, handle,
  run_with, command, pipeline, multi_exec,
}

module _ (sha256 : Str → TokenHash) (hmac_sha256 : Str → Str → TokenHash) where
  -- The caller sends a bearer token whose hash has the route, and the token may run commands.
  pub record IsCaller (settings : Settings) (caller : Request) (route : AuthRoute) : Type 0 where
    pub token : Str
    pub bearer : HasBearer caller token
    pub has_route :
        get settings.token_routes (token_hash sha256 hmac_sha256 settings.hash_token token)
        ≡ some route
    pub may_command : allows_command_route route.token_type ≡ true

  pub command_auth-IsCaller :
      (settings : Settings) (s : State) (caller : Request) (route : AuthRoute)
      → (command_auth sha256 hmac_sha256 settings.token_routes settings.hash_token s.auth caller).0
        ≡ ok route
      → IsCaller settings caller route
  command_auth-IsCaller settings s caller route h =
      let (bridge, may) =
        (command_realtime_auth_iff sha256 hmac_sha256 settings.token_routes settings.hash_token
            s.auth caller route).0.0
          h in
      let (token, bearer, found) =
        (bridge_auth_iff sha256 hmac_sha256 settings.token_routes settings.hash_token s.auth caller
            route).0
          bridge in
      record { token = token; bearer = bearer; has_route = found; may_command = may }

  pub IsCaller-command_auth :
      (settings : Settings) (s : State) (caller : Request) (route : AuthRoute)
      → IsCaller settings caller route
      → (command_auth sha256 hmac_sha256 settings.token_routes settings.hash_token s.auth caller).0
        ≡ ok route
  IsCaller-command_auth settings s caller route c =
      let bridge =
        (bridge_auth_iff sha256 hmac_sha256 settings.token_routes settings.hash_token s.auth caller
            route).1
          (c.token, c.bearer, c.has_route) in
      (command_realtime_auth_iff sha256 hmac_sha256 settings.token_routes settings.hash_token s.auth
          caller route).0.1
        (bridge, c.may_command)

  -- The batch that a request may send, and where.
  abbrev pub IsSendable :
      {Number Connection : Type 0}
      → (Number → Str)
      → Settings
      → HttpRequest Connection (List (List (CommandArg Number)))
      → AuthRoute
      → List RedisCommand
      → Connection
      → Type 0
  IsSendable {Number = Number} number_to_string settings request route cmds connection =
      IsCaller settings request.caller route
      × ((batch : List (List (CommandArg Number))) × (request.body ≡ some batch)
          × (length batch ≤ settings.security.max_pipeline_commands)
          × Forall₂
              (λ array cmd. Accepts number_to_string settings.security array route.token_type cmd)
              batch cmds)
      × IsFound (request.arrivals route.target) connection

module _ (sha256 : Str → TokenHash) (hmac_sha256 : Str → Str → TokenHash)
    (write_json : Json → List (List ℕ) × Bool) where
  module _ {Connection Body Parsed Reply : Type 0} (route_name kind : Str)
      (parse : Body → TokenCaps → Result PolicyError Parsed)
      (f g : Str → Arrival Connection → Parsed → Metrics → ℕ × Result ApiError Reply × Metrics)
      (render : Bool → Reply → Json) (settings : Settings) (s : State)
      (request : HttpRequest Connection Body) where
    module _
        (same : (route : AuthRoute) (body : Body) (parsed : Parsed)
          → IsCaller sha256 hmac_sha256 settings request.caller route
          → request.body ≡ some body
          → parse body route.token_type ≡ ok parsed
          → f (settings.target_ids route.target) (request.arrivals route.target) parsed s.metrics
            ≡ g
                (settings.target_ids route.target)
                (request.arrivals route.target)
                parsed
                s.metrics) where
      abbrev Agrees :
          ((Str → Arrival Connection → Parsed → Metrics → ℕ × Result ApiError Reply × Metrics)
            → Answer × State)
          → Type 0
      Agrees run = run f ≡ run g

      run_parsed-Agrees :
          (auth : Auth) (route : AuthRoute) (body : Body) (r : Result PolicyError Parsed)
          → IsCaller sha256 hmac_sha256 settings request.caller route
          → request.body ≡ some body
          → parse body route.token_type ≡ r
          → Agrees (λ run.
            run_parsed write_json route_name kind parse run render settings s request auth route r)
      unfolding run_parsed
      run_parsed-Agrees auth route body (err error) caller b p = refl
      run_parsed-Agrees auth route body (ok parsed) caller b p =
          ap
            (λ (r : ℕ × Result ApiError Reply × Metrics).
              answer_reply write_json route_name render settings request auth r.1 r.2)
            (same route body parsed caller b p)

      check_body-Agrees :
          (auth : Auth) (route : AuthRoute) (o : Option Body)
          → IsCaller sha256 hmac_sha256 settings request.caller route
          → request.body ≡ o
          → Agrees (λ run.
            check_body write_json route_name kind parse run render settings s request auth route o)
      unfolding check_body
      check_body-Agrees auth route none caller b = refl
      check_body-Agrees auth route (some body) caller b =
          run_parsed-Agrees auth route body (parse body route.token_type) caller b refl

      check_auth-Agrees :
          (auth : Auth) (r : Result ApiError AuthRoute)
          → ((route : AuthRoute)
              → r ≡ ok route
              → IsCaller sha256 hmac_sha256 settings request.caller route)
          → Agrees (λ run.
            check_auth write_json route_name kind parse run render settings s request auth r)
      unfolding check_auth
      check_auth-Agrees auth (err error) caller = refl
      check_auth-Agrees auth (ok route) caller =
          check_body-Agrees auth route request.body (caller route refl) refl

      handle-Agrees : Agrees (λ run.
          handle write_json route_name kind parse run render settings s request sha256 hmac_sha256)
      unfolding handle
      handle-Agrees =
          check_auth-Agrees _ _ (command_auth-IsCaller sha256 hmac_sha256 settings s request.caller)

  module _ ⦃timer : Timer⦄ {Number Connection : Type 0} (number_to_string : Number → Str)
      (base64_text : List ℕ → Str) (settings : Settings) (s : State) (c d : Client Connection) where
    -- `command` sends nothing to Redis but what the policy accepts. Take two redis clients that answer
    -- alike to a command whenever the request carries a bearer token with a route, the token may run
    -- commands, the policy accepts the body as that command for that token, and the connection is one
    -- that the wait at the route's own target finds. Then the answer and the state after it are the
    -- same with either client, so nothing else was asked of it.
    pub command_sends_accepted :
        (request : HttpRequest Connection (List (CommandArg Number)))
        → ((route : AuthRoute) (array : List (CommandArg Number)) (cmd : RedisCommand)
              (connection : Connection)
            → IsCaller sha256 hmac_sha256 settings request.caller route
            → request.body ≡ some array
            → Accepts number_to_string settings.security array route.token_type cmd
            → IsFound (request.arrivals route.target) connection
            → c.query connection cmd ≡ d.query connection cmd)
        → command sha256 hmac_sha256 write_json number_to_string base64_text c settings s request
          ≡ command sha256 hmac_sha256 write_json number_to_string base64_text d settings s request
    unfolding command execute_command
    command_sends_accepted request same =
        handle-Agrees (lit "command") (lit "single")
          (parse_command number_to_string settings.security) (run_with settings (execute_command c))
          (run_with settings (execute_command d)) (command_response base64_text) settings s request
          λ route array cmd caller body parsed.
            let accepts =
              (parse_command_iff number_to_string settings.security route.token_type cmd array).0
                parsed in
            execute_operation-agrees (request.arrivals route.target) _ _
              (λ connection found.
                ap (λ w. and_then w (answered (λ value. value)))
                  (same route array cmd connection caller body accepts found))
              (settings.target_ids route.target) (lit "command") (lit "Redis command timed out")
              settings.request_timeout settings.acquire_timeout s.metrics

    -- `pipeline` and `multi_exec` send no other batch than the one whose commands the policy accepts,
    -- one by one and in order, for the token of the caller, and on no other connection than one of the
    -- route's own target; of the redis client each uses its own query alone.
    pub batches_send_accepted :
        (request : HttpRequest Connection (List (List (CommandArg Number))))
        → ((route : AuthRoute) (cmds : List RedisCommand) (connection : Connection)
            → IsSendable sha256 hmac_sha256 number_to_string settings request route cmds connection
            → c.query_pipeline connection cmds ≡ d.query_pipeline connection cmds)
        → ((route : AuthRoute) (cmds : List RedisCommand) (connection : Connection)
            → IsSendable sha256 hmac_sha256 number_to_string settings request route cmds connection
            → c.query_transaction connection cmds ≡ d.query_transaction connection cmds)
        → (pipeline sha256 hmac_sha256 write_json number_to_string base64_text c settings s request
            ≡ pipeline sha256 hmac_sha256 write_json number_to_string base64_text d settings s
                request)
          × (multi_exec sha256 hmac_sha256 write_json number_to_string base64_text c settings s
                request
              ≡ multi_exec sha256 hmac_sha256 write_json number_to_string base64_text d settings s
                  request)
    unfolding pipeline multi_exec execute_pipeline execute_transaction
    batches_send_accepted request same_pipeline same_transaction = (
      handle-Agrees (lit "pipeline") (lit "pipeline")
          (parse_command_list number_to_string settings.security)
          (run_with settings (execute_pipeline c)) (run_with settings (execute_pipeline d))
          (pipeline_response base64_text) settings s request
          λ route batch cmds caller body parsed.
            let accepts =
              (parse_command_list_iff number_to_string settings.security route.token_type batch
                  cmds).0
                parsed in
            execute_operation-agrees (request.arrivals route.target) _ _
              (λ connection found.
                ap (λ w. and_then w (answered (map pipeline_reply)))
                  (same_pipeline route cmds connection
                    (caller, (batch, body, accepts.0, accepts.1), found)))
              (settings.target_ids route.target) (lit "pipeline") (lit "Redis pipeline timed out")
              settings.request_timeout settings.acquire_timeout s.metrics,
      handle-Agrees (lit "multi_exec") (lit "multi_exec")
          (parse_command_list number_to_string settings.security)
          (run_with settings (execute_transaction c)) (run_with settings (execute_transaction d))
          (transaction_response base64_text) settings s request
          λ route batch cmds caller body parsed.
            let accepts =
              (parse_command_list_iff number_to_string settings.security route.token_type batch
                  cmds).0
                parsed in
            execute_operation-agrees (request.arrivals route.target) _ _
              (λ connection found.
                ap (λ w. and_then w (answered (λ values. values)))
                  (same_transaction route cmds connection
                    (caller, (batch, body, accepts.0, accepts.1), found)))
              (settings.target_ids route.target) (lit "multi_exec")
              (lit "Redis transaction timed out") settings.request_timeout settings.acquire_timeout
              s.metrics,
    )
