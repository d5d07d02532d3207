-- ===== src/App/Handlers/Answers.antt =====
-- When `command` of src/app/handlers.rs answers with a reply of Redis.
use rubix_redis_bridge.Prelude.{ℕ, ◌≡◌, ◌≤◌, ◌↔◌, refl, Bool, List, some, list_eq, nat_eq}
use rubix_redis_bridge.Text.{Str, lit}
use rubix_redis_bridge.Config.Hash.{TokenHash, hash_eq}
use rubix_redis_bridge.Security.Types.{CommandArg, RedisCommand}
use rubix_redis_bridge.Security.Policy.{parse_command}
use rubix_redis_bridge.Security.Policy.Accepts.{Accepts}
use rubix_redis_bridge.Security.Policy.Parse.{parse_command_iff}
use rubix_redis_bridge.App.Response.{Response}
use rubix_redis_bridge.App.Routes.{AuthRoute}
use rubix_redis_bridge.Redis.Value.{Value}
use rubix_redis_bridge.Redis.Json.{Json, command_response}
use rubix_redis_bridge.Redis.Wait.{Timer, and_then}
use rubix_redis_bridge.Redis.Execute.{Client, answered, execute_command}
use rubix_redis_bridge.Redis.Execute.Served.{Served, Served-answered, execute_operation-ok_iff}
use rubix_redis_bridge.App.Handlers.{
  encoded, Settings, State, HttpRequest, base64, handle, run_with, command,
}
use rubix_redis_bridge.App.Handlers.Sends.{IsCaller, command_auth-IsCaller, IsCaller-command_auth}
use rubix_redis_bridge.App.Handlers.Stages.{IsWritten, check_auth_sound, check_auth_complete}

module _ (sha256 : Str → TokenHash) (hmac_sha256 : Str → Str → TokenHash)
    (write_json : Json → List (List ℕ) × Bool) where
  module _ ⦃timer : Timer⦄ {Number Connection : Type 0} (number_to_string : Number → Str)
      (base64_text : List ℕ → Str) (client : Client Connection) (settings : Settings)
      (request : HttpRequest Connection (List (CommandArg Number))) where
    -- The whole way of a command, from the token to the bytes of the response.
    pub record IsAnswered (response : Response) : Type 0 where
      pub route : AuthRoute
      pub array : List (CommandArg Number)
      pub cmd : RedisCommand
      pub value : Value
      pub elapsed : ℕ
      pub caller : IsCaller sha256 hmac_sha256 settings request.caller route
      pub body_is : request.body ≡ some array
      pub accepted : Accepts number_to_string settings.security array route.token_type cmd
      pub served :
          Served
            (request.arrivals route.target)
            settings.acquire_timeout
            (λ connection. client.query connection cmd)
            elapsed
            value
      pub in_time : elapsed ≤ settings.request_timeout
      pub is_written :
          IsWritten
            (write_json (command_response base64_text (base64 request.encoding) value))
            settings.max_response_bytes
            response

    -- `command` answers with a reply of Redis exactly in this case: the request carries a bearer token
    -- that has a route and may run commands; the policy accepts the body as a command for that token;
    -- the permit comes within the limit for it, a connection of the route's own target and the reply to
    -- that very command follow, and all three waits together end within the request's timeout, which
    -- runs from before the wait for the permit; and the JSON of the reply, in the encoding that the request asks for, is
    -- encoded within the limit of bytes. The response is then 200 with those bytes.
    pub command_answers_iff :
        (s : State) (response : Response)
        → ((command sha256 hmac_sha256 write_json number_to_string base64_text client settings s
              request).0
            ≡ encoded response)
          ↔ IsAnswered response
    unfolding command handle execute_command
    command_answers_iff s response = (answered_sound, answered_complete)
      where
        answered_sound :
            (command sha256 hmac_sha256 write_json number_to_string base64_text client settings s
                request).0
              ≡ encoded response
            → IsAnswered response
        answered_sound h =
            let (route, allowed, run) =
              check_auth_sound write_json (lit "command") (lit "single")
                (parse_command number_to_string settings.security)
                (run_with settings (execute_command client)) (command_response base64_text) settings
                s request response _ _ h in
            let (served, in_time) =
              (execute_operation-ok_iff (settings.target_ids route.target)
                  (request.arrivals route.target) (lit "command") (lit "Redis command timed out")
                  settings.request_timeout settings.acquire_timeout s.metrics
                  (λ connection.
                    and_then (client.query connection run.parsed) (answered (λ value. value)))
                  _ run.reply).0
                (refl, run.reply_is) in
            record {
              route = route;
              array = run.body;
              cmd = run.parsed;
              value = run.reply;
              elapsed = _;
              caller =
                  command_auth-IsCaller sha256 hmac_sha256 settings s request.caller route allowed;
              body_is = run.body_is;
              accepted =
                  (parse_command_iff number_to_string settings.security route.token_type run.parsed
                      run.body).0
                    run.parsed_is;
              served = (Served-answered _ _ _ _ _).0 served;
              in_time = in_time;
              is_written = run.is_written;
            }

        answered_complete :
            IsAnswered response
            → (command sha256 hmac_sha256 write_json number_to_string base64_text client settings s
                request).0
              ≡ encoded response
        answered_complete a =
            let parsed_is =
              (parse_command_iff number_to_string settings.security a.route.token_type a.cmd
                  a.array).1
                a.accepted in
            let (time, reply_is) =
              (execute_operation-ok_iff (settings.target_ids a.route.target)
                  (request.arrivals a.route.target) (lit "command") (lit "Redis command timed out")
                  settings.request_timeout settings.acquire_timeout s.metrics
                  (λ connection.
                    and_then (client.query connection a.cmd) (answered (λ value. value)))
                  a.elapsed a.value).1
                ((Served-answered _ _ _ _ _).1 a.served, a.in_time) in
            check_auth_complete write_json (lit "command") (lit "single")
              (parse_command number_to_string settings.security)
              (run_with settings (execute_command client)) (command_response base64_text) settings s
              request response _ _ a.route
              (IsCaller-command_auth sha256 hmac_sha256 settings s request.caller a.route a.caller)
              (record {
                body = a.array;
                parsed = a.cmd;
                reply = a.value;
                body_is = a.body_is;
                parsed_is = parsed_is;
                reply_is = reply_is;
                is_written = a.is_written;
              })
