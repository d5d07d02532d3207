-- ===== src/Main/Serving.antt =====
-- What `AppState::new` (src/app/state.rs) and `main` (src/main.rs) make of a sound configuration.
use rubix_redis_bridge.Prelude.{
  ℕ, suc, sym, not, ltb, ◌==◌, ◌≡◌, ◌<◌, ◌≤◌, ◌↔◌, refl, ap, ap₂, ◌∙◌, subst, true, List, [], ◌∷◌,
  map, some, ok, >>=-eq-ok, get, get_elem?, length-replicate, All, Mem, arith, list_eq, nat_eq,
}
use rubix_redis_bridge.Commands.{denied_commands}
use rubix_redis_bridge.Metrics.Ledger.{count}
use rubix_redis_bridge.Config.Hash.{TokenHash, hash_eq}
use rubix_redis_bridge.Config.Token.{TokenCaps}
use rubix_redis_bridge.Config.Types.{Redis, AuthToken}
use rubix_redis_bridge.Config.Bridge.{Bridge}
use rubix_redis_bridge.Config.Bridge.Valid.{ok_injective, bail_if-ok, IsSound}
use rubix_redis_bridge.Auth.Lockout.{empty, run}
use rubix_redis_bridge.Auth.Lockout.Invariant.{IsValid, run-empty-IsValid}
use rubix_redis_bridge.App.Routes.{
  AuthRoute, Routes, Crates, add_target, AppState, add_targets, new,
}
use rubix_redis_bridge.App.Routes.Lookup.{IsRouted, IsTaken, new_routes}
use rubix_redis_bridge.App.Shards.{RedisTarget, new_target}
use rubix_redis_bridge.App.Shards.Worker.{start}
use rubix_redis_bridge.App.Realtime.Release.Accounts.{IsAccounted}
use rubix_redis_bridge.Main.{Started, start_connection_workers, settings_of, first_state}

-- The targets, with their supervisors, are those of the configuration, before the first connection;
-- the routes are those of its enabled tokens; the limits leave room for a request; the policy allows
-- no denied command; and the invariants of the lockout and of the realtime permits hold.
pub record IsServing {Connection Address : Type 0} (b : Bridge) (s : Started Connection Address)
    : Type 0 where
  pub supervised : s.supervised ≡ map (λ t. start t.connection_shards) b.targets
  pub target_ids : s.app.target_ids ≡ map (λ t. t.rrb_id) b.targets
  pub hash_token : s.app.hash_token ≡ b.hash_token
  pub routes :
      (hash : TokenHash) (route : AuthRoute)
      → (get s.app.token_routes hash ≡ some route) ↔ IsRouted 0 b.targets hash route
  pub limits :
      (0 < (settings_of s.app).acquire_timeout)
      × ((settings_of s.app).acquire_timeout < (settings_of s.app).request_timeout)
      × (0 < (settings_of s.app).max_response_bytes)
      × (0 < s.max_concurrency)
  pub none_denied :
      All (λ name. ¬ Mem name denied_commands) (settings_of s.app).security.allowed_commands
  pub table :
      (first_state s.app).auth.auth_lockout
      ≡ empty b.auth_lockout_failures b.auth_lockout_window b.auth_lockout_duration
          b.auth_lockout_max_entries
  pub lockout : IsValid (first_state s.app).auth.auth_lockout
  pub realtime :
      IsAccounted {PubSub = Unit {0}} s.app.realtime_limit
        (record { state = first_state s.app; streams = [] })
  pub some_realtime : 0 < s.app.realtime_limit

start_connection_workers-start :
    {Connection : Type 0} (targets : List Redis)
    → start_connection_workers {Connection = Connection}
        (map (λ t. new_target t.connection_shards) targets)
      ≡ map (λ t. start t.connection_shards) targets
unfolding start_connection_workers start new_target
start_connection_workers-start [] = refl
start_connection_workers-start {Connection} (t ∷ targets) =
    rw
      (
        length-replicate t.connection_shards _,
        start_connection_workers-start {Connection = Connection} targets,
      )
      refl

IsRouted-get :
    {Connection : Type 0} (app : AppState Connection) (b : Bridge) (hash : TokenHash)
    (route : AuthRoute)
    → ((n k : ℕ) (target : Redis) (token : AuthToken)
        → get_elem? b.targets n ≡ some target
        → get_elem? target.tokens k ≡ some token
        → token.enabled ≡ true
        → get app.token_routes token.hash
          ≡ some (record { target = n; token_type = token.token_type }))
    → IsRouted 0 b.targets hash route
    → get app.token_routes hash ≡ some route
IsRouted-get app b hash route added r =
    let t = r.is_token in
    let found = added r.offset t.index r.config t.token r.at_target t.at_index t.is_enabled in
    let target_is : r.offset ≡ route.target = omega (arith, r.target_is) in
    let caps_are = t.caps_are in
    let hash_is = t.hash_is in
    let same : ◌≡◌ {A = AuthRoute} (record { target = r.offset; token_type = t.token.token_type })
        route =
      ap₂ (λ (i : ℕ) (caps : TokenCaps). record { target = i; token_type = caps }) target_is
        caps_are in
    subst (λ h. get app.token_routes h ≡ some route) hash_is (found ∙ ap some same)

-- What the state takes over from the configuration as it is.
record Copies {Connection : Type 0} (b : Bridge) (app : AppState Connection) : Type 0 where
  target_ids : app.target_ids ≡ map (λ t. t.rrb_id) b.targets
  hash_token : app.hash_token ≡ b.hash_token
  security : app.security ≡ b.security
  request_timeout : app.request_timeout ≡ b.request_timeout
  acquire_timeout : app.acquire_timeout ≡ b.acquire_timeout
  max_response_bytes : app.max_response_bytes ≡ b.max_response_bytes
  realtime_limit : app.realtime_limit ≡ b.max_realtime_concurrency
  auth_lockout :
      app.auth_lockout
      ≡ empty b.auth_lockout_failures b.auth_lockout_window b.auth_lockout_duration
          b.auth_lockout_max_entries

new-Copies :
    {Connection : Type 0} (crates : Crates) (b : Bridge) (app : AppState Connection)
    → new crates b ≡ ok app
    → Copies b app
unfolding new
new-Copies {Connection} crates b app h =
    let ((targets, routes), e, rest) =
      >>=-eq-ok (add_targets {Connection = Connection} crates 0 [] b.targets) _ h in
    let (fits, done) =
      bail_if-ok (ltb crates.max_permits b.max_realtime_concurrency) _ _ app rest in
    subst (Copies b) (ok_injective _ app done) (record {
      target_ids = refl;
      hash_token = refl;
      security = refl;
      request_timeout = refl;
      acquire_timeout = refl;
      max_response_bytes = refl;
      realtime_limit = refl;
      auth_lockout = refl;
    })

-- Targets that are added are taken by the crates.
add_targets-AreTaken :
    {Connection : Type 0} (crates : Crates) (i : ℕ) (routes : Routes) (configs : List Redis)
    (done : List (RedisTarget Connection) × Routes)
    → add_targets crates i routes configs ≡ ok done
    → All (IsTaken crates) configs
unfolding add_targets add_target
add_targets-AreTaken crates i routes [] done h = tt
add_targets-AreTaken {Connection} crates i routes (config ∷ configs) done h =
    let (added, e, rest) =
      >>=-eq-ok (add_target {Connection = Connection} crates i routes config) _ h in
    let (more, e', last) =
      >>=-eq-ok (add_targets {Connection = Connection} crates (suc i) added.1 configs) _ rest in
    let (operations, h1) = bail_if-ok (config.operation_limit == 0) _ _ added e in
    let (shards, h2) = bail_if-ok (config.connection_shards == 0) _ _ added h1 in
    let (opened, h3) = bail_if-ok (not (crates.opens config.connection_string)) _ _ added h2 in
    let (fits, h4) = bail_if-ok (ltb crates.max_permits config.operation_limit) _ _ added h3 in
    (
      (ground (arith, opened), ground (arith, fits)),
      add_targets-AreTaken crates (suc i) added.1 configs more e',
    )

module _ {Connection : Type 0} (crates : Crates) (b : Bridge) (app : AppState Connection) where
  new-AreTaken :
      new crates b ≡ ok app
      → All (IsTaken crates) b.targets × (b.max_realtime_concurrency ≤ crates.max_permits)
  unfolding new
  new-AreTaken h =
      let (added, e, rest) =
        >>=-eq-ok (add_targets {Connection = Connection} crates 0 [] b.targets) _ h in
      let (fits, done) =
        bail_if-ok (ltb crates.max_permits b.max_realtime_concurrency) _ _ app rest in
      (add_targets-AreTaken crates 0 [] b.targets added e, ground (arith, fits))

  pub built-IsServing :
      {Address : Type 0} (s : Started Connection Address)
      → IsSound b
      → new crates b ≡ ok app
      → s.app ≡ app
      → s.supervised ≡ start_connection_workers app.targets
      → s.max_concurrency ≡ b.max_concurrency
      → IsServing b s
  unfolding settings_of first_state count run
  built-IsServing s sound built app_is supervised max_concurrency =
      let (opened, fits) = new-AreTaken built in
      let (app', built', targets, added, only) =
        new_routes {Connection = Connection} crates b sound.targets opened fits in
      let same : app' ≡ s.app = ok_injective app' app (sym built' ∙ built) ∙ sym app_is in
      let copies = subst (Copies b) (sym app_is) (new-Copies crates b app built) in
      let limits = sound.limits in
      let acquire : 0 < s.app.acquire_timeout = rw copies.acquire_timeout limits.acquire in
      let targets' : app.targets ≡ map (λ t. new_target t.connection_shards) b.targets =
        subst (λ a. a.targets ≡ map (λ t. new_target t.connection_shards) b.targets) (same ∙ app_is)
          targets in
      record {
        supervised = supervised ∙ rw targets' (start_connection_workers-start b.targets);
        target_ids = copies.target_ids;
        hash_token = copies.hash_token;
        routes =
            subst
              (λ a.
                (hash : TokenHash) (route : AuthRoute)
                → (get a.token_routes hash ≡ some route) ↔ IsRouted 0 b.targets hash route)
              same (λ hash route. (only hash route, IsRouted-get app' b hash route added));
        limits = (
          acquire,
          rw (copies.acquire_timeout, copies.request_timeout) limits.acquire_lt,
          rw copies.max_response_bytes limits.response,
          rw max_concurrency limits.concurrency,
        );
        none_denied = rw copies.security sound.none_denied;
        table = copies.auth_lockout;
        lockout = rw copies.auth_lockout (run-empty-IsValid _ _ _ _ []);
        realtime = record {
          permits = omega arith;
          held = tt;
          inflight = λ labels. refl;
          paced = tt;
        };
        some_realtime = rw copies.realtime_limit limits.realtime;
      }
