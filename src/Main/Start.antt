-- ===== src/Main/Start.antt =====
-- What is there when `main` of src/main.rs starts to serve.
use rubix_redis_bridge.Prelude.{
  ℕ, sym, map_err, ◌≡◌, ◌≤◌, refl, ap, ◌∙◌, subst, Bool, true, List, ◌++◌, Option, some, ok,
  >>=-eq-ok, All, list_eq, nat_eq,
}
use rubix_redis_bridge.Text.{Str, lit}
use rubix_redis_bridge.Text.Decimal.{nat_to_string}
use rubix_redis_bridge.Config.Hash.{TokenHash, hash_eq}
use rubix_redis_bridge.Config.Env.{Variable}
use rubix_redis_bridge.Config.Types.{FileConfig}
use rubix_redis_bridge.Config.Bridge.{Bridge, from_env}
use rubix_redis_bridge.Config.Bridge.Valid.{ok_injective, map_err-ok, bail_if-ok, from_env-IsSound}
use rubix_redis_bridge.App.Routes.{Crates, new}
use rubix_redis_bridge.App.Routes.Lookup.{IsTaken, new_routes}
use rubix_redis_bridge.Main.{load, state, parsed, Started, start_connection_workers, main}
use rubix_redis_bridge.Main.Serving.{IsServing, built-IsServing}

module _ {Connection Address : Type 0} (var : Str → Variable) (read_to_string : Str → Option Str)
    (from_str : Str → Option FileConfig) (sha256 : Str → TokenHash)
    (hex_decode : Str → Option (List ℕ)) (crates : Crates) (parse_address : Str → Option Address)
    (binds : Address → Bool) where
  -- Whenever `main` comes to serve, it serves the configuration that it has read.
  pub started-IsServing :
      (b : Bridge) (s : Started Connection Address)
      → from_env var read_to_string from_str sha256 hex_decode ≡ ok b
      → main var read_to_string from_str sha256 hex_decode crates parse_address binds ≡ ok s
      → IsServing b s
  unfolding main
  started-IsServing b s loaded h =
      let (read, e, h1) =
        >>=-eq-ok (map_err load (from_env var read_to_string from_str sha256 hex_decode)) _ h in
      let same : read ≡ b = ok_injective read b (sym (map_err-ok load _ read e) ∙ loaded) in
      let (address, parses, h2) = >>=-eq-ok (parsed (parse_address _)) _ h1 in
      let (app, e', h3) =
        >>=-eq-ok (map_err state (new {Connection = Connection} crates read)) _ h2 in
      let (bound, h4) = bail_if-ok _ _ _ s h3 in
      let started = ok_injective _ s h4 in
      let built = map_err-ok state (new {Connection = Connection} crates read) app e' in
      subst (λ b. IsServing b s) same
        (built-IsServing crates read app s
          (from_env-IsSound var read_to_string from_str sha256 hex_decode read
            (map_err-ok load _ read e))
          built (ap (λ t. t.app) (sym started)) (ap (λ t. t.supervised) (sym started))
          (ap (λ t. t.max_concurrency) (sym started)))

  pub main-IsServing :
      (b : Bridge) (address : Address)
      → from_env var read_to_string from_str sha256 hex_decode ≡ ok b
      → All (IsTaken crates) b.targets
      → b.max_realtime_concurrency ≤ crates.max_permits
      → parse_address (b.host ++ (lit ":" ++ nat_to_string b.port)) ≡ some address
      → binds address ≡ true
      → (s : Started Connection Address) × (main var read_to_string from_str sha256 hex_decode
            crates parse_address binds
          ≡ ok s)
        × IsServing b s
  unfolding main
  main-IsServing b address loaded taken fits parses bound =
      let sound = from_env-IsSound var read_to_string from_str sha256 hex_decode b loaded in
      let (app, built, targets, added, only) =
        new_routes {Connection = Connection} crates b sound.targets taken fits in
      let s : Started Connection Address = record {
        bind = address;
        app = app;
        supervised = start_connection_workers app.targets;
        body_limit = b.max_body_bytes;
        max_concurrency = b.max_concurrency;
      } in
      let started : main var read_to_string from_str sha256 hex_decode crates parse_address binds
          ≡ ok s =
        rw (main, loaded, parses, built, bound) refl in
      (s, started, started-IsServing b s loaded started)
