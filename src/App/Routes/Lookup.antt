-- ===== src/App/Routes/Lookup.antt =====
-- Where the routes of a configuration lead.
use rubix_redis_bridge.Prelude.{
  ℕ, zero, suc, ◌+◌, ◌≡◌, ◌≤◌, ◌⊎◌, inl, inr, refl, sym, ◌∙◌, true, false, List, [], ◌∷◌, ◌++◌,
  some, ok, arith, All, All-weaken, contains, contains-append, IsDistinct, IsDistinct-split,
  IsDistinct-apart, get, get_elem?, if◌then◌else◌,
}
use rubix_redis_bridge.Config.Hash.{TokenHash, hash_eq, hash_decides}
use rubix_redis_bridge.Config.Types.{AuthToken, Redis}
use rubix_redis_bridge.Config.Targets.Adding.{hashes_of, hashes_of-append, tokens_of, IsUsable}
use rubix_redis_bridge.Config.Targets.Sound.{IsConfigured}
use rubix_redis_bridge.Config.Bridge.{Bridge}
use rubix_redis_bridge.App.Routes.{
  AuthRoute, Routes, Crates, AppState, add_tokens, add_target, add_targets, new,
}
use rubix_redis_bridge.App.Routes.Tokens.{
  IsTokenOf, AddedTokens, Unrouted, route_to, add_tokens_done,
}
use rubix_redis_bridge.Auth.Lockout.{empty}
use rubix_redis_bridge.App.Shards.{new_target}
use rubix_redis_bridge.Prelude.{map, All-split, All-both, All-always}

-- An enabled token of the target that the route names has the hash and the capabilities.
pub record IsRouted (i : ℕ) (configs : List Redis) (hash : TokenHash) (route : AuthRoute)
    : Type 0 where
  pub offset : ℕ
  pub config : Redis
  pub target_is : route.target ≡ i + offset
  pub at_target : get_elem? configs offset ≡ some config
  pub is_token : IsTokenOf config.tokens hash route

record AddedTargets (i : ℕ) (routes routes' : Routes) (configs : List Redis) : Type 0 where
  others :
      (h : TokenHash)
      → contains (hashes_of (tokens_of configs)) h ≡ false
      → get routes' h ≡ get routes h
  added :
      (n k j : ℕ) (config : Redis) (token : AuthToken)
      → j ≡ i + n
      → get_elem? configs n ≡ some config
      → get_elem? config.tokens k ≡ some token
      → token.enabled ≡ true
      → get routes' token.hash ≡ some (route_to j token)
  only :
      (h : TokenHash) (route : AuthRoute)
      → get routes' h ≡ some route
      → (get routes h ≡ some route) ⊎ IsRouted i configs h route

hashes_of-contains :
    (tokens : List AuthToken) (k : ℕ) (token : AuthToken)
    → get_elem? tokens k ≡ some token
    → token.enabled ≡ true
    → contains (hashes_of tokens) token.hash ≡ true
unfolding hashes_of contains hash_eq
hashes_of-contains [] k token at on = cc
hashes_of-contains (t ∷ tokens) zero token at on =
    let same : t ≡ token = cc in rw (same, on) (ground (arith, hash_decides token.hash token.hash))
hashes_of-contains (t ∷ tokens) (suc k) token at on = ground (
  arith,
  contains-append (if t.enabled then t.hash ∷ [] else []) (hashes_of tokens) token.hash,
  hashes_of-contains tokens k token at on,
)

AddedTargets-cons :
    (i : ℕ) (routes between routes' : Routes) (config : Redis) (configs : List Redis)
    → IsDistinct (hashes_of config.tokens ++ hashes_of (tokens_of configs))
    → AddedTokens i routes between config.tokens
    → AddedTargets (suc i) between routes' configs
    → AddedTargets i routes routes' (config ∷ configs)
AddedTargets-cons i routes between routes' config configs d a b = record {
  others = λ h out.
      let both = contains-append (hashes_of config.tokens) (hashes_of (tokens_of configs)) h in
      let split = hashes_of-append config.tokens (tokens_of configs) in
      let out' = rw split at out in
      let absent = sym both ∙ out' in
      b.others h (ground (arith, absent)) ∙ a.others h (ground (arith, absent));
  added = added;
  only = λ h route found. elim (b.only h route found) [
    | inr r ↦ inr (record {
      offset = suc r.offset;
      config = r.config;
      target_is = omega (arith, r.target_is);
      at_target = r.at_target;
      is_token = r.is_token;
    })
    | inl old ↦ elim (a.only h route old) [
      | inl older ↦ inl older
      | inr (here, t) ↦ inr (record {
        offset = 0;
        config = config;
        target_is = omega arith;
        at_target = refl;
        is_token = t;
      })
    ]
  ];
}
  where
    added :
        (n k j : ℕ) (c : Redis) (token : AuthToken)
        → j ≡ i + n
        → get_elem? (config ∷ configs) n ≡ some c
        → get_elem? c.tokens k ≡ some token
        → token.enabled ≡ true
        → get routes' token.hash ≡ some (route_to j token)
    added zero k j c token target here at on =
        let first : j ≡ i = omega arith in
        let same : config ≡ c = cc in
        let at' : get_elem? config.tokens k ≡ some token = rw same at in
        rw first (
          b.others token.hash
            (IsDistinct-apart _ _ token.hash d (hashes_of-contains config.tokens k token at' on))
          ∙ a.added k token at' on)
    added (suc n) k j c token target here at on = b.added n k j c token (omega arith) here at on

-- The Redis client takes the connection string, and tokio the number of permits.
abbrev pub IsTaken : Crates → Redis → Type 0
IsTaken crates config =
    (crates.opens config.connection_string ≡ true) × (config.operation_limit ≤ crates.max_permits)

add_target_done :
    {Connection : Type 0} (crates : Crates) (i : ℕ) (routes routes' : Routes) (config : Redis)
    → IsUsable config
    → IsTaken crates config
    → add_tokens i routes config.tokens ≡ ok routes'
    → add_target {Connection = Connection} crates i routes config
      ≡ ok (new_target config.connection_shards, routes')
unfolding add_target
add_target_done crates i routes routes' config usable opened done =
    ground (arith, usable.has_operations, usable.has_shards, opened.0, opened.1)

module _ {Connection : Type 0} (crates : Crates) where
  add_targets_done :
      (i : ℕ) (routes : Routes) (configs : List Redis)
      → All IsUsable configs
      → All (IsTaken crates) configs
      → IsDistinct (hashes_of (tokens_of configs))
      → Unrouted routes (hashes_of (tokens_of configs))
      → (routes' : Routes) × (add_targets {Connection = Connection} crates i routes configs
          ≡ ok (map (λ c. new_target c.connection_shards) configs, routes'))
        × AddedTargets i routes routes' configs
  unfolding add_targets
  add_targets_done i routes [] usable opened d free = (
    routes,
    refl,
    record {
      others = λ h out. refl;
      added = λ n k j c token target here at on. cc;
      only = λ h route found. inl found;
    },
  )
  add_targets_done i routes (config ∷ configs) (u, us) (o, os) d free =
      let split = hashes_of-append config.tokens (tokens_of configs) in
      let d' = rw split at d in
      let free' = rw split at free in
      let (here, later, apart) = IsDistinct-split _ _ d' in
      let (free_here, free_later) = All-split _ (hashes_of config.tokens) _ free' in
      let (between, done, a) = add_tokens_done i routes config.tokens here free_here in
      let (routes', rest, b) =
        add_targets_done (suc i) between configs us os later
          (unrouted config (hashes_of (tokens_of configs)) a apart free_later) in
      (
        routes',
        rw (add_target_done crates i routes between config u o done, rest) refl,
        AddedTargets-cons i routes between routes' config configs d' a b,
      )
    where
      unrouted :
          {r r' : Routes} (c : Redis) (hashes : List TokenHash)
          → AddedTokens i r r' c.tokens
          → All (λ h. contains (hashes_of c.tokens) h ≡ false) hashes
          → Unrouted r hashes
          → Unrouted r' hashes
      unrouted c hashes a apart free =
          All-weaken hashes (λ h (out, none_yet). a.others h out ∙ none_yet)
            (All-both _ _ hashes apart free)

-- From a configuration as a target file gives it, whose connection strings the Redis client takes
-- and whose limits tokio takes, the state is built: it has one target without connections for each configured one, in order, the
-- hash of each enabled token leads to the token's target with the token's capabilities, and no other
-- hash leads anywhere.
pub new_routes :
    {Connection : Type 0} (crates : Crates) (config : Bridge)
    → IsConfigured config.targets
    → All (IsTaken crates) config.targets
    → config.max_realtime_concurrency ≤ crates.max_permits
    → (state : AppState Connection) × (new crates config ≡ ok state)
      × (state.targets ≡ map (λ t. new_target t.connection_shards) config.targets)
      × ((n k : ℕ) (target : Redis) (token : AuthToken)
          → get_elem? config.targets n ≡ some target
          → get_elem? target.tokens k ≡ some token
          → token.enabled ≡ true
          → get state.token_routes token.hash
            ≡ some (record { target = n; token_type = token.token_type }))
      × ((hash : TokenHash) (route : AuthRoute)
          → get state.token_routes hash ≡ some route
          → IsRouted 0 config.targets hash route)
unfolding new get
new_routes {Connection} crates config v opened permits =
    let (routes, done, a) =
      add_targets_done {Connection = Connection} crates 0 [] config.targets v.each opened
        v.distinct_hashes (All-always _ (λ h. refl)) in
    (
      record {
        targets = map (λ t. new_target t.connection_shards) config.targets;
        target_ids = map (λ t. t.rrb_id) config.targets;
        token_routes = routes;
        security = config.security;
        request_timeout = config.request_timeout;
        acquire_timeout = config.acquire_timeout;
        max_response_bytes = config.max_response_bytes;
        hash_token = config.hash_token;
        metrics_token = config.metrics_token;
        auth_lockout =
            empty config.auth_lockout_failures config.auth_lockout_window
              config.auth_lockout_duration config.auth_lockout_max_entries;
        trust_proxy_headers = config.trust_proxy_headers;
        trusted_proxies = config.trusted_proxies;
        realtime_limit = config.max_realtime_concurrency;
      },
      rw done (ground (arith, permits)),
      refl,
      λ n k target token at_target at_token on.
          a.added n k n target token (omega arith) at_target at_token on,
      λ hash route found. elim (a.only hash route found) [ inl old ↦ cc | inr r ↦ r ],
    )
