-- ===== src/App/Routes/Tokens.antt =====
-- The routes that the tokens of one target add.
use rubix_redis_bridge.Prelude.{
  ℕ, zero, suc, ◌≡◌, ◌⊎◌, inl, inr, refl, true, false, List, [], ◌∷◌, none, some, ok, arith, All,
  contains, IsDistinct, get, put, get-put, contains_key-get, get_elem?, Bool-cases,
}
use rubix_redis_bridge.Config.Hash.{TokenHash, hash_eq, hash_decides, hash_same}
use rubix_redis_bridge.Config.Types.{AuthToken}
use rubix_redis_bridge.Config.Targets.Adding.{hashes_of}
use rubix_redis_bridge.App.Routes.{AuthRoute, Routes, add_token, add_tokens, new}

-- No route yet for any of the hashes.
abbrev pub Unrouted : Routes → List TokenHash → Type 0
Unrouted routes hashes = All (λ h. get routes h ≡ none) hashes

-- An enabled token of the list has the hash and the capabilities.
pub record IsTokenOf (tokens : List AuthToken) (hash : TokenHash) (route : AuthRoute) : Type 0 where
  pub index : ℕ
  pub token : AuthToken
  pub at_index : get_elem? tokens index ≡ some token
  pub is_enabled : token.enabled ≡ true
  pub hash_is : token.hash ≡ hash
  pub caps_are : token.token_type ≡ route.token_type

pub record AddedTokens (i : ℕ) (routes routes' : Routes) (tokens : List AuthToken) : Type 0 where
  pub others :
      (h : TokenHash) → contains (hashes_of tokens) h ≡ false → get routes' h ≡ get routes h
  pub added :
      (k : ℕ) (token : AuthToken)
      → get_elem? tokens k ≡ some token
      → token.enabled ≡ true
      → get routes' token.hash ≡ some (record { target = i; token_type = token.token_type })
  pub only :
      (h : TokenHash) (route : AuthRoute)
      → get routes' h ≡ some route
      → (get routes h ≡ some route) ⊎ ((route.target ≡ i) × IsTokenOf tokens h route)

Unrouted-put :
    (routes : Routes) (hash : TokenHash) (route : AuthRoute) (hashes : List TokenHash)
    → contains hashes hash ≡ false
    → Unrouted routes hashes
    → Unrouted (put routes hash route) hashes
unfolding contains
Unrouted-put routes hash route [] out free = tt
Unrouted-put routes hash route (h ∷ hashes) out free = (
  ground (arith, get-put routes hash h route, free.0),
  Unrouted-put routes hash route hashes (ground arith) free.1,
)

IsTokenOf-later :
    (token : AuthToken) (tokens : List AuthToken) (hash : TokenHash) (route : AuthRoute)
    → IsTokenOf tokens hash route
    → IsTokenOf (token ∷ tokens) hash route
IsTokenOf-later token tokens hash route t = record {
  index = suc t.index;
  token = t.token;
  at_index = t.at_index;
  is_enabled = t.is_enabled;
  hash_is = t.hash_is;
  caps_are = t.caps_are;
}

abbrev pub route_to : ℕ → AuthToken → AuthRoute
route_to i token = record { target = i; token_type = token.token_type }

AddedTokens-on :
    (i : ℕ) (routes routes' : Routes) (token : AuthToken) (tokens : List AuthToken)
    → token.enabled ≡ true
    → contains (hashes_of tokens) token.hash ≡ false
    → AddedTokens i (put routes token.hash (route_to i token)) routes' tokens
    → AddedTokens i routes routes' (token ∷ tokens)
unfolding hashes_of contains hash_eq
AddedTokens-on i routes routes' token tokens on out a = record {
  others = λ h other. ground (
    arith,
    a.others h,
    get-put routes token.hash h (route_to i token),
    on,
    hash_decides token.hash h,
    hash_decides h token.hash,
  );
  added = added;
  only = only;
}
  where
    added :
        (k : ℕ) (t : AuthToken)
        → get_elem? (token ∷ tokens) k ≡ some t
        → t.enabled ≡ true
        → get routes' t.hash ≡ some (route_to i t)
    added zero t at enabled =
        let same : token ≡ t = cc in
        rw (← same) (
          ground (
            arith,
            a.others token.hash out,
            get-put routes token.hash token.hash (route_to i token),
            hash_decides token.hash token.hash,
          ))
    added (suc k) t at enabled = a.added k t at enabled

    only :
        (h : TokenHash) (route : AuthRoute)
        → get routes' h ≡ some route
        → (get routes h ≡ some route) ⊎ ((route.target ≡ i) × IsTokenOf (token ∷ tokens) h route)
    only h route found = elim (a.only h route found) [
      | inr (here, t) ↦ inr (here, IsTokenOf-later token tokens h route t)
      | inl old ↦ elim (Bool-cases (hash_same token.hash h)) [
        | inl same ↦
            let new : some (route_to i token) ≡ some route =
              ground (arith, get-put routes token.hash h (route_to i token)) in
            inr (
              ground arith,
              record {
                index = 0;
                token = token;
                at_index = refl;
                is_enabled = on;
                hash_is = (hash_decides token.hash h).0 same;
                caps_are = ground arith;
              },
            )
        | inr other ↦ inl (ground (arith, get-put routes token.hash h (route_to i token)))
      ]
    ]

AddedTokens-off :
    (i : ℕ) (routes routes' : Routes) (token : AuthToken) (tokens : List AuthToken)
    → token.enabled ≡ false
    → AddedTokens i routes routes' tokens
    → AddedTokens i routes routes' (token ∷ tokens)
unfolding hashes_of
AddedTokens-off i routes routes' token tokens off a = record {
  others = λ h other. a.others h (ground arith);
  added = added;
  only = λ h route found. elim (a.only h route found) [
    | inl old ↦ inl old
    | inr (here, t) ↦ inr (here, IsTokenOf-later token tokens h route t)
  ];
}
  where
    added :
        (k : ℕ) (t : AuthToken)
        → get_elem? (token ∷ tokens) k ≡ some t
        → t.enabled ≡ true
        → get routes' t.hash ≡ some (route_to i t)
    added zero t at enabled = ground arith
    added (suc k) t at enabled = a.added k t at enabled

hashes_of-on :
    (token : AuthToken) (tokens : List AuthToken)
    → token.enabled ≡ true
    → hashes_of (token ∷ tokens) ≡ token.hash ∷ hashes_of tokens
unfolding hashes_of
hashes_of-on token tokens on = rw on refl

hashes_of-off :
    (token : AuthToken) (tokens : List AuthToken)
    → token.enabled ≡ false
    → hashes_of (token ∷ tokens) ≡ hashes_of tokens
unfolding hashes_of
hashes_of-off token tokens off = rw off refl

add_token_new :
    (i : ℕ) (routes : Routes) (token : AuthToken)
    → token.enabled ≡ true
    → get routes token.hash ≡ none
    → add_token i routes token ≡ ok (put routes token.hash (route_to i token))
unfolding add_token
add_token_new i routes token on free = ground (arith, contains_key-get routes token.hash)

add_token_skip :
    (i : ℕ) (routes : Routes) (token : AuthToken)
    → token.enabled ≡ false
    → add_token i routes token ≡ ok routes
unfolding add_token
add_token_skip i routes token off = rw off refl

pub add_tokens_done :
    (i : ℕ) (routes : Routes) (tokens : List AuthToken)
    → IsDistinct (hashes_of tokens)
    → Unrouted routes (hashes_of tokens)
    → (routes' : Routes) × (add_tokens i routes tokens ≡ ok routes')
      × AddedTokens i routes routes' tokens
unfolding add_tokens
add_tokens_done i routes [] d free = (
  routes,
  refl,
  record { others = λ h out. refl; added = λ k token at on. cc; only = λ h route found. inl found },
)
add_tokens_done i routes (token ∷ tokens) d free = elim (Bool-cases token.enabled) [
  | inl on ↦
      let (out, d') = rw (hashes_of-on token tokens on) at d in
      let (new, free') = rw (hashes_of-on token tokens on) at free in
      let (routes', done, a) =
        add_tokens_done i (put routes token.hash (route_to i token)) tokens d'
          (Unrouted-put routes token.hash (route_to i token) (hashes_of tokens) out free') in
      (
        routes',
        rw (add_token_new i routes token on new) done,
        AddedTokens-on i routes routes' token tokens on out a,
      )
  | inr off ↦
      let (routes', done, a) =
        add_tokens_done i routes tokens (rw (hashes_of-off token tokens off) at d)
          (rw (hashes_of-off token tokens off) at free) in
      (
        routes',
        rw (add_token_skip i routes token off) done,
        AddedTokens-off i routes routes' token tokens off a,
      )
]
