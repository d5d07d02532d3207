-- ===== src/Config/Targets/Adding.antt =====
-- What the loops of `parse_file_targets` add to their sets, token by token and target by target.
use rubix_redis_bridge.Prelude.{
  ◌<◌, ◌≡◌, ◌≢◌, refl, true, false, List, [], ◌∷◌, ◌++◌, map, sym, ◌∙◌, any, All, contains, insert,
  list_eq, nat_eq, Extends, Extends-one, Extends-append, if◌then◌else◌,
}
use mathlib.Core.List.{append_assoc, map-append}
use rubix_redis_bridge.Text.{Str}
use rubix_redis_bridge.Config.Hash.{TokenHash, hash_eq}
use rubix_redis_bridge.Config.Types.{AuthToken, Redis}
use rubix_redis_bridge.Config.Targets.{Seen}

unfoldable pub hashes_of : List AuthToken → List TokenHash
hashes_of [] = []
hashes_of (token ∷ tokens) = (if token.enabled then token.hash ∷ [] else []) ++ hashes_of tokens

abbrev pub ids_of : List AuthToken → List Str
ids_of tokens = map (λ token. token.id) tokens

abbrev pub tokens_of : List Redis → List AuthToken
tokens_of [] = []
tokens_of (target ∷ targets) = target.tokens ++ tokens_of targets

-- A target that can serve.
pub record IsUsable (target : Redis) : Type 0 where
  pub has_operations : 0 < target.operation_limit
  pub has_shards : 0 < target.connection_shards
  pub has_id : target.rrb_id ≢ []
  pub has_connection_string : target.connection_string ≢ []
  pub has_token : any (λ token. token.enabled) target.tokens ≡ true

-- What some tokens add to the sets.
pub record Adds (seen seen' : Seen) (tokens : List AuthToken) : Type 0 where
  pub rrb_ids : seen'.rrb_ids ≡ seen.rrb_ids
  pub token_ids : Extends seen.token_ids (ids_of tokens) seen'.token_ids
  pub token_hashes : Extends seen.token_hashes (hashes_of tokens) seen'.token_hashes

pub hashes_of-append :
    (xs ys : List AuthToken) → hashes_of (xs ++ ys) ≡ hashes_of xs ++ hashes_of ys
unfolding hashes_of
hashes_of-append [] ys = refl
hashes_of-append (x ∷ xs) ys =
    rw (hashes_of-append xs ys) (sym (append_assoc (if x.enabled then x.hash ∷ [] else []) _ _))

pub Adds-append :
    (seen seen' seen'' : Seen) (xs ys : List AuthToken)
    → Adds seen seen' xs
    → Adds seen' seen'' ys
    → Adds seen seen'' (xs ++ ys)
Adds-append seen seen' seen'' xs ys h k = record {
  rrb_ids = k.rrb_ids ∙ h.rrb_ids;
  token_ids =
      rw (map-append (λ (token : AuthToken). token.id) xs ys)
        (Extends-append _ (ids_of xs) _ (ids_of ys) _ h.token_ids k.token_ids);
  token_hashes =
      rw (hashes_of-append xs ys)
        (Extends-append _ (hashes_of xs) _ (hashes_of ys) _ h.token_hashes k.token_hashes);
}

-- The same of targets.
pub record AllAdds (seen : Seen) (targets : List Redis) : Type 0 where
  pub each : All IsUsable targets
  pub rrb_ids : (after : List Str) × Extends seen.rrb_ids (map (λ t. t.rrb_id) targets) after
  pub token_ids : (after : List Str) × Extends seen.token_ids (ids_of (tokens_of targets)) after
  pub token_hashes :
      (after : List TokenHash) × Extends seen.token_hashes (hashes_of (tokens_of targets)) after

pub AllAdds-cons :
    (seen between : Seen) (target : Redis) (more : List Redis)
    → IsUsable target
    → contains seen.rrb_ids target.rrb_id ≡ false
    → Adds (record seen { rrb_ids = insert seen.rrb_ids target.rrb_id }) between target.tokens
    → AllAdds between more
    → AllAdds seen (target ∷ more)
AllAdds-cons seen between target more usable new adds others = record {
  each = (usable, others.each);
  rrb_ids = (
    others.rrb_ids.0,
    Extends-append seen.rrb_ids (target.rrb_id ∷ []) between.rrb_ids _ _
        (rw adds.rrb_ids (Extends-one seen.rrb_ids target.rrb_id new)) others.rrb_ids.1,
  );
  token_ids = (
    others.token_ids.0,
    rw (map-append (λ (token : AuthToken). token.id) target.tokens (tokens_of more))
        (Extends-append _ (ids_of target.tokens) _ _ _ adds.token_ids others.token_ids.1),
  );
  token_hashes = (
    others.token_hashes.0,
    rw (hashes_of-append target.tokens (tokens_of more))
        (Extends-append _ (hashes_of target.tokens) _ _ _ adds.token_hashes others.token_hashes.1),
  );
}
