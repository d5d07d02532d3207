-- ===== src/Config/Targets/Sound.antt =====
-- What `parse_file_targets` promises of the targets that it returns.
use rubix_redis_bridge.Prelude.{
  ℕ, ◌≡◌, ◌≢◌, refl, Bool, true, false, List, [], ◌∷◌, map, Option, ok, >>=-eq-ok, arith, sym, ◌∙◌,
  All, contains, insert, list_eq, nat_eq, IsDistinct, Extends, Extends-nil, Extends-one, ok_or,
  if◌then◌else◌,
}
use mathlib.Core.List.{append-nil}
use rubix_redis_bridge.Text.{Str}
use rubix_redis_bridge.Config.Hash.{TokenHash, hash_eq}
use rubix_redis_bridge.Config.Types.{
  AuthToken, Redis, FileAuthToken, FileTarget, FileConfig, hash_token_missing, no_json,
}
use rubix_redis_bridge.Config.Targets.{
  Seen, see_hash, parse_token, parse_tokens, parse_target, parse_targets, parse_file_targets,
  trimmed, unseen,
}
use rubix_redis_bridge.Config.Targets.Adding.{
  hashes_of, ids_of, tokens_of, IsUsable, Adds, Adds-append, AllAdds, AllAdds-cons,
}

module _ (hex_decode : Str → Option (List ℕ)) where
  see_hash_sound :
      (enabled : Bool) (hash : TokenHash) (seen seen' : Seen)
      → see_hash enabled hash seen ≡ ok seen'
      → (seen'.rrb_ids ≡ seen.rrb_ids)
        × (seen'.token_ids ≡ seen.token_ids)
        × Extends seen.token_hashes (if enabled then hash ∷ [] else []) seen'.token_hashes
  unfolding see_hash
  see_hash_sound true hash seen seen' h =
      let new : contains seen.token_hashes hash ≡ false = ground arith in
      let grown : seen' ≡ record seen { token_hashes = insert seen.token_hashes hash } =
        ground arith in
      rw grown (refl, refl, Extends-one seen.token_hashes hash new)
  see_hash_sound false hash seen seen' h =
      let same : seen' ≡ seen = cc in rw same (refl, refl, Extends-nil seen.token_hashes)

  parse_token_tests :
      (rrb_id : Str) (seen seen' : Seen) (file : FileAuthToken) (token : AuthToken)
      → parse_token hex_decode rrb_id seen file ≡ ok (token, seen')
      → (contains seen.token_ids token.id ≡ false)
        × (see_hash token.enabled token.hash
              (record seen { token_ids = insert seen.token_ids token.id })
            ≡ ok seen')
  unfolding parse_token
  parse_token_tests rrb_id seen seen' file token h = ground arith

  parse_token_sound :
      (rrb_id : Str) (seen seen' : Seen) (file : FileAuthToken) (token : AuthToken)
      → parse_token hex_decode rrb_id seen file ≡ ok (token, seen')
      → Adds seen seen' (token ∷ [])
  unfolding hashes_of
  parse_token_sound rrb_id seen seen' file token h =
      let (new, seen_hash) = parse_token_tests rrb_id seen seen' file token h in
      let (same, ids, hashes) = see_hash_sound token.enabled token.hash _ seen' seen_hash in
      record {
        rrb_ids = same;
        token_ids = rw ids (Extends-one seen.token_ids token.id new);
        token_hashes = rw (append-nil (if token.enabled then token.hash ∷ [] else [])) hashes;
      }

  parse_tokens_sound :
      (rrb_id : Str) (seen seen' : Seen) (files : List FileAuthToken) (tokens : List AuthToken)
      → parse_tokens hex_decode rrb_id seen files ≡ ok (tokens, seen')
      → Adds seen seen' tokens
  unfolding parse_tokens hashes_of
  parse_tokens_sound rrb_id seen seen' [] tokens h =
      let none_parsed : tokens ≡ [] = cc in
      let same : seen' ≡ seen = cc in
      rw (none_parsed, same)
        (record { rrb_ids = refl; token_ids = Extends-nil _; token_hashes = Extends-nil _ })
  parse_tokens_sound rrb_id seen seen' (file ∷ files) tokens h =
      let ((token, between), first, later) =
        >>=-eq-ok (parse_token hex_decode rrb_id seen file) _ h in
      let ((more, last), rest, done) =
        >>=-eq-ok (parse_tokens hex_decode rrb_id between files) _ later in
      let all : tokens ≡ token ∷ more = cc in
      let same : seen' ≡ last = cc in
      rw (all, same)
        (Adds-append seen between last (token ∷ []) more
          (parse_token_sound rrb_id seen between file token first)
          (parse_tokens_sound rrb_id between last files more rest))

  parse_target_tests :
      (seen seen' : Seen) (file : FileTarget) (target : Redis)
      → parse_target hex_decode seen file ≡ ok (target, seen')
      → (contains seen.rrb_ids target.rrb_id ≡ false)
        × IsUsable target
        × (parse_tokens hex_decode target.rrb_id
              (record seen { rrb_ids = insert seen.rrb_ids target.rrb_id })
              file.tokens
            ≡ ok (target.tokens, seen'))
  unfolding parse_target
  parse_target_tests seen seen' file target h = (
    ground arith,
    record {
      has_operations = ground arith;
      has_shards = ground arith;
      has_id = ground arith;
      has_connection_string = ground arith;
      has_token = ground arith;
    },
    ground arith,
  )

  parse_target_sound :
      (seen seen' : Seen) (file : FileTarget) (target : Redis)
      → parse_target hex_decode seen file ≡ ok (target, seen')
      → (contains seen.rrb_ids target.rrb_id ≡ false)
        × IsUsable target
        × Adds (record seen { rrb_ids = insert seen.rrb_ids target.rrb_id }) seen' target.tokens
  parse_target_sound seen seen' file target h =
      let (new, usable, parsed) = parse_target_tests seen seen' file target h in
      (new, usable, parse_tokens_sound target.rrb_id _ seen' file.tokens target.tokens parsed)

  parse_targets_sound :
      (seen : Seen) (files : List FileTarget) (targets : List Redis)
      → parse_targets hex_decode seen files ≡ ok targets
      → AllAdds seen targets
  unfolding parse_targets hashes_of
  parse_targets_sound seen [] targets h =
      let none_parsed : targets ≡ [] = cc in
      rw none_parsed (record {
        each = tt;
        rrb_ids = (_, Extends-nil _);
        token_ids = (_, Extends-nil _);
        token_hashes = (_, Extends-nil _);
      })
  parse_targets_sound seen (file ∷ files) targets h =
      let ((target, between), first, later) = >>=-eq-ok (parse_target hex_decode seen file) _ h in
      let (more, rest, done) = >>=-eq-ok (parse_targets hex_decode between files) _ later in
      let (new, usable, adds) = parse_target_sound seen between file target first in
      let all : targets ≡ target ∷ more = cc in
      let others = parse_targets_sound between files more rest in
      rw all (AllAdds-cons seen between target more usable new adds others)

  parse_targets_some :
      (seen : Seen) (files : List FileTarget) (targets : List Redis)
      → parse_targets hex_decode seen files ≡ ok targets
      → files ≢ []
      → targets ≢ []
  unfolding parse_targets
  parse_targets_some seen [] targets h some_file none_parsed = some_file refl
  parse_targets_some seen (file ∷ files) targets h some_file none_parsed =
      let ((target, between), first, later) = >>=-eq-ok (parse_target hex_decode seen file) _ h in
      let (more, rest, done) = >>=-eq-ok (parse_targets hex_decode between files) _ later in
      let all : targets ≡ target ∷ more = cc in
      let bad : [] ≡ target ∷ more = sym none_parsed ∙ all in cc

-- What a running bridge relies on.
pub record IsConfigured (targets : List Redis) : Type 0 where
  pub some_target : targets ≢ []
  pub each : All IsUsable targets
  pub distinct_rrb_ids : IsDistinct (map (λ t. t.rrb_id) targets)
  pub distinct_token_ids : IsDistinct (ids_of (tokens_of targets))
  pub distinct_hashes : IsDistinct (hashes_of (tokens_of targets))

parse_file_targets_tests :
    (hex_decode : Str → Option (List ℕ)) (from_str : Str → Option FileConfig) (contents : Str)
    (hash_token : Option Str) (targets : List Redis)
    → parse_file_targets hex_decode from_str contents hash_token ≡ ok targets
    → (files : List FileTarget) × (files ≢ [])
      × (parse_targets hex_decode unseen files ≡ ok targets)
unfolding parse_file_targets
parse_file_targets_tests hex_decode from_str contents hash_token targets h =
    let (key, keyed, read) = >>=-eq-ok (ok_or (trimmed hash_token) hash_token_missing) _ h in
    let (config, found, parsed) = >>=-eq-ok (ok_or (from_str contents) no_json) _ read in
    (config.targets, ground arith, ground arith)

-- Targets that are read from a file are at least one, each with an id, a connection string, positive
-- limits and an enabled token; no two targets share an id, no two tokens of the whole file share an
-- id, and no two enabled ones a hash.
pub parse_file_targets-IsConfigured :
    (hex_decode : Str → Option (List ℕ)) (from_str : Str → Option FileConfig) (contents : Str)
    (hash_token : Option Str) (targets : List Redis)
    → parse_file_targets hex_decode from_str contents hash_token ≡ ok targets
    → IsConfigured targets
parse_file_targets-IsConfigured hex_decode from_str contents hash_token targets h =
    let (files, some_file, parsed) =
      parse_file_targets_tests hex_decode from_str contents hash_token targets h in
    let all = parse_targets_sound hex_decode unseen files targets parsed in
    record {
      some_target = parse_targets_some hex_decode unseen files targets parsed some_file;
      each = all.each;
      distinct_rrb_ids = all.rrb_ids.1.distinct;
      distinct_token_ids = all.token_ids.1.distinct;
      distinct_hashes = all.token_hashes.1.distinct;
    }
