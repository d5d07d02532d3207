-- ===== src/Config/Targets.antt =====
-- src/config/targets.rs: `parse_file_targets`. `from_str` is serde_json's and `hex_decode` the hex
-- crate's.
pub mod Adding
pub mod Sound
use Prim.Native.String.{String}
use rubix_redis_bridge.Prelude.{
  ℕ, Bool, true, false, not, List, [], ◌∷◌, ◌++◌, Option, none, some, Result, ok, err, ◌>>=◌, ◌>>◌,
  bail_if, ok_or, map_err, ◌==◌, any, is_empty, contains, insert, list_eq, nat_eq, if◌then◌else◌,
}
use rubix_redis_bridge.Text.{Str, lit, trim}
use rubix_redis_bridge.Config.Token.{TokenCaps, command_only, parse}
use rubix_redis_bridge.Config.Hash.{TokenHash, hash_eq, hmac_sha256_parse}
use rubix_redis_bridge.Config.Types.{
  AuthToken, Redis, FileAuthToken, FileTarget, FileConfig, ConfigError, hash_token_missing, no_json,
  no_targets, empty_rrb_id, duplicate_hashes, unsupported_version, duplicate_rrb_id,
  empty_connection_string, zero_operation_limit, zero_connection_shards, no_tokens, empty_token_id,
  duplicate_token_id, no_enabled_tokens, token_type_error, hash_error,
}

-- The sets that the loops share.
pub record Seen : Type 0 where
  pub rrb_ids : List Str
  pub token_ids : List Str
  pub token_hashes : List TokenHash

abbrev pub unseen : Seen
unseen = record { rrb_ids = []; token_ids = []; token_hashes = [] }

-- `.map(|value| value.trim().to_string()).filter(|value| !value.is_empty())`
unfoldable pub trimmed : Option Str → Option Str
trimmed none = none
trimmed (some value) = if is_empty (trim value) then none else some (trim value)

-- `.transpose()?.unwrap_or_default()`
unfoldable pub token_type_of : Str → Str → Option Str → Result ConfigError TokenCaps
token_type_of id rrb_id none = ok command_only
token_type_of id rrb_id (some value) =
    map_err token_type_error
      (parse value (lit "token_type for token " ++ (id ++ (lit " on target " ++ rrb_id))))

-- The hash enters the set of hashes only if the token is enabled.
unfoldable pub see_hash : Bool → TokenHash → Seen → Result ConfigError Seen
see_hash false hash seen = ok seen
see_hash true hash seen = do
  bail_if (contains seen.token_hashes hash) duplicate_hashes
  ok (record seen { token_hashes = insert seen.token_hashes hash })

module _ (hex_decode : Str → Option (List ℕ)) where
  unfoldable pub parse_token : Str → Seen → FileAuthToken → Result ConfigError (AuthToken × Seen)
  parse_token rrb_id seen token = do
    let id = trim token.id
    bail_if (is_empty id) (empty_token_id rrb_id)
    bail_if (contains seen.token_ids id) (duplicate_token_id id)
    token_type ← token_type_of id rrb_id token.token_type
    hash ← map_err hash_error (hmac_sha256_parse hex_decode token.hash)
    seen' ← see_hash token.enabled hash (record seen { token_ids = insert seen.token_ids id })
    ok (
      record {
        id = id;
        name = trimmed token.name;
        hash = hash;
        enabled = token.enabled;
        token_type = token_type;
      },
      seen',
    )

  unfoldable pub parse_tokens :
      Str → Seen → List FileAuthToken → Result ConfigError (List AuthToken × Seen)
  parse_tokens rrb_id seen [] = ok ([], seen)
  parse_tokens rrb_id seen (token ∷ tokens) = do
    (parsed, seen') ← parse_token rrb_id seen token
    (more, seen'') ← parse_tokens rrb_id seen' tokens
    ok (parsed ∷ more, seen'')

  unfoldable pub parse_target : Seen → FileTarget → Result ConfigError (Redis × Seen)
  parse_target seen target = do
    let rrb_id = trim target.rrb_id
    bail_if (is_empty rrb_id) empty_rrb_id
    bail_if (contains seen.rrb_ids rrb_id) (duplicate_rrb_id rrb_id)
    let connection_string = trim target.connection_string
    bail_if (is_empty connection_string) (empty_connection_string rrb_id)
    bail_if (target.operation_limit == 0) (zero_operation_limit rrb_id)
    bail_if (target.connection_shards == 0) (zero_connection_shards rrb_id)
    bail_if (is_empty target.tokens) (no_tokens rrb_id)
    (tokens, seen') ←
        parse_tokens rrb_id (record seen { rrb_ids = insert seen.rrb_ids rrb_id }) target.tokens
    bail_if (not (any (λ token. token.enabled) tokens)) (no_enabled_tokens rrb_id)
    ok (
      record {
        rrb_id = rrb_id;
        connection_string = connection_string;
        operation_limit = target.operation_limit;
        connection_shards = target.connection_shards;
        tokens = tokens;
      },
      seen',
    )

  unfoldable pub parse_targets : Seen → List FileTarget → Result ConfigError (List Redis)
  parse_targets seen [] = ok []
  parse_targets seen (target ∷ targets) = do
    (parsed, seen') ← parse_target seen target
    more ← parse_targets seen' targets
    ok (parsed ∷ more)

  unfoldable pub parse_file_targets :
      (Str → Option FileConfig) → Str → Option Str → Result ConfigError (List Redis)
  parse_file_targets from_str contents hash_token = do
    _ ← ok_or (trimmed hash_token) hash_token_missing
    file_config ← ok_or (from_str contents) no_json
    bail_if (not (file_config.version == 1)) (unsupported_version file_config.version)
    bail_if (is_empty file_config.targets) no_targets
    parse_targets unseen file_config.targets
