-- ===== src/Config/Mode.antt =====
-- src/config/targets.rs: `load_targets`, by the mode, and `load_env_target`. `var` is `std::env::var`,
-- `read_to_string` the file system and `sha256` the digest of a token; a file's permissions are only
-- logged.
pub mod Loaded
use Prim.Native.String.{String}
use rubix_redis_bridge.Prelude.{
  ℕ, Bool, true, List, [], ◌∷◌, Option, none, some, Result, ok, err, ◌>>=◌, ◌>>◌, bail_if, ok_or,
  map_err, ◌==◌, if◌then◌else◌,
}
use rubix_redis_bridge.Text.{Str, lit, str_eq}
use rubix_redis_bridge.Config.Token.{TokenCaps, command_only, parse}
use rubix_redis_bridge.Config.Hash.{TokenHash}
use rubix_redis_bridge.Config.Env.{Variable, parse_usize, parse_env_first, env_first, env_or}
use rubix_redis_bridge.Config.Types.{
  AuthToken, Redis, FileConfig, ConfigError, token_required, connection_string_required,
  zero_env_limit, zero_env_shards, token_type_error, env_error, unsupported_mode, unreadable_file,
}
use rubix_redis_bridge.Config.Targets.{trimmed, parse_file_targets}

abbrev pub default_operation_limit : ℕ
default_operation_limit = 100

abbrev pub default_connection_shards : ℕ
default_connection_shards = 4

unfoldable pub env_token_type : Option Str → Result ConfigError TokenCaps
env_token_type none = ok command_only
env_token_type (some value) = map_err token_type_error (parse value (lit "RRB_TOKEN_TYPE"))

module _ (var : Str → Variable) where
  unfoldable pub load_env_target : (Str → TokenHash) → Result ConfigError (List Redis)
  load_env_target sha256 = do
    token ← ok_or (trimmed (env_first var (lit "RRB_TOKEN" ∷ []))) token_required
    connection_string ←
        ok_or (trimmed (env_first var (lit "RRB_CONNECTION_STRING" ∷ lit "REDIS_URL" ∷ [])))
          connection_string_required
    operation_limit ←
        map_err env_error
          (parse_env_first parse_usize var (lit "RRB_OPERATION_LIMIT" ∷ []) default_operation_limit)
    connection_shards ← map_err env_error (
        parse_env_first parse_usize var (lit "RRB_CONNECTION_SHARDS" ∷ [])
          default_connection_shards)
    token_type ← env_token_type (env_first var (lit "RRB_TOKEN_TYPE" ∷ []))
    bail_if (operation_limit == 0) zero_env_limit
    bail_if (connection_shards == 0) zero_env_shards
    ok (
        record {
          rrb_id = lit "env";
          connection_string = connection_string;
          operation_limit = operation_limit;
          connection_shards = connection_shards;
          tokens =
              record {
                id = lit "env";
                name = some (lit "Environment token");
                hash = sha256 token;
                enabled = true;
                token_type = token_type;
              }
              ∷ [];
        }
        ∷ [])

  module _ (read_to_string : Str → Option Str) (from_str : Str → Option FileConfig) where
    unfoldable pub load_file_targets : (Str → Option (List ℕ)) → Result ConfigError (List Redis)
    load_file_targets hex_decode =
        let path : Str =
          elim (env_first var (lit "RRB_CONFIG_FILE" ∷ lit "TOKEN_RESOLUTION_FILE_PATH" ∷ [])) [
            | some given ↦ given
            | none ↦ lit "/app/rrb-config/tokens.json"
          ] in
        ok_or (read_to_string path) (unreadable_file path) >>= λ contents.
        parse_file_targets hex_decode from_str contents
          (trimmed (env_first var (lit "RRB_HASH_TOKEN" ∷ [])))

    unfoldable pub load_targets :
        (Str → TokenHash) → (Str → Option (List ℕ)) → Result ConfigError (List Redis)
    load_targets sha256 hex_decode =
        let mode = env_or var (lit "RRB_MODE") (lit "file") in
        if str_eq mode (lit "env")
        then load_env_target sha256
        else if str_eq mode (lit "file")
        then load_file_targets hex_decode
        else err (unsupported_mode mode)
