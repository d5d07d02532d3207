-- ===== src/Config/Types.antt =====
-- The configuration's records (src/config/mod.rs) and those of the target file (src/config/targets.rs).
use rubix_redis_bridge.Prelude.{ℕ, Bool, List, Option}
use rubix_redis_bridge.Text.{Str}
use rubix_redis_bridge.Config.Token.{TokenCaps, TokenError}
use rubix_redis_bridge.Config.Env.{EnvError}
use rubix_redis_bridge.Config.Hash.{TokenHash, HashError}

pub record AuthToken : Type 0 where
  pub id : Str
  pub name : Option Str
  pub hash : TokenHash
  pub enabled : Bool
  pub token_type : TokenCaps

pub record Redis : Type 0 where
  pub rrb_id : Str
  pub connection_string : Str
  pub operation_limit : ℕ
  pub connection_shards : ℕ
  pub tokens : List AuthToken

-- The file as serde reads it, defaults filled in.
pub record FileAuthToken : Type 0 where
  pub id : Str
  pub name : Option Str
  pub hash : Str
  pub enabled : Bool
  pub token_type : Option Str

pub record FileTarget : Type 0 where
  pub rrb_id : Str
  pub connection_string : Str
  pub operation_limit : ℕ
  pub connection_shards : ℕ
  pub tokens : List FileAuthToken

pub record FileConfig : Type 0 where
  pub version : ℕ
  pub targets : List FileTarget

-- The `bail!`s, with what their messages print.
pub data ConfigError : Type 0 where
  hash_token_missing no_json no_targets empty_rrb_id duplicate_hashes : ConfigError
  unsupported_version : ℕ → ConfigError
  duplicate_rrb_id empty_connection_string zero_operation_limit zero_connection_shards :
      Str → ConfigError
  no_tokens empty_token_id duplicate_token_id no_enabled_tokens : Str → ConfigError
  token_type_error : TokenError → ConfigError
  hash_error : HashError → ConfigError
  token_required connection_string_required zero_env_limit zero_env_shards : ConfigError
  env_error : EnvError → ConfigError
  unsupported_mode unreadable_file : Str → ConfigError
