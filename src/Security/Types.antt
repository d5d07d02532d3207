-- ===== src/Security/Types.antt =====
-- src/security/types.rs: the items of a command array, and their bytes.
use rubix_redis_bridge.Prelude.{
  ℕ, Bool, true, false, List, Option, none, some, Result, ok, err, ◌>>=◌, ◌>>◌, bail_if, ltb,
  length,
}
use rubix_redis_bridge.Text.{Str, lit, encode, trim, to_ascii_uppercase}

-- The type of JSON numbers is serde_json's.
pub data CommandArg (Number : Type 0) : Type 0 where
  string : Str → CommandArg Number
  number : Number → CommandArg Number
  bool : Bool → CommandArg Number
  null : CommandArg Number

pub record RedisCommand : Type 0 where
  pub name : Str
  pub args : List (List ℕ)

-- One constructor for each `bail!` and `anyhow!` of types.rs, deny.rs, script.rs and policy.rs, with
-- the values that the message prints.
pub data PolicyError : Type 0 where
  null_argument : PolicyError
  argument_too_large : ℕ → PolicyError
  hard_denied : Str → PolicyError
  subcommand_missing load_arguments exists_arguments flush_arguments : PolicyError
  flush_mode_not_string flush_mode_unknown : PolicyError
  subcommand_blocked subcommand_not_allowed : Str → PolicyError
  no_allowed_commands : PolicyError
  denied_allowed : List Str → PolicyError
  pipeline_too_large too_many_arguments : ℕ → PolicyError
  empty_command name_not_string : PolicyError
  not_allowed blocked : Str → PolicyError

unfoldable pub as_command_name : {Number : Type 0} → CommandArg Number → Option Str
as_command_name (string value) = some value
as_command_name _ = none

-- `.trim().to_ascii_uppercase()`, as policy.rs and script.rs apply it to names.
unfoldable pub command_word : Str → Str
command_word value = to_ascii_uppercase (trim value)

unfoldable pub bool_to_string : Bool → Str
bool_to_string true = lit "true"
bool_to_string false = lit "false"

-- `to_string` of a JSON number is serde_json's.
module _ {Number : Type 0} (number_to_string : Number → Str) where
  bytes_of : CommandArg Number → Result PolicyError (List ℕ)
  bytes_of (string value) = ok (encode value)
  bytes_of (number value) = ok (encode (number_to_string value))
  bytes_of (bool value) = ok (encode (bool_to_string value))
  bytes_of null = err null_argument

  unfoldable pub to_arg_bytes : ℕ → CommandArg Number → Result PolicyError (List ℕ)
  unfolding bytes_of
  to_arg_bytes max_arg_bytes arg = do
    bytes ← bytes_of arg
    bail_if (ltb max_arg_bytes (length bytes)) (argument_too_large max_arg_bytes)
    ok bytes
