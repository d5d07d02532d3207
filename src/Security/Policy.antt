-- ===== src/Security/Policy.antt =====
-- src/security/policy.rs: the command policy.
pub mod Accepts
mod Tests
pub mod Parse
pub mod Boundary
pub mod Batches
pub mod Validate
use Prim.Native.String.{String}
use rubix_redis_bridge.Prelude.{
  ℕ, ◌+◌, ◌-◌, ◌^◌, min, Bool, false, not, ◌&&◌, ◌||◌, List, [], ◌∷◌, Result, ok, err, ◌>>=◌, ◌>>◌,
  bail_if, ok_or, collect, contains, list_eq, nat_eq, filter, is_empty, ltb, length, if◌then◌else◌,
}
use rubix_redis_bridge.Text.{Str, lit, str_eq}
use rubix_redis_bridge.Commands.{ratelimit_commands, realtime_commands}
use rubix_redis_bridge.Config.Token.{TokenCaps}
use rubix_redis_bridge.Security.Types.{
  CommandArg, RedisCommand, PolicyError, as_command_name, command_word, to_arg_bytes,
  no_allowed_commands, denied_allowed, pipeline_too_large, too_many_arguments, empty_command,
  name_not_string, not_allowed, blocked,
}
use rubix_redis_bridge.Security.Deny.{is_denied_command, reject_command}
use rubix_redis_bridge.Security.Script.{validate_subcommand}

pub record SecurityPolicy : Type 0 where
  pub allowed_commands : List Str
  pub blocked_commands : List Str
  pub max_pipeline_commands : ℕ
  pub max_command_args : ℕ
  pub max_arg_bytes : ℕ

-- `usize` on a 64-bit target
abbrev pub usize_max : ℕ
usize_max = 2 ^ 64 - 1

unfoldable pub saturating_add : ℕ → ℕ → ℕ
saturating_add a b = min (a + b) usize_max

unfoldable pub validate : SecurityPolicy → Result PolicyError (Unit {0})
validate p = do
  bail_if (is_empty p.allowed_commands) no_allowed_commands
  let hard_denied_allowed = filter (λ name. is_denied_command name false false) p.allowed_commands
  bail_if (not (is_empty hard_denied_allowed)) (denied_allowed hard_denied_allowed)
  ok tt

module _ {Number : Type 0} where
  -- the `if command_name == "SCRIPT" && allow_ratelimit`
  unfoldable pub screen : Str → TokenCaps → List (CommandArg Number) → Result PolicyError (Unit {0})
  screen command_name caps array =
      if str_eq command_name (lit "SCRIPT") && caps.ratelimit
      then validate_subcommand array
      else reject_command command_name caps.ratelimit caps.realtime

-- `standard_allowed || ratelimit_allowed || realtime_allowed`
unfoldable pub is_permitted : SecurityPolicy → TokenCaps → Str → Bool
is_permitted p caps command_name =
    caps.command && contains p.allowed_commands command_name
    || (caps.ratelimit && contains ratelimit_commands command_name
        || caps.realtime && contains realtime_commands command_name)

module _ {Number : Type 0} (number_to_string : Number → Str) where
  unfoldable pub parse_command_array :
      SecurityPolicy → List (CommandArg Number) → TokenCaps → Result PolicyError RedisCommand
  parse_command_array p [] caps = err empty_command
  parse_command_array p (first ∷ rest) caps = do
    bail_if (ltb (saturating_add p.max_command_args 1) (length (first ∷ rest)))
        (too_many_arguments p.max_command_args)
    name ← ok_or (as_command_name first) name_not_string
    let command_name = command_word name
    bail_if (is_empty command_name) empty_command
    screen command_name caps (first ∷ rest)
    bail_if (not (is_permitted p caps command_name)) (not_allowed command_name)
    bail_if (contains p.blocked_commands command_name) (blocked command_name)
    args ← collect (to_arg_bytes number_to_string p.max_arg_bytes) rest
    ok (record { name = command_name; args = args })

  unfoldable pub parse_command :
      SecurityPolicy → List (CommandArg Number) → TokenCaps → Result PolicyError RedisCommand
  parse_command = parse_command_array

  unfoldable pub parse_command_list :
      SecurityPolicy
      → List (List (CommandArg Number))
      → TokenCaps
      → Result PolicyError (List RedisCommand)
  parse_command_list p commands caps = do
    bail_if (ltb p.max_pipeline_commands (length commands))
        (pipeline_too_large p.max_pipeline_commands)
    collect (λ command. parse_command_array p command caps) commands
