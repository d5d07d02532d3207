-- ===== src/Security/Script.antt =====
-- src/security/script.rs: the SCRIPT subcommands that a token with `ratelimit` may send.
pub mod Calls
use Prim.Native.String.{String}
use mathlib.Core.Option
use rubix_redis_bridge.Prelude.{
  not, ◌||◌, List, Option, none, some, Result, ok, err, ◌>>=◌, ◌>>◌, bail_if, ok_or, ltb, ◌==◌,
  length, get_elem?, if◌then◌else◌,
}
use rubix_redis_bridge.Text.{Str, lit, str_eq}
use rubix_redis_bridge.Security.Types.{
  CommandArg, PolicyError, as_command_name, command_word, subcommand_missing, load_arguments,
  exists_arguments, flush_arguments, flush_mode_not_string, flush_mode_unknown, subcommand_blocked,
  subcommand_not_allowed,
}

module _ {Number : Type 0} where
  -- `.as_command_name().map(|value| value.trim().to_ascii_uppercase())`
  unfoldable pub word_of : CommandArg Number → Option Str
  unfolding as_command_name
  word_of arg = elim (as_command_name arg) [ none ↦ none | some value ↦ some (command_word value) ]

  -- `if let Some(mode) = array.get(2)`
  unfoldable pub check_mode : Option (CommandArg Number) → Result PolicyError (Unit {0})
  check_mode none = ok tt
  check_mode (some arg) = do
    mode ← ok_or (word_of arg) flush_mode_not_string
    bail_if (not (str_eq mode (lit "SYNC") || str_eq mode (lit "ASYNC"))) flush_mode_unknown

  -- the `match` on the subcommand
  unfoldable pub check_subcommand : Str → List (CommandArg Number) → Result PolicyError (Unit {0})
  unfolding check_mode
  check_subcommand subcommand array =
      if str_eq subcommand (lit "LOAD")
      then bail_if (not (length array == 3)) load_arguments
      else if str_eq subcommand (lit "EXISTS")
      then bail_if (ltb (length array) 3) exists_arguments
      else if str_eq subcommand (lit "FLUSH")
      then (do bail_if (ltb 3 (length array)) flush_arguments; check_mode (get_elem? array 2))
      else if str_eq subcommand (lit "KILL") || str_eq subcommand (lit "DEBUG")
      then err (subcommand_blocked subcommand)
      else err (subcommand_not_allowed subcommand)

  subcommand_of : Option (CommandArg Number) → Option Str
  subcommand_of none = none
  subcommand_of (some arg) = word_of arg

  unfoldable pub validate_subcommand : List (CommandArg Number) → Result PolicyError (Unit {0})
  unfolding subcommand_of
  validate_subcommand array = do
    subcommand ← ok_or (subcommand_of (get_elem? array 1)) subcommand_missing
    check_subcommand subcommand array
