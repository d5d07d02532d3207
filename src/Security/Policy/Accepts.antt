-- ===== src/Security/Policy/Accepts.antt =====
-- What `parse_command` accepts, stated without the order of its tests (src/security/policy.rs).
use rubix_redis_bridge.Prelude.{
  ℕ, ◌≤◌, ◌≡◌, ◌≢◌, ◌⊎◌, true, List, [], ◌∷◌, Mem, list_eq, nat_eq, length, Forall₂,
}
use rubix_redis_bridge.Text.{Str, lit, encode}
use rubix_redis_bridge.Commands.{denied_commands, ratelimit_commands, realtime_commands}
use rubix_redis_bridge.Config.Token.{TokenCaps}
use rubix_redis_bridge.Security.Types.{
  CommandArg, string, number, bool, null, RedisCommand, command_word, bool_to_string,
}
use rubix_redis_bridge.Security.Script.Calls.{ScriptCall}
use rubix_redis_bridge.Security.Policy.{SecurityPolicy, saturating_add}

-- A capability of the token takes the command out of the hard-deny path.
abbrev pub IsExcepted : TokenCaps → Str → Type 0
IsExcepted caps name =
    ((caps.ratelimit ≡ true) × Mem name ratelimit_commands)
    ⊎ ((caps.realtime ≡ true) × Mem name realtime_commands)

-- A capability of the token covers the command.
abbrev pub IsPermitted : SecurityPolicy → TokenCaps → Str → Type 0
IsPermitted p caps name =
    ((caps.command ≡ true) × Mem name p.allowed_commands) ⊎ IsExcepted caps name

module _ {Number : Type 0} where
  -- A SCRIPT call is of a permitted form and sent by a token with `ratelimit`; any other command is
  -- not hard-denied, or excepted.
  abbrev pub IsScreened : TokenCaps → Str → List (CommandArg Number) → Type 0
  IsScreened caps name array =
      ((name ≡ lit "SCRIPT") × (caps.ratelimit ≡ true) × ScriptCall array)
      ⊎ ((name ≢ lit "SCRIPT") × (IsExcepted caps name ⊎ ¬ Mem name denied_commands))

module _ {Number : Type 0} (number_to_string : Number → Str) where
  -- The text whose UTF-8 bytes are sent for an argument; null has none.
  abbrev pub HasText : CommandArg Number → Str → Type 0
  HasText (string value) text = text ≡ value
  HasText (number value) text = text ≡ number_to_string value
  HasText (bool value) text = text ≡ bool_to_string value
  HasText null text = ⊥

  abbrev pub IsSentAs : ℕ → CommandArg Number → List ℕ → Type 0
  IsSentAs max_arg_bytes arg bytes =
      (text : Str) × HasText arg text × (bytes ≡ encode text) × (length bytes ≤ max_arg_bytes)

  pub record Accepts (p : SecurityPolicy) (array : List (CommandArg Number)) (caps : TokenCaps)
      (cmd : RedisCommand) : Type 0 where
    pub first : Str
    pub rest : List (CommandArg Number)
    pub array_is : array ≡ string first ∷ rest
    pub name_is : cmd.name ≡ command_word first
    pub has_name : cmd.name ≢ []
    pub arity : length array ≤ saturating_add p.max_command_args 1
    pub screened : IsScreened caps cmd.name array
    pub permitted : IsPermitted p caps cmd.name
    pub not_blocked : ¬ Mem cmd.name p.blocked_commands
    pub args_sent : Forall₂ (IsSentAs p.max_arg_bytes) rest cmd.args
