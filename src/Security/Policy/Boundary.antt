-- ===== src/Security/Policy/Boundary.antt =====
-- What no configuration of the policy lets through (src/security/policy.rs, src/security/deny.rs).
use mathlib.Core.List.{mem-append}
use mathlib.Core.Logic.Or
use mathlib.Core.HLevel.{⊥_prop}
use rubix_redis_bridge.Prelude.{
  ◌≡◌, ◌↔◌, ◌⊎◌, inl, inr, refl, true, false, List, [], ◌∷◌, ◌++◌, Mem, ok, arith, contains,
  contains_iff, list_eq, list_beq, nat_eq,
}
use rubix_redis_bridge.Text.{Str, lit, str_eq_iff}
use rubix_redis_bridge.Text.Laws.{trim-to_ascii_uppercase, to_ascii_uppercase_idem, trim_idem}
use rubix_redis_bridge.Commands.{denied_commands, ratelimit_commands, realtime_commands}
use rubix_redis_bridge.Config.Token.{TokenCaps}
use rubix_redis_bridge.Security.Types.{
  CommandArg, string, RedisCommand, command_word, as_command_name,
}
use rubix_redis_bridge.Security.Script.{validate_subcommand, check_subcommand}
use rubix_redis_bridge.Security.Policy.{SecurityPolicy, screen, parse_command, parse_command_array}
use rubix_redis_bridge.Security.Policy.Accepts.{IsScreened, Accepts}
use rubix_redis_bridge.Security.Policy.Parse.{parse_command_iff}

realtime_not_denied :
    (contains denied_commands (lit "EXPIRE") ≡ false)
    × (contains denied_commands (lit "XADD") ≡ false)
    × (contains denied_commands (lit "XRANGE") ≡ false)
unfolding denied_commands contains lit list_eq list_beq
realtime_not_denied = (refl, refl, refl)

script_is_ratelimit : contains ratelimit_commands (lit "SCRIPT") ≡ true
unfolding ratelimit_commands contains lit list_eq list_beq
script_is_ratelimit = refl

-- The only hard-denied command of the realtime table is PUBLISH.
realtime_denied :
    (name : Str) → Mem name realtime_commands → Mem name denied_commands → name ≡ lit "PUBLISH"
unfolding realtime_commands contains
realtime_denied name r d = tested ((contains_iff _ _).1 r) ((contains_iff _ _).1 d)
  where
    tested :
        contains realtime_commands name ≡ true
        → contains denied_commands name ≡ true
        → name ≡ lit "PUBLISH"
    tested r d = ground (
      arith,
      realtime_not_denied,
      str_eq_iff name (lit "EXPIRE"),
      str_eq_iff name (lit "PUBLISH"),
      str_eq_iff name (lit "XADD"),
      str_eq_iff name (lit "XRANGE"),
    )

validate-head :
    {Number : Type 0} (a b : CommandArg Number) (rest : List (CommandArg Number))
    → validate_subcommand (a ∷ rest) ≡ validate_subcommand (b ∷ rest)
unfolding validate_subcommand check_subcommand
validate-head a b [] = refl
validate-head a b (sub ∷ rest) = refl

command_word_idem : (s : Str) → command_word (command_word s) ≡ command_word s
unfolding command_word
command_word_idem s = simp (trim-to_ascii_uppercase, trim_idem, to_ascii_uppercase_idem)

module _ {Number : Type 0} (number_to_string : Number → Str) (p : SecurityPolicy)
    (caps : TokenCaps) where
  -- Whatever the allowlist, an accepted command that is hard-denied is EVAL, EVALSHA or SCRIPT from a
  -- token with `ratelimit`, or PUBLISH from a token with `realtime`.
  pub accepted_denied :
      (array : List (CommandArg Number)) (cmd : RedisCommand)
      → parse_command number_to_string p array caps ≡ ok cmd
      → Mem cmd.name denied_commands
      → ((caps.ratelimit ≡ true) × Mem cmd.name (lit "EVAL" ∷ lit "EVALSHA" ∷ lit "SCRIPT" ∷ []))
        ⊎ ((caps.realtime ≡ true) × (cmd.name ≡ lit "PUBLISH"))
  unfolding ratelimit_commands
  accepted_denied array cmd h d =
      excepted ((parse_command_iff number_to_string p caps cmd array).0 h).screened
    where
      in_script : cmd.name ≡ lit "SCRIPT" → Mem cmd.name ratelimit_commands
      in_script e = rw e ((contains_iff _ _).0 script_is_ratelimit)

      excepted :
          IsScreened caps cmd.name array
          → ((caps.ratelimit ≡ true) × Mem cmd.name ratelimit_commands)
            ⊎ ((caps.realtime ≡ true) × (cmd.name ≡ lit "PUBLISH"))
      excepted (inl (n, r, call)) = inl (r, in_script n)
      excepted (inr (n, inl (inl rate))) = inl rate
      excepted (inr (n, inl (inr (r, m)))) = inr (r, realtime_denied cmd.name m d)
      excepted (inr (n, inr free)) = absurd (free d)

  -- Adding commands to the blocklist takes away those commands, and changes nothing else that is
  -- accepted.
  blocked_additive :
      (extra : List Str) (array : List (CommandArg Number)) (cmd : RedisCommand)
      → (parse_command number_to_string
            (record p { blocked_commands = p.blocked_commands ++ extra })
            array
            caps
          ≡ ok cmd)
        ↔ ((parse_command number_to_string p array caps ≡ ok cmd) × ¬ Mem cmd.name extra)
  blocked_additive extra array cmd =
      let wide = record p { blocked_commands = p.blocked_commands ++ extra } in
      let narrow_iff = parse_command_iff number_to_string p caps cmd array in
      let wide_iff = parse_command_iff number_to_string wide caps cmd array in
      (
        λ h.
            let a = wide_iff.0 h in
            (
              narrow_iff.1 (
                  Accepts-blocked wide p.blocked_commands
                    (λ m. a.not_blocked (mem-append.1 (Or.inl m))) a),
              λ m. a.not_blocked (mem-append.1 (Or.inr m)),
            ),
        λ (h, out).
            let a = narrow_iff.0 h in
            wide_iff.1 (
              Accepts-blocked p wide.blocked_commands
                (λ m. Or.elim ⊥_prop (mem-append.0 m) a.not_blocked out) a),
      )
    where
      Accepts-blocked :
          (q : SecurityPolicy) (blocked : List Str)
          → ¬ Mem cmd.name blocked
          → Accepts number_to_string q array caps cmd
          → Accepts number_to_string (record q { blocked_commands = blocked }) array caps cmd
      Accepts-blocked q blocked out a = record {
        first = a.first;
        rest = a.rest;
        array_is = a.array_is;
        name_is = a.name_is;
        has_name = a.has_name;
        arity = a.arity;
        screened = a.screened;
        permitted = a.permitted;
        not_blocked = out;
        args_sent = a.args_sent;
      }

  -- The spelling of a command name does not matter: white space around it and the case of its letters
  -- change neither the command nor the error.
  parse_command-command_word :
      (s : Str) (rest : List (CommandArg Number))
      → parse_command number_to_string p (string (command_word s) ∷ rest) caps
        ≡ parse_command number_to_string p (string s ∷ rest) caps
  unfolding parse_command parse_command_array as_command_name screen
  parse_command-command_word s rest =
      simp (command_word_idem, validate-head (string (command_word s)) (string s) rest)
