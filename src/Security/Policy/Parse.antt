-- ===== src/Security/Policy/Parse.antt =====
-- `parse_command` implements `Accepts` (src/security/policy.rs).
use rubix_redis_bridge.Prelude.{
  suc, ◌≡◌, ◌↔◌, refl, true, false, List, [], ◌∷◌, ok, collect, collect_iff, arith, list_eq, nat_eq,
  contains, contains-eq-false_iff, length, ltb, is_empty,
}
use rubix_redis_bridge.Text.{Str}
use rubix_redis_bridge.Config.Token.{TokenCaps}
use rubix_redis_bridge.Security.Types.{
  CommandArg, string, RedisCommand, as_command_name, command_word, to_arg_bytes,
}
use rubix_redis_bridge.Security.Policy.{
  SecurityPolicy, saturating_add, screen, is_permitted, parse_command_array, parse_command,
}
use rubix_redis_bridge.Security.Policy.Accepts.{Accepts}
use rubix_redis_bridge.Security.Policy.Tests.{
  is_permitted_iff, screen_sound, screen_complete, to_arg_bytes_iff, is_empty_of_ne,
}

module _ {Number : Type 0} (number_to_string : Number → Str) where
  module _ (p : SecurityPolicy) (caps : TokenCaps) (cmd : RedisCommand) where
    -- The tests that an accepted array has passed, in the order of the code.
    parse_tests :
        (s : Str) (rest : List (CommandArg Number))
        → parse_command_array number_to_string p (string s ∷ rest) caps ≡ ok cmd
        → (ltb (saturating_add p.max_command_args 1) (suc (length rest)) ≡ false)
          × (is_empty (command_word s) ≡ false)
          × (screen (command_word s) caps (string s ∷ rest) ≡ ok tt)
          × (is_permitted p caps (command_word s) ≡ true)
          × (contains p.blocked_commands (command_word s) ≡ false)
          × (collect (to_arg_bytes number_to_string p.max_arg_bytes) rest ≡ ok cmd.args)
          × (cmd.name ≡ command_word s)
    unfolding parse_command_array as_command_name
    parse_tests s rest h = ground arith

    parse_of_tests :
        (s : Str) (rest : List (CommandArg Number))
        → ltb (saturating_add p.max_command_args 1) (suc (length rest)) ≡ false
        → is_empty (command_word s) ≡ false
        → screen (command_word s) caps (string s ∷ rest) ≡ ok tt
        → is_permitted p caps (command_word s) ≡ true
        → contains p.blocked_commands (command_word s) ≡ false
        → collect (to_arg_bytes number_to_string p.max_arg_bytes) rest ≡ ok cmd.args
        → cmd.name ≡ command_word s
        → parse_command_array number_to_string p (string s ∷ rest) caps ≡ ok cmd
    unfolding parse_command_array as_command_name
    parse_of_tests s rest a b c d e f g = ground arith

    parse_string_sound :
        (s : Str) (rest : List (CommandArg Number))
        → parse_command_array number_to_string p (string s ∷ rest) caps ≡ ok cmd
        → Accepts number_to_string p (string s ∷ rest) caps cmd
    parse_string_sound s rest h =
        let (fits, named, screened, permitted, unblocked, sent, name_is) = parse_tests s rest h in
        record {
          first = s;
          rest = rest;
          array_is = refl;
          name_is = name_is;
          has_name = λ e. ground (arith, named, name_is, e);
          arity = ground (arith, fits);
          screened = rw name_is (screen_sound caps _ _ screened);
          permitted = rw name_is ((is_permitted_iff p caps _).0 permitted);
          not_blocked =
              rw name_is ((contains-eq-false_iff p.blocked_commands (command_word s)).0 unblocked);
          args_sent =
              (collect_iff _ (to_arg_bytes_iff number_to_string p.max_arg_bytes) rest cmd.args).0
                sent;
        }

    parse_command_array_sound :
        (array : List (CommandArg Number))
        → parse_command_array number_to_string p array caps ≡ ok cmd
        → Accepts number_to_string p array caps cmd
    unfolding parse_command_array as_command_name
    parse_command_array_sound [] h = absurd (ground arith)
    parse_command_array_sound (string s ∷ rest) h = parse_string_sound s rest h
    parse_command_array_sound (_ ∷ rest) h = absurd (ground arith)

    parse_command_array_complete :
        (array : List (CommandArg Number))
        → Accepts number_to_string p array caps cmd
        → parse_command_array number_to_string p array caps ≡ ok cmd
    parse_command_array_complete array a = rw a.array_is (
        parse_of_tests a.first a.rest (ground (arith, a.arity, a.array_is))
          (is_empty_of_ne (command_word a.first) (rw (← a.name_is) a.has_name))
          (screen_complete caps _ _ (rw (← a.name_is, ← a.array_is) a.screened))
          ((is_permitted_iff p caps _).1 (rw (← a.name_is) a.permitted))
          ((contains-eq-false_iff p.blocked_commands _).1 (rw (← a.name_is) a.not_blocked))
          ((collect_iff _ (to_arg_bytes_iff number_to_string p.max_arg_bytes) a.rest cmd.args).1
            a.args_sent)
          a.name_is)

    -- A command array is accepted exactly if its first item is a text that names a command, it is not
    -- too long, a SCRIPT call has a permitted form, the command is not hard-denied or is excepted for
    -- the token, a capability of the token covers it, it is not blocked, and no argument is null or
    -- too large; what is sent is then the upper-case name and the arguments' UTF-8 bytes in order.
    pub parse_command_iff :
        (array : List (CommandArg Number))
        → (parse_command number_to_string p array caps ≡ ok cmd)
          ↔ Accepts number_to_string p array caps cmd
    unfolding parse_command
    parse_command_iff array = (parse_command_array_sound array, parse_command_array_complete array)
