-- ===== src/Security/Policy/Tests.antt =====
-- Each test of `parse_command_array` decides its part of `Accepts` (src/security).
use rubix_redis_bridge.Prelude.{
  ℕ, ◌≤◌, ◌≡◌, ◌≢◌, ◌↔◌, ◌⊎◌, ◌∙◌, sym, inl, inr, refl, true, false, List, [], ◌∷◌, Mem, ok,
  bail_if, ◌>>◌, arith, list_eq, list_beq, nat_eq, contains, contains_iff, length, ltb, is_empty,
  Bool-cases,
}
use rubix_redis_bridge.Text.{Str, lit, str_eq, str_eq_iff, encode}
use rubix_redis_bridge.Commands.{denied_commands, ratelimit_commands, realtime_commands}
use rubix_redis_bridge.Config.Token.{TokenCaps}
use rubix_redis_bridge.Security.Types.{
  CommandArg, string, number, bool, null, bool_to_string, to_arg_bytes, argument_too_large,
}
use rubix_redis_bridge.Security.Deny.{is_denied_command, reject_command}
use rubix_redis_bridge.Security.Script.{validate_subcommand}
use rubix_redis_bridge.Security.Script.Calls.{validate_subcommand_iff}
use rubix_redis_bridge.Security.Policy.{SecurityPolicy, screen, is_permitted}
use rubix_redis_bridge.Security.Policy.Accepts.{IsExcepted, IsPermitted, IsScreened, IsSentAs}

pub is_permitted_iff :
    (p : SecurityPolicy) (caps : TokenCaps) (name : Str)
    → (is_permitted p caps name ≡ true) ↔ IsPermitted p caps name
unfolding is_permitted
is_permitted_iff p caps name = ground (
  arith,
  contains_iff p.allowed_commands name,
  contains_iff ratelimit_commands name,
  contains_iff realtime_commands name,
)

pub is_denied_command_iff :
    (caps : TokenCaps) (name : Str)
    → (is_denied_command name caps.ratelimit caps.realtime ≡ false)
      ↔ (IsExcepted caps name ⊎ ¬ Mem name denied_commands)
unfolding is_denied_command
is_denied_command_iff caps name = ground (
  arith,
  contains_iff denied_commands name,
  contains_iff ratelimit_commands name,
  contains_iff realtime_commands name,
)

script_is_denied :
    (contains denied_commands (lit "SCRIPT") ≡ true)
    × (contains realtime_commands (lit "SCRIPT") ≡ false)
unfolding denied_commands realtime_commands contains lit list_eq list_beq
script_is_denied = (refl, refl)

pub reject_command_iff :
    (caps : TokenCaps) (name : Str)
    → (reject_command name caps.ratelimit caps.realtime ≡ ok tt)
      ↔ (IsExcepted caps name ⊎ ¬ Mem name denied_commands)
unfolding reject_command
reject_command_iff caps name = ground (arith, is_denied_command_iff caps name)

-- A token without `ratelimit` is refused SCRIPT.
script_rejected :
    (caps : TokenCaps)
    → caps.ratelimit ≡ false
    → reject_command (lit "SCRIPT") caps.ratelimit caps.realtime ≢ ok tt
unfolding reject_command is_denied_command
script_rejected caps h = ground (arith, script_is_denied)

module _ {Number : Type 0} (caps : TokenCaps) (name : Str) (array : List (CommandArg Number)) where
  screen_script :
      name ≡ lit "SCRIPT"
      → caps.ratelimit ≡ true
      → screen name caps array ≡ validate_subcommand array
  unfolding screen
  screen_script n r = ground (arith, str_eq_iff name (lit "SCRIPT"))

  screen_other :
      (name ≢ lit "SCRIPT") ⊎ (caps.ratelimit ≡ false)
      → screen name caps array ≡ reject_command name caps.ratelimit caps.realtime
  unfolding screen
  screen_other c = ground (arith, str_eq_iff name (lit "SCRIPT"))

  pub screen_sound : screen name caps array ≡ ok tt → IsScreened caps name array
  screen_sound h = elim (Bool-cases (str_eq name (lit "SCRIPT"))) [
    | inl same ↦
        let n = (str_eq_iff _ _).0 same in
        elim (Bool-cases caps.ratelimit) [
          | inl r ↦ inl (n, r, (validate_subcommand_iff array).0 (sym (screen_script n r) ∙ h))
          | inr r ↦ absurd (script_rejected caps r (rw n at (sym (screen_other (inr r)) ∙ h)))
        ]
    | inr differs ↦
        let n : name ≢ lit "SCRIPT" = λ e. ground (arith, str_eq_iff name (lit "SCRIPT")) in
        inr (n, (reject_command_iff caps name).0 (sym (screen_other (inl n)) ∙ h))
  ]

  pub screen_complete : IsScreened caps name array → screen name caps array ≡ ok tt
  screen_complete (inl (n, r, call)) = screen_script n r ∙ (validate_subcommand_iff array).1 call
  screen_complete (inr (n, kept)) = screen_other (inl n) ∙ (reject_command_iff caps name).1 kept

pub sent_iff :
    (max_arg_bytes : ℕ) (text : Str) (bytes : List ℕ)
    → ((bail_if (ltb max_arg_bytes (length (encode text))) (argument_too_large max_arg_bytes)
          >> ok (encode text))
        ≡ ok bytes)
      ↔ ((t : Str) × (t ≡ text) × (bytes ≡ encode t) × (length bytes ≤ max_arg_bytes))
sent_iff m text bytes =
    (λ h. (text, refl, ground arith, ground arith), λ (t, e, b, l). ground arith)

pub is_empty_of_ne : (s : Str) → s ≢ [] → is_empty s ≡ false
is_empty_of_ne [] h = absurd (h refl)
is_empty_of_ne (c ∷ s) h = refl

module _ {Number : Type 0} (number_to_string : Number → Str) where
  pub to_arg_bytes_iff :
      (max_arg_bytes : ℕ) (arg : CommandArg Number) (bytes : List ℕ)
      → (to_arg_bytes number_to_string max_arg_bytes arg ≡ ok bytes)
        ↔ IsSentAs number_to_string max_arg_bytes arg bytes
  unfolding to_arg_bytes
  to_arg_bytes_iff m (string value) bytes = sent_iff m value bytes
  to_arg_bytes_iff m (number value) bytes = sent_iff m (number_to_string value) bytes
  to_arg_bytes_iff m (bool value) bytes = sent_iff m (bool_to_string value) bytes
  to_arg_bytes_iff m null bytes = (λ h. absurd (ground (arith, h)), λ s. absurd s.1)
