-- ===== src/Examples/Policy.antt =====
-- The command policy and the token capabilities at concrete inputs.
use rubix_redis_bridge.Prelude.{
  ◌≤◌, ◌≡◌, ◌⊎◌, refl, true, false, List, [], ◌∷◌, Mem, ok, contains, list_eq, list_beq, nat_eq,
  contains_iff, collect, All, Forall₂,
}
use rubix_redis_bridge.Text.{
  Str, lit, split, is_whitespace, to_ascii_lowercase, to_ascii_uppercase, to_upper, to_lower, trim,
  trim_start, trim_end, encode, encode_char, eq_ignore_ascii_case,
}
use rubix_redis_bridge.Commands.{denied_commands, ratelimit_commands, realtime_commands}
use rubix_redis_bridge.Config.Token.{TokenCaps, parse, config_value, allows_command_route}
use rubix_redis_bridge.Config.Token.Laws.{config_value-parse}
use rubix_redis_bridge.Security.Types.{
  CommandArg, string, number, bool, RedisCommand, command_word, as_command_name, to_arg_bytes,
  bool_to_string,
}
use rubix_redis_bridge.Security.Deny.{is_denied_command, reject_command}
use rubix_redis_bridge.Security.Script.{validate_subcommand, check_subcommand, check_mode, word_of}
use rubix_redis_bridge.Security.Script.Calls.{ScriptCall, validate_subcommand_iff}
use rubix_redis_bridge.Security.Policy.{
  SecurityPolicy, saturating_add, screen, is_permitted, parse_command_array, parse_command,
  parse_command_list,
}
use rubix_redis_bridge.Security.Policy.Accepts.{Accepts}
use rubix_redis_bridge.Security.Policy.Parse.{parse_command_iff}
use rubix_redis_bridge.Security.Policy.Boundary.{accepted_denied}
use rubix_redis_bridge.Prelude.{◌≢◌, filter}
use rubix_redis_bridge.Security.Policy.{validate}
use rubix_redis_bridge.Security.Policy.Validate.{validate_iff}
use rubix_redis_bridge.Security.Policy.Batches.{parse_command_list_iff}

abbrev policy : SecurityPolicy
policy = record {
  allowed_commands = lit "GET" ∷ lit "SET" ∷ [];
  blocked_commands = lit "SET" ∷ [];
  max_pipeline_commands = 2;
  max_command_args = 3;
  max_arg_bytes = 16;
}

abbrev all_caps : TokenCaps
all_caps = record { command = true; ratelimit = true; realtime = true }

abbrev get_key : List (CommandArg Str)
get_key = string (lit " get") ∷ number (lit "7") ∷ []

abbrev get_key_command : RedisCommand
get_key_command = record { name = lit "GET"; args = lit "7" ∷ [] }

abbrev eval_call : List (CommandArg Str)
eval_call = string (lit "eval") ∷ bool true ∷ []

abbrev eval_command : RedisCommand
eval_command = record { name = lit "EVAL"; args = lit "true" ∷ [] }

abbrev same : Str → Str
same text = text

get_key_accepted : parse_command same policy get_key all_caps ≡ ok get_key_command
unfolding parse_command parse_command_array as_command_name command_word trim trim_start trim_end
    is_whitespace to_ascii_uppercase to_upper lit screen reject_command is_denied_command
    is_permitted contains list_eq list_beq ratelimit_commands realtime_commands denied_commands
    saturating_add collect to_arg_bytes encode encode_char bool_to_string
get_key_accepted = refl

eval_accepted : parse_command same policy eval_call all_caps ≡ ok eval_command
unfolding parse_command parse_command_array as_command_name command_word trim trim_start trim_end
    is_whitespace to_ascii_uppercase to_upper lit screen reject_command is_denied_command
    is_permitted contains list_eq list_beq ratelimit_commands realtime_commands denied_commands
    saturating_add collect to_arg_bytes encode encode_char bool_to_string
eval_accepted = refl

parse_command_iff_example : Accepts same policy get_key all_caps get_key_command
parse_command_iff_example =
    (parse_command_iff same policy all_caps get_key_command get_key).0 get_key_accepted

get_is_free : contains (lit "EVAL" ∷ []) (lit "GET") ≡ false
unfolding lit contains list_eq list_beq
get_is_free = refl

eval_is_denied : contains denied_commands (lit "EVAL") ≡ true
unfolding lit contains list_eq list_beq denied_commands
eval_is_denied = refl

accepted_denied_example :
    ((all_caps.ratelimit ≡ true)
      × Mem eval_command.name (lit "EVAL" ∷ lit "EVALSHA" ∷ lit "SCRIPT" ∷ []))
    ⊎ ((all_caps.realtime ≡ true) × (eval_command.name ≡ lit "PUBLISH"))
accepted_denied_example =
    accepted_denied same policy all_caps eval_call eval_command eval_accepted
      ((contains_iff denied_commands (lit "EVAL")).0 eval_is_denied)

batch_accepted :
    parse_command_list same policy (get_key ∷ eval_call ∷ []) all_caps
    ≡ ok (get_key_command ∷ eval_command ∷ [])
unfolding parse_command_list parse_command_array as_command_name command_word trim trim_start
    trim_end is_whitespace to_ascii_uppercase to_upper lit screen reject_command is_denied_command
    is_permitted contains list_eq list_beq ratelimit_commands realtime_commands denied_commands
    saturating_add collect to_arg_bytes encode encode_char bool_to_string
batch_accepted = refl

parse_command_list_iff_example :
    (2 ≤ policy.max_pipeline_commands)
    × Forall₂
        (λ array cmd. Accepts same policy array all_caps cmd)
        (get_key ∷ eval_call ∷ [])
        (get_key_command ∷ eval_command ∷ [])
parse_command_list_iff_example =
    (parse_command_list_iff same policy all_caps (get_key ∷ eval_call ∷ [])
        (get_key_command ∷ eval_command ∷ [])).0
      batch_accepted

abbrev flush_call : List (CommandArg Str)
flush_call = string (lit "SCRIPT") ∷ string (lit "flush") ∷ string (lit "async") ∷ []

flush_validated : validate_subcommand flush_call ≡ ok tt
unfolding validate_subcommand check_subcommand check_mode word_of as_command_name trim trim_start
    trim_end is_whitespace to_ascii_uppercase to_upper lit list_eq list_beq eq_ignore_ascii_case
    command_word
flush_validated = refl

validate_subcommand_iff_example : ScriptCall flush_call
validate_subcommand_iff_example = (validate_subcommand_iff flush_call).0 flush_validated

config_value-parse_example : parse (config_value all_caps) (lit "key") ≡ ok all_caps
config_value-parse_example =
    config_value-parse all_caps (lit "key") (unfold allows_command_route in refl)

abbrev realtime_only : TokenCaps
realtime_only = record { command = false; ratelimit = false; realtime = true }

realtime_parsed : parse (lit " Realtime,,realtime") (lit "key") ≡ ok realtime_only
unfolding parse split lit trim trim_start trim_end is_whitespace to_ascii_lowercase to_lower list_eq
    list_beq allows_command_route
realtime_parsed = refl

policy_validated : validate policy ≡ ok tt
unfolding validate is_denied_command contains list_eq list_beq lit denied_commands filter
policy_validated = refl

validate_iff_example :
    (policy.allowed_commands ≢ [])
    × All (λ name. ¬ Mem name denied_commands) policy.allowed_commands
validate_iff_example = (validate_iff policy).0 policy_validated
