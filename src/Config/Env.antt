-- ===== src/Config/Env.antt =====
-- src/config/env.rs: how settings are read from environment variables. `var` is `std::env::var`.
pub mod Reading
use Prim.Native.String.{String}
use rubix_redis_bridge.Prelude.{
  ℕ, ◌+◌, ◌-◌, ◌*◌, ◌^◌, Bool, true, false, not, ◌&&◌, ◌||◌, List, [], ◌∷◌, map, Option, none, some,
  Result, ok, err, insert_all, filter, is_empty, ltb, leb, ◌==◌, list_eq, nat_eq, if◌then◌else◌,
}
use rubix_redis_bridge.Text.{Str, lit, str_eq, split, trim, to_ascii_lowercase, to_ascii_uppercase}
use rubix_redis_bridge.Security.Types.{command_word}

-- `Result<String, VarError>`
pub data Variable : Type 0 where
  value : Str → Variable
  not_present not_unicode : Variable

pub data EnvError : Type 0 where
  invalid_value failed_to_read not_boolean : Str → EnvError

abbrev pub usize_bound : ℕ
usize_bound = 2 ^ 64

-- `str::parse::<usize>`: decimal digits, the number so far and its bound.
unfoldable pub parse_digits : ℕ → Str → Option ℕ
parse_digits n [] = some n
parse_digits n (c ∷ s) =
    let m = n * 10 + (c - b'0') in
    let rest = parse_digits m s in
    if leb b'0' c && (leb c b'9' && ltb m usize_bound) then rest else none

-- A sign `+` may come first.
unfoldable pub parse_usize : Str → Option ℕ
parse_usize [] = none
parse_usize (c ∷ s) =
    let signed = if is_empty s then none else parse_digits 0 s in
    let unsigned = parse_digits 0 (c ∷ s) in if c == b'+' then signed else unsigned

module _ {A : Type 0} (from_str : Str → Option A) (var : Str → Variable) where
  unfoldable pub parse_value : Str → Str → Result EnvError A
  parse_value key text = elim (from_str text) [ none ↦ err (invalid_value key) | some a ↦ ok a ]

  unfoldable pub parse_env_first : List Str → A → Result EnvError A
  parse_env_first [] default = ok default
  parse_env_first (key ∷ keys) default = elim (var key) [
    | value text ↦ parse_value key text
    | not_present ↦ parse_env_first keys default
    | not_unicode ↦ err (failed_to_read key)
  ]

  unfoldable pub parse_env_or_default : Str → A → Result EnvError A
  parse_env_or_default key default = elim (var key) [
    | value text ↦ parse_value key text
    | not_present ↦ ok default
    | not_unicode ↦ err (failed_to_read key)
  ]

unfoldable pub non_blank : Str → Bool
non_blank item = not (is_empty item)

unfoldable pub parse_csv : Str → List Str
parse_csv text = insert_all [] (filter non_blank (map command_word (split b',' text)))

unfoldable pub parse_command_list : List Str → List Str
parse_command_list commands = insert_all [] (filter non_blank (map command_word commands))

module _ (var : Str → Variable) where
  unfoldable pub parse_csv_env_first : List Str → Result EnvError (Option (List Str))
  parse_csv_env_first [] = ok none
  parse_csv_env_first (key ∷ keys) = elim (var key) [
    | value text ↦ ok (some (parse_csv text))
    | not_present ↦ parse_csv_env_first keys
    | not_unicode ↦ err (failed_to_read key)
  ]

  unfoldable pub parse_bool_env : Str → Bool → Result EnvError Bool
  parse_bool_env key default = elim (var key) [
    | value text ↦
        let word = to_ascii_lowercase (trim text) in
        if str_eq word (lit "1")
          || (str_eq word (lit "true") || (str_eq word (lit "yes") || str_eq word (lit "on")))
        then ok true
        else if str_eq word (lit "0")
            || (str_eq word (lit "false") || (str_eq word (lit "no") || str_eq word (lit "off")))
        then ok false
        else err (not_boolean key)
    | not_present ↦ ok default
    | not_unicode ↦ err (failed_to_read key)
  ]

  -- A variable that cannot be read counts as missing here.
  unfoldable pub env_first : List Str → Option Str
  env_first [] = none
  env_first (key ∷ keys) = elim (var key) [
    | value text ↦ some text
    | not_present ↦ env_first keys
    | not_unicode ↦ env_first keys
  ]

  unfoldable pub env_or : Str → Str → Str
  env_or key fallback = elim (var key) [
    | value text ↦ text
    | not_present ↦ fallback
    | not_unicode ↦ fallback
  ]
