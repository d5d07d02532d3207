-- ===== src/Config/Token.antt =====
-- src/config/token.rs: the capabilities of a bearer token.
pub mod Laws
use Prim.Native.String.{String}
use rubix_redis_bridge.Prelude.{
  Bool, true, false, not, ◌&&◌, ◌||◌, List, [], ◌∷◌, ◌++◌, map, Result, ok, err, ◌>>=◌, ◌>>◌,
  bail_if, is_empty, if◌then◌else◌,
}
use rubix_redis_bridge.Text.{Str, lit, str_eq, trim, to_ascii_lowercase, split, join}

pub record TokenCaps : Type 0 where
  pub command : Bool
  pub ratelimit : Bool
  pub realtime : Bool

-- The two `bail!`s of `parse`, with the key and the item that their messages print.
pub data TokenError : Type 0 where
  unsupported_token_type : Str → Str → TokenError
  no_token_type : Str → TokenError

-- `TokenCaps::command`, which is also `Default`
abbrev pub command_only : TokenCaps
command_only = record { command = true; ratelimit = false; realtime = false }

unfoldable pub no_caps : TokenCaps
no_caps = record { command = false; ratelimit = false; realtime = false }

-- One round of the loop of `parse`, on a trimmed item in lower case.
grant : Str → TokenCaps → Str → Result TokenError TokenCaps
grant key caps item =
    if is_empty item
    then ok caps
    else if str_eq item (lit "command")
    then ok (record caps { command = true })
    else if str_eq item (lit "ratelimit")
    then ok (record caps { ratelimit = true })
    else if str_eq item (lit "realtime")
    then ok (record caps { realtime = true })
    else err (unsupported_token_type key item)

grant_all : Str → TokenCaps → List Str → Result TokenError TokenCaps
grant_all key caps [] = ok caps
grant_all key caps (item ∷ items) = do
  caps' ← grant key caps (to_ascii_lowercase (trim item))
  grant_all key caps' items

unfoldable pub allows_command_route : TokenCaps → Bool
allows_command_route caps = caps.command || (caps.ratelimit || caps.realtime)

unfoldable pub parse : Str → Str → Result TokenError TokenCaps
unfolding grant grant_all no_caps
parse value key = do
  caps ← grant_all key no_caps (split b',' value)
  bail_if (not caps.command && (not caps.ratelimit && not caps.realtime)) (no_token_type key)
  ok caps

values_of : Bool → Str → List Str
values_of true name = name ∷ []
values_of false name = []

unfoldable pub config_value : TokenCaps → Str
unfolding values_of
config_value caps = join (lit ",") (
    values_of caps.command (lit "command")
    ++ (values_of caps.ratelimit (lit "ratelimit") ++ values_of caps.realtime (lit "realtime")))
