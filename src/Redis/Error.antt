-- ===== src/Redis/Error.antt =====
-- src/redis/error.rs: what a client is told about an error of Redis. `RedisError` is the redis
-- crate's: the record holds the answers of the methods that the source calls.
use Prim.Native.String.{String}
use rubix_redis_bridge.Prelude.{
  Bool, true, false, ◌||◌, List, [], ◌∷◌, ◌++◌, Option, none, some, contains, list_eq, nat_eq,
  if◌then◌else◌,
}
use rubix_redis_bridge.Text.{Str, lit}
use rubix_redis_bridge.Text.Prefix.{strip_prefix, starts_with, split_once_at}
use rubix_redis_bridge.App.Error.{ApiError, text, bad_request, unavailable}
pub mod Classes

pub data ErrorKind : Type 0 where
  authentication_failed invalid_client_config other : ErrorKind

pub record RedisError : Type 0 where
  pub is_io_error : Bool
  pub is_connection_dropped : Bool
  pub is_connection_refusal : Bool
  pub is_timeout : Bool
  pub kind : ErrorKind
  pub code : Option Str
  pub to_string : Str

abbrev pub is_setup : ErrorKind → Bool
is_setup authentication_failed = true
is_setup invalid_client_config = true
is_setup other = false

abbrev pub down_codes : List Str
down_codes = lit "LOADING" ∷ lit "TRYAGAIN" ∷ lit "CLUSTERDOWN" ∷ lit "MASTERDOWN" ∷ []

unfoldable pub backend_unavailable : RedisError → Bool
backend_unavailable e =
    if e.is_io_error || (e.is_connection_dropped || (e.is_connection_refusal || e.is_timeout))
    then true
    else if is_setup e.kind
    then true
    else elim e.code [ none ↦ false | some code ↦ contains down_codes code ]

unfoldable pub strip_response_prefix : Str → Str
strip_response_prefix message = elim (strip_prefix (lit "ResponseError: ") message) [
  | none ↦ message
  | some rest ↦ rest
]

unfoldable pub with_code : Str → Str → Str
with_code code message =
    if starts_with code message then message else elim (split_once_at (lit ": ") message) [
      | some (before, detail) ↦ code ++ (lit " " ++ detail)
      | none ↦ code ++ (lit " " ++ message)
    ]

unfoldable pub redis_error_message : RedisError → Str
redis_error_message e = elim e.code [
  | some code ↦ with_code code (strip_response_prefix e.to_string)
  | none ↦ strip_response_prefix e.to_string
]

unfoldable pub redis_api_error : RedisError → ApiError
redis_api_error e =
    if backend_unavailable e
    then unavailable (text (lit "Redis backend unavailable"))
    else bad_request (text (redis_error_message e))
