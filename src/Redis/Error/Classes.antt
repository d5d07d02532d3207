-- ===== src/Redis/Error/Classes.antt =====
-- The two classes of errors, and the text of the second (src/redis/error.rs).
use rubix_redis_bridge.Prelude.{
  ◌≡◌, ◌⊎◌, refl, inl, inr, true, false, ◌++◌, Option, none, some, Mem, arith, Bool-cases,
  Option-cases, contains_iff, list_eq, nat_eq, if◌then◌else◌, contains,
}
use rubix_redis_bridge.Text.{Str, lit}
use rubix_redis_bridge.Text.Prefix.{strip_prefix, split_once_at, strip_prefix_sound}
use rubix_redis_bridge.App.Error.{text, bad_request, unavailable}
use rubix_redis_bridge.Redis.Error.{
  ErrorKind, authentication_failed, invalid_client_config, other, RedisError, down_codes,
  backend_unavailable, with_code, strip_response_prefix, redis_error_message, redis_api_error,
  is_setup,
}

-- The error says that Redis cannot be used now: the connection failed, the bridge could not log in, or
-- Redis gives one of four codes.
pub data IsDown (e : RedisError) : Type 0 where
  io : e.is_io_error ≡ true → IsDown e
  dropped : e.is_connection_dropped ≡ true → IsDown e
  refused : e.is_connection_refusal ≡ true → IsDown e
  late : e.is_timeout ≡ true → IsDown e
  login : e.kind ≡ authentication_failed → IsDown e
  config : e.kind ≡ invalid_client_config → IsDown e
  told : {code : Str} → e.code ≡ some code → Mem code down_codes → IsDown e

backend_unavailable-of : (e : RedisError) → IsDown e → backend_unavailable e ≡ true
unfolding backend_unavailable
backend_unavailable-of e (io h) = ground (arith, h)
backend_unavailable-of e (dropped h) = ground (arith, h)
backend_unavailable-of e (refused h) = ground (arith, h)
backend_unavailable-of e (late h) = ground (arith, h)
backend_unavailable-of e (login h) = ground (arith, h)
backend_unavailable-of e (config h) = ground (arith, h)
backend_unavailable-of e (told {code} h m) =
    let found = (contains_iff down_codes code).1 m in ground (arith, h, found)

is_down : (e : RedisError) → backend_unavailable e ≡ true → IsDown e
unfolding backend_unavailable
is_down e h = elim (Bool-cases e.is_io_error) [
  | inl y ↦ io y
  | inr a ↦ elim (Bool-cases e.is_connection_dropped) [
    | inl y ↦ dropped y
    | inr b ↦ elim (Bool-cases e.is_connection_refusal) [
      | inl y ↦ refused y
      | inr c ↦ elim (Bool-cases e.is_timeout) [
        | inl y ↦ late y
        | inr d ↦ by_reply (ground (arith, a, b, c, d))
      ]
    ]
  ]
]
  where
    by_code :
        (o : Option Str)
        → e.code ≡ o
        → (elim o [ none ↦ false | some code ↦ contains down_codes code ]) ≡ true
        → IsDown e
    by_code none eq k = cc
    by_code (some code) eq k = told eq ((contains_iff down_codes code).0 k)

    by_kind :
        (kind : ErrorKind)
        → e.kind ≡ kind
        → (if is_setup kind
            then true
            else elim e.code [ none ↦ false | some code ↦ contains down_codes code ])
          ≡ true
        → IsDown e
    by_kind authentication_failed eq k = login eq
    by_kind invalid_client_config eq k = config eq
    by_kind other eq k = by_code e.code refl k

    by_reply :
        (if is_setup e.kind
            then true
            else elim e.code [ none ↦ false | some code ↦ contains down_codes code ])
          ≡ true
        → IsDown e
    by_reply k = by_kind e.kind refl k

with_code-starts : (code message : Str) → (rest : Str) × (with_code code message ≡ code ++ rest)
unfolding with_code
with_code-starts code message = elim (Option-cases (strip_prefix code message)) [
  | inr (rest, e) ↦ (rest, ground (arith, strip_prefix_sound code message rest e))
  | inl e ↦ elim (Option-cases (split_once_at (lit ": ") message)) [
    | inl f ↦ (lit " " ++ message, ground arith)
    | inr ((before, detail), f) ↦ (lit " " ++ detail, ground arith)
  ]
]

-- An error of Redis is answered in exactly one of two ways. If it says that Redis cannot be used now,
-- the answer is 503 with a fixed text, so that none of the error reaches the client. Otherwise the
-- answer is 400 with the error's text, and that text starts with the error's code if it has one.
pub redis_api_error_classes :
    (e : RedisError)
    → (IsDown e × (redis_api_error e ≡ unavailable (text (lit "Redis backend unavailable"))))
      ⊎ ((¬ IsDown e)
          × (redis_api_error e ≡ bad_request (text (redis_error_message e)))
          × ((code : Str)
              → e.code ≡ some code
              → (rest : Str) × (redis_error_message e ≡ code ++ rest)))
unfolding redis_api_error redis_error_message
redis_api_error_classes e = elim (Bool-cases (backend_unavailable e)) [
  | inl down ↦ inl (is_down e down, rw down refl)
  | inr up ↦ inr (
    λ down. absurd (ground (arith, backend_unavailable-of e down)),
    rw up refl,
    λ code h.
        let (rest, starts) = with_code-starts code (strip_response_prefix e.to_string) in
        (rest, rw h starts),
  )
]
