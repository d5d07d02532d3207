-- ===== src/App/Error.antt =====
-- src/app/error.rs: the errors that reach a client. A message is kept as the source's format string,
-- with the values that it prints.
use rubix_redis_bridge.Prelude.{ℕ}
use rubix_redis_bridge.Text.{Str}
use rubix_redis_bridge.Security.Types.{PolicyError}

pub data Message : Type 0 where
  text : Str → Message
  policy : PolicyError → Message
  response_over : ℕ → Message
  channel_over : ℕ → Message

pub record ApiError : Type 0 where
  pub status : ℕ
  pub message : Message

-- The constructors of `ApiError`, with the codes of `StatusCode`.
abbrev pub bad_request : Message → ApiError
bad_request m = record { status = 400; message = m }

abbrev pub unauthorized : Message → ApiError
unauthorized m = record { status = 401; message = m }

abbrev pub forbidden : Message → ApiError
forbidden m = record { status = 403; message = m }

abbrev pub too_many_requests : Message → ApiError
too_many_requests m = record { status = 429; message = m }

abbrev pub response_too_large : Message → ApiError
response_too_large m = record { status = 502; message = m }

abbrev pub unavailable : Message → ApiError
unavailable m = record { status = 503; message = m }

abbrev pub timeout : Message → ApiError
timeout m = record { status = 504; message = m }
