-- ===== src/App/Response.antt =====
-- src/app/response.rs: responses under a size limit. serde_json writes a value as a sequence of chunks,
-- and may then fail to encode the rest.
pub mod Limit
use Prim.Native.String.{String}
use rubix_redis_bridge.Prelude.{
  ℕ, ◌+◌, ◌-◌, Bool, true, false, List, [], ◌∷◌, ◌++◌, Result, ok, err, ltb, length, if◌then◌else◌,
}
use rubix_redis_bridge.Text.{Str, lit}
use rubix_redis_bridge.App.Error.{ApiError, text, response_over, response_too_large, unavailable}

pub data ResponseError : Type 0 where
  too_large : ℕ → ResponseError
  encode : ResponseError

unfoldable pub metric_reason : ResponseError → Str
metric_reason (too_large max_response_bytes) = lit "response_too_large"
metric_reason encode = lit "response_encode"

unfoldable pub into_api_error : ResponseError → ApiError
into_api_error (too_large max_response_bytes) =
    response_too_large (response_over max_response_bytes)
into_api_error encode = unavailable (text (lit "Failed to encode Redis response"))

pub record LimitBody : Type 0 where
  pub body : List ℕ
  pub written : ℕ
  pub limit : ℕ
  pub exceeded : Bool

abbrev pub new_body : ℕ → LimitBody
new_body limit = record { body = []; written = 0; limit = limit; exceeded = false }

-- `write`: whether the chunk was taken, and the writer.
unfoldable pub write : LimitBody → List ℕ → Bool × LimitBody
write w buf =
    if ltb (w.limit - w.written) (length buf)
    then (false, record w { exceeded = true })
    else (true, record w { written = w.written + length buf; body = w.body ++ buf })

-- `Write::write_all`, which does not call `write` on no bytes.
unfoldable pub write_all : LimitBody → List ℕ → Bool × LimitBody
unfolding write
write_all w [] = (true, w)
write_all w (b ∷ buf) = write w (b ∷ buf)

-- `serde_json::to_writer`: the first failed write ends it, and so does an encoding error.
unfoldable pub to_writer : LimitBody → List (List ℕ) → Bool → Bool × LimitBody
to_writer w [] fails = (if fails then false else true, w)
to_writer w (chunk ∷ chunks) fails =
    let (taken, w') = write_all w chunk in
    let rest = to_writer w' chunks fails in if taken then rest else (false, w')

pub record Response : Type 0 where
  pub status : ℕ
  pub content_type : Str
  pub body : List ℕ

unfoldable pub serialized_response : ℕ → List (List ℕ) → Bool → ℕ → Result ResponseError Response
serialized_response status chunks fails max_response_bytes =
    let (done, writer) = to_writer (new_body max_response_bytes) chunks fails in
    if done
    then ok (record { status = status; content_type = lit "application/json"; body = writer.body })
    else if writer.exceeded
    then err (too_large max_response_bytes)
    else err encode
