-- ===== src/App/Response/Limit.antt =====
-- The limit counts the whole response, however it is cut into chunks.
use mathlib.Core.List.{append_assoc, append-nil}
use rubix_redis_bridge.Prelude.{
  ℕ, ◌+◌, ◌≤◌, ◌<◌, ◌≡◌, ◌∙◌, refl, Bool, true, false, List, [], ◌∷◌, ◌++◌, ok, err, arith, ltb,
  length, length-append, if◌then◌else◌, dec_lt,
}
use rubix_redis_bridge.Text.{lit}
use rubix_redis_bridge.App.Response.{
  too_large, encode, LimitBody, new_body, write_all, to_writer, serialized_response,
}

abbrev pub joined : List (List ℕ) → List ℕ
joined [] = []
joined (chunk ∷ chunks) = chunk ++ joined chunks

-- A writer that has not refused anything.
record IsOpen (w : LimitBody) : Type 0 where
  within : w.written ≤ w.limit
  fine : w.exceeded ≡ false

write_all_fits :
    (w : LimitBody) (chunk : List ℕ)
    → IsOpen w
    → w.written + length chunk ≤ w.limit
    → write_all w chunk
      ≡ (true, record w { written = w.written + length chunk; body = w.body ++ chunk })
unfolding write_all
write_all_fits w [] v h = ground (arith, append-nil w.body)
write_all_fits w (b ∷ chunk) v h = ground (arith, v.within)

write_all_exceeds :
    (w : LimitBody) (chunk : List ℕ)
    → IsOpen w
    → w.limit < w.written + length chunk
    → write_all w chunk ≡ (false, record w { exceeded = true })
unfolding write_all
write_all_exceeds w [] v h = absurd (omega (arith, v.within))
write_all_exceeds w (b ∷ chunk) v h = ground (arith, v.within)

abbrev after : LimitBody → List ℕ → LimitBody
after w bytes = record w { written = w.written + length bytes; body = w.body ++ bytes }

to_writer_fits :
    (w : LimitBody) (chunks : List (List ℕ)) (fails : Bool)
    → IsOpen w
    → w.written + length (joined chunks) ≤ w.limit
    → to_writer w chunks fails ≡ ((if fails then false else true), after w (joined chunks))
unfolding to_writer
to_writer_fits w [] fails v h = ground (arith, append-nil w.body)
to_writer_fits w (chunk ∷ chunks) fails v h =
    let total = length-append chunk (joined chunks) in
    let w' = after w chunk in
    let here = write_all_fits w chunk v (omega (arith, total)) in
    let v' : IsOpen w' = record { within = omega (arith, total); fine = v.fine } in
    rw here (
      to_writer_fits w' chunks fails v' (omega (arith, total))
      ∙ ground (arith, total, append_assoc w.body chunk (joined chunks)))

to_writer_exceeds :
    (w : LimitBody) (chunks : List (List ℕ)) (fails : Bool)
    → IsOpen w
    → w.limit < w.written + length (joined chunks)
    → ((to_writer w chunks fails).0 ≡ false) × ((to_writer w chunks fails).1.exceeded ≡ true)
unfolding to_writer
to_writer_exceeds w [] fails v h = absurd (omega (arith, v.within))
to_writer_exceeds w (chunk ∷ chunks) fails v h =
    let total = length-append chunk (joined chunks) in
    elim (dec_lt w.limit (w.written + length chunk)) [
      | yes over ↦ rw (write_all_exceeds w chunk v over) (refl, refl)
      | no under ↦
          let v' : IsOpen (after w chunk) = record { within = omega arith; fine = v.fine } in
          rw (write_all_fits w chunk v (omega arith))
            (to_writer_exceeds (after w chunk) chunks fails v' (omega (arith, total)))
    ]

-- The response is decided by the total alone, however serde_json cuts the value into chunks: up to
-- the limit it is the whole body, or the encoding error if encoding fails, and over the limit it is
-- always "too large", without a body.
pub serialized_response_lem :
    (status : ℕ) (chunks : List (List ℕ)) (fails : Bool) (max_response_bytes : ℕ)
    → serialized_response status chunks fails max_response_bytes ≡ (
        if ltb max_response_bytes (length (joined chunks))
        then err (too_large max_response_bytes)
        else if fails
        then err encode
        else ok (record {
          status = status;
          content_type = lit "application/json";
          body = joined chunks;
        }))
unfolding serialized_response
serialized_response_lem status chunks fails m =
    let v : IsOpen (new_body m) = record { within = omega arith; fine = refl } in
    elim (dec_lt m (length (joined chunks))) [
      | yes over ↦ ground (arith, to_writer_exceeds (new_body m) chunks fails v (omega arith))
      | no under ↦ ground (arith, to_writer_fits (new_body m) chunks fails v (omega arith))
    ]
