-- ===== src/Examples/Streams.antt =====
-- The streams of two clients: one that reconnects, and one that comes and goes.
use rubix_redis_bridge.Prelude.{
  ◌≡◌, refl, List, [], ◌∷◌, ◌++◌, map, take, Option, none, some, ok, err, arith,
}
use rubix_redis_bridge.Text.{Str, lit, encode, encode_char, utf8_len}
use rubix_redis_bridge.Text.Utf8.{from_utf8}
use rubix_redis_bridge.Redis.Wait.{Wait, after}
use rubix_redis_bridge.App.Realtime.{is_unsupported, validate_channel}
use rubix_redis_bridge.App.Realtime.Stream.{
  Msg, message_event, Messages, RealtimeClient, Attempt, events,
}
use rubix_redis_bridge.App.Realtime.Stream.Delivery.{Ends, Sessions, reached, events_in_order}
use rubix_redis_bridge.App.Realtime.Stream.Resumes.{Resumes, poll-Resumes}
use rubix_redis_bridge.App.Realtime.Stream.Format.{fields, event_fields_are}
use rubix_redis_bridge.Text.Utf8.Lossy.{ReadsAs}
use rubix_redis_bridge.Text.Utf8.{from_utf8}
use rubix_redis_bridge.Examples.Execution.{stop_at, stopwatch}

abbrev said : Str → Msg
said text = record { channel = lit "news"; payload = text }

-- A subscription is the list of the messages that it still gives.
abbrev next_of : List Msg → Wait (Option (Msg × List Msg))
next_of [] = after 7 none
next_of (message ∷ messages) = after 2 (some (message, messages))

abbrev redis : RealtimeClient (List Msg)
redis = record { next = next_of; request_timeout = 50 }

-- The first attempt fails, the second one takes too long, the third one succeeds.
abbrev attempts : List (Attempt (List Msg))
attempts =
    after 10 (err tt)
    ∷ after 60 (ok (said (lit "late") ∷ []))
    ∷ after 5 (ok (said (lit "two") ∷ said (lit "three") ∷ []))
    ∷ []

abbrev messages : Messages (List Msg)
messages = record {
  current = some (said (lit "one") ∷ []);
  permit = 1;
  connection_guard = record { target = lit "t" };
  backoff = 250;
}

-- After an outage, the message `two` is the next one.
abbrev lost : Messages (List Msg)
lost = record {
  current = none;
  permit = 1;
  connection_guard = record { target = lit "t" };
  backoff = 4000;
}

events_in_order_example :
    (events redis 4 attempts messages).0
    ≡ take 4 (map message_event (said (lit "one") ∷ said (lit "two") ∷ said (lit "three") ∷ []))
unfolding reached stop_at Sessions Ends
events_in_order_example =
    events_in_order redis 4 attempts messages
      (said (lit "one") ∷ said (lit "two") ∷ said (lit "three") ∷ [])
      (
        said (lit "one") ∷ [],
        said (lit "two") ∷ said (lit "three") ∷ [],
        (2, [], refl, (7, refl)),
        (
          said (lit "two") ∷ said (lit "three") ∷ [],
          [],
          (2, said (lit "three") ∷ [], refl, (2, [], refl, (7, refl))),
          refl,
          refl,
        ),
        refl,
      )

poll-Resumes_example : Resumes redis attempts 7 lost (said (lit "two")) (said (lit "three") ∷ [])
unfolding reached stop_at Sessions Ends
poll-Resumes_example =
    poll-Resumes redis attempts 7 lost (said (lit "two")) (said (lit "three") ∷ [])
      (record { least = omega arith; most = omega arith })
      (
        said (lit "two") ∷ said (lit "three") ∷ [],
        [],
        (2, said (lit "three") ∷ [], refl, (2, [], refl, (7, refl))),
        refl,
        refl,
      )

event_fields_are_example :
    (content : Str) × (fields (message_event (said (lit "a,b")))
      ≡ some (lit "message", lit "news", content))
    × ReadsAs (from_utf8 (lit "a,b")) content
    × (fields (lit "subscribe," ++ (lit "news" ++ lit ",1"))
        ≡ some (lit "subscribe", lit "news", lit "1"))
unfolding validate_channel is_unsupported encode encode_char utf8_len lit
event_fields_are_example = event_fields_are (said (lit "a,b")) 16 refl
