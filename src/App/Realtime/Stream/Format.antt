-- ===== src/App/Realtime/Stream/Format.antt =====
-- How a client reads the events of src/app/realtime.rs: three fields, the last of which may hold commas.
use rubix_redis_bridge.Prelude.{
  ℕ, ◌≡◌, refl, Bool, false, [], ◌∷◌, ◌++◌, Option, none, some, ok, ◌==◌, All, arith,
}
use rubix_redis_bridge.Text.{Str, lit, split_once}
use rubix_redis_bridge.Text.Splitting.{split_once_iff}
use rubix_redis_bridge.Text.Utf8.{from_utf8}
use rubix_redis_bridge.Text.Utf8.Lossy.{from_utf8_lossy, ReadsAs, from_utf8_lossy-ReadsAs}
use rubix_redis_bridge.App.Realtime.{is_unsupported, validate_channel}
use rubix_redis_bridge.App.Realtime.Opens.{validate_channel_iff}
use rubix_redis_bridge.App.Realtime.Stream.{Msg, message_event}

abbrev is_comma : ℕ → Bool
is_comma c = c == b','

-- The kind of an event, its channel, and what follows.
unfoldable pub fields : Str → Option (Str × Str × Str)
fields text = elim (split_once is_comma text) [
  | none ↦ none
  | some (kind, rest) ↦ elim (split_once is_comma rest) [
    | none ↦ none
    | some (channel, content) ↦ some (kind, channel, content)
  ]
]

split_once-comma :
    (before after : Str)
    → All (λ c. is_comma c ≡ false) before
    → split_once is_comma (before ++ b',' ∷ after) ≡ some (before, after)
split_once-comma before after h =
    (split_once_iff is_comma (before ++ b',' ∷ after) before after).1
      (record { separator = b','; passes = refl; first = h; text_is = refl })

no_commas :
    (channel : Str)
    → All (λ c. is_unsupported c ≡ false) channel
    → All (λ c. is_comma c ≡ false) channel
unfolding is_unsupported
no_commas [] h = tt
no_commas (c ∷ channel) h = (ground (arith, h.0), no_commas channel h.1)

fields-join :
    (kind channel content : Str)
    → All (λ c. is_comma c ≡ false) kind
    → All (λ c. is_unsupported c ≡ false) channel
    → fields (kind ++ b',' ∷ (channel ++ b',' ∷ content)) ≡ some (kind, channel, content)
unfolding fields
fields-join kind channel content k c =
    rw (fields, split_once-comma kind (channel ++ b',' ∷ content) k)
      (rw (split_once-comma channel content (no_commas channel c)) refl)

-- A channel that `subscribe` accepts cannot forge a field. In the event of a message on it, whatever
-- its payload, the client reads the kind, exactly this channel, and a content that may hold commas:
-- the text whose UTF-8 form the payload is, or, if it is that of none, a text with U+FFFD in it. The
-- first event of the stream is read back as the subscription to this channel.
pub event_fields_are :
    (message : Msg) (max_bytes : ℕ)
    → validate_channel message.channel max_bytes ≡ ok tt
    → (content : Str) × (fields (message_event message)
        ≡ some (lit "message", message.channel, content))
      × ReadsAs (from_utf8 message.payload) content
      × (fields (lit "subscribe," ++ (message.channel ++ lit ",1"))
          ≡ some (lit "subscribe", message.channel, lit "1"))
unfolding message_event lit
event_fields_are message max_bytes valid =
    let channel = (validate_channel_iff message.channel max_bytes).0 valid in
    let content = from_utf8_lossy message.payload in
    (
      content,
      fields-join (lit "message") message.channel content (ground arith) channel.supported,
      from_utf8_lossy-ReadsAs message.payload,
      fields-join (lit "subscribe") message.channel (lit "1") (ground arith) channel.supported,
    )
