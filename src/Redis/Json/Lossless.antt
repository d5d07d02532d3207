-- ===== src/Redis/Json/Lossless.antt =====
-- A client can read a reply of nulls, integers, bulk strings and arrays of these back (src/redis/value.rs).
use rubix_redis_bridge.Prelude.{
  ℕ, ◌≡◌, inl, inr, refl, Bool, List, Option, none, some, list_eq, list_beq, nat_eq, Option-cases,
  Bool-cases, if◌then◌else◌,
}
use rubix_redis_bridge.Text.{Str, lit, str_eq, encode}
use rubix_redis_bridge.Text.Utf8.{from_utf8, from_utf8_sound}
use rubix_redis_bridge.Redis.Value.{
  Value, nil, okay, unsupported, int, bulk_string, array, simple_string, map, set, double, boolean,
  big_number, attribute, verbatim_string, push, server_error, Values, none_left, value,
}
use rubix_redis_bridge.Redis.Json.{
  Json, null, bool, integer, float, str, arr, obj, Items, no_item, item, Members, end, member,
  serialize_bytes, serialize_redis, serialize_array,
}

-- The data of the RESP2 protocol.
abbrev mutual
  pub IsData : Value → Type 0
  IsData nil = Unit
  IsData (int n) = Unit
  IsData (bulk_string bytes) = Unit
  IsData (array values) = AreData values
  IsData v = ⊥

  pub AreData : Values → Type 0
  AreData none_left = Unit
  AreData (value v values) = IsData v × AreData values

-- A client's reader, which knows whether it asked for base64; `unbase64` is its decoder.
module _ (unbase64 : Str → Option (List ℕ)) (base64_encoding : Bool) where
  abbrev pub bulk : Option (List ℕ) → Option Value
  bulk none = none
  bulk (some bytes) = some (bulk_string bytes)

  unfoldable pub read_text : Str → Option Value
  read_text text =
      if base64_encoding then bulk (unbase64 text) else some (bulk_string (encode text))

  -- The tagged object of bytes that are no text.
  unfoldable pub read_binary : Members → Option Value
  read_binary (member type (str kind) (member encoding (str name) (member key (str text) end))) =
      if str_eq kind (lit "binary") then bulk (unbase64 text) else none
  read_binary ms = none

  abbrev pub as_array : Option Values → Option Value
  as_array none = none
  as_array (some values) = some (array values)

  abbrev pub before : Option Value → Option Values → Option Values
  before none rest = none
  before (some v) none = none
  before (some v) (some values) = some (value v values)

  unfoldable mutual
    pub read_reply : Json → Option Value
    read_reply null = some nil
    read_reply (integer n) = some (int n)
    read_reply (str text) = read_text text
    read_reply (arr items) = as_array (read_items items)
    read_reply (obj ms) = read_binary ms
    read_reply (bool b) = none
    read_reply (float d) = none

    pub read_items : Items → Option Values
    read_items no_item = some none_left
    read_items (item j rest) = before (read_reply j) (read_items rest)

module _ (base64 : List ℕ → Str) (unbase64 : Str → Option (List ℕ)) (base64_encoding : Bool)
    (decodes : (bytes : List ℕ) → unbase64 (base64 bytes) ≡ some bytes) where
  read_bytes :
      (bytes : List ℕ)
      → read_reply unbase64 base64_encoding (serialize_bytes base64 base64_encoding bytes)
        ≡ some (bulk_string bytes)
  unfolding read_reply read_text read_binary serialize_bytes lit list_eq list_beq
  read_bytes bytes = elim (Bool-cases base64_encoding) [
    | inl on ↦ rw on (rw (decodes bytes) refl)
    | inr off ↦ elim (Option-cases (from_utf8 bytes)) [
      | inl e ↦ rw (off, e) (rw (decodes bytes) refl)
      | inr (text, e) ↦ rw (off, e) (rw (from_utf8_sound bytes text e) refl)
    ]
  ]

  mutual
    unfolding read_reply serialize_redis

    read_data :
        (v : Value)
        → IsData v
        → read_reply unbase64 base64_encoding (serialize_redis base64 base64_encoding v) ≡ some v
    read_data nil d = refl
    read_data (int n) d = refl
    read_data (bulk_string bytes) d = read_bytes bytes
    read_data (array values) d = rw (read_all values d) refl
    read_data (okay) d = absurd d
    read_data (unsupported) d = absurd d
    read_data (simple_string text) d = absurd d
    read_data (map entries) d = absurd d
    read_data (set values) d = absurd d
    read_data (double x) d = absurd d
    read_data (boolean b) d = absurd d
    read_data (big_number text) d = absurd d
    read_data (attribute v attributes) d = absurd d
    read_data (verbatim_string format text) d = absurd d
    read_data (push kind values) d = absurd d
    read_data (server_error text) d = absurd d

    read_all :
        (values : Values)
        → AreData values
        → read_items unbase64 base64_encoding (serialize_array base64 base64_encoding values)
          ≡ some values
    read_all none_left d = refl
    read_all (value v values) d = rw (read_data v d.0) (rw (read_all values d.1) refl)

  -- A reply of nulls, integers, bulk strings and arrays of these loses nothing on its way through JSON,
  -- with base64 asked for or not: if the client's decoder undoes base64, it reads the reply back from
  -- the JSON that is sent.
  pub read_reply-serialize_redis :
      (v : Value)
      → IsData v
      → read_reply unbase64 base64_encoding (serialize_redis base64 base64_encoding v) ≡ some v
  read_reply-serialize_redis v d = read_data v d
