-- ===== src/Redis/Json.antt =====
-- src/redis/value.rs and src/redis/response.rs: replies as JSON. A serializer is asked for a value of
-- serde's data model, which is the result here; `base64` is the base64 crate's standard encoding.
pub mod Maps
pub mod Keys
pub mod Lossless
use Prim.Native.String.{String}
use rubix_redis_bridge.Prelude.{
  ℕ, Bool, true, false, not, ◌&&◌, List, [], ◌∷◌, Option, none, some, contains, insert, list_eq,
  nat_eq, if◌then◌else◌,
}
use rubix_redis_bridge.Text.{Str, lit, str_eq, encode}
use rubix_redis_bridge.Text.Decimal.{ℤ, int_to_string}
use rubix_redis_bridge.Text.Utf8.{from_utf8}
use rubix_redis_bridge.Redis.Value.{
  Double, Value, nil, okay, unsupported, int, bulk_string, array, simple_string, map, set, double,
  boolean, big_number, attribute, verbatim_string, push, server_error, Values, none_left, value,
  Entries, no_entry, entry,
}
use rubix_redis_bridge.Security.Types.{bool_to_string}

-- A float is the number that serde_json writes for it.
mutual
  pub data Json : Type 0 where
    null : Json
    bool : Bool → Json
    integer : ℤ → Json
    float : Double → Json
    str : Str → Json
    arr : Items → Json
    obj : Members → Json

  pub data Items : Type 0 where
    no_item : Items
    item : Json → Items → Items

  pub data Members : Type 0 where
    end : Members
    member : Str → Json → Members → Members

-- An object with a type tag, and what follows.
abbrev pub tagged : Str → Members → Json
tagged name members = obj (member (lit "type") (str name) members)

unfoldable pub serialize_f64 : Double → Json
serialize_f64 d =
    if d.is_finite then float d else tagged (lit "double") (member (lit "value") (str d.text) end)

-- `serialize_map`, given the keys, the object that they make and the pairs.
abbrev pub serialize_map : Option (List Str) → (List Str → Members) → Items → Json
serialize_map (some keys) object pairs = obj (object keys)
serialize_map none object pairs = tagged (lit "map") (member (lit "value") (arr pairs) end)

module _ (base64 : List ℕ → Str) (base64_encoding : Bool) where
  unfoldable pub serialize_bytes : List ℕ → Json
  serialize_bytes bytes = if base64_encoding then str (base64 bytes) else elim (from_utf8 bytes) [
    | some text ↦ str text
    | none ↦ tagged (lit "binary") (
        member (lit "encoding") (str (lit "base64"))
          (member (lit "value") (str (base64 bytes)) end))
  ]

  -- The text of `serialize_string` and of a simple string as a key.
  unfoldable pub simple_text : Str → Str
  simple_text text =
      if base64_encoding && not (str_eq text (lit "OK")) then base64 (encode text) else text

  unfoldable pub object_key : Value → Option Str
  unfolding simple_text
  object_key nil = some (lit "null")
  object_key (int n) = some (int_to_string n)
  object_key (boolean b) = some (bool_to_string b)
  object_key (simple_string text) = some (simple_text text)
  object_key (bulk_string bytes) = if base64_encoding then some (base64 bytes) else from_utf8 bytes
  object_key (big_number text) = some text
  object_key (double d) = if d.is_finite then d.number else none
  object_key okay = none
  object_key unsupported = none
  object_key (array values) = none
  object_key (map entries) = none
  object_key (set values) = none
  object_key (attribute v attributes) = none
  object_key (verbatim_string format text) = none
  object_key (push kind values) = none
  object_key (server_error text) = none

  -- The loop of `object_keys`, with the keys seen so far.
  unfoldable pub unseen_keys : List Str → Entries → Option (List Str)
  unseen_keys seen no_entry = some []
  unseen_keys seen (entry key v entries) = elim (object_key key) [
    | none ↦ none
    | some text ↦
        let rest = unseen_keys (insert seen text) entries in
        if contains seen text
        then none
        else elim rest [ none ↦ none | some keys ↦ some (text ∷ keys) ]
  ]

  unfoldable pub object_keys : Entries → Option (List Str)
  unfolding unseen_keys
  object_keys entries = unseen_keys [] entries

  unfoldable mutual
    pub serialize_redis : Value → Json
    serialize_redis nil = null
    serialize_redis (int n) = integer n
    serialize_redis (bulk_string bytes) = serialize_bytes bytes
    serialize_redis (array values) = arr (serialize_array values)
    serialize_redis (simple_string text) = str (simple_text text)
    serialize_redis okay = str (lit "OK")
    serialize_redis (map entries) =
        serialize_map (object_keys entries) (λ keys. members keys entries) (pairs entries)
    serialize_redis (set values) = arr (serialize_array values)
    serialize_redis (double d) = serialize_f64 d
    serialize_redis (boolean b) = bool b
    serialize_redis (big_number text) = str text
    serialize_redis (attribute v attributes) = tagged (lit "attribute") (
        member (lit "data") (serialize_redis v) (
          member (lit "attributes")
            (serialize_map (object_keys attributes) (λ keys. members keys attributes)
              (pairs attributes))
            end))
    serialize_redis (verbatim_string format text) =
        tagged (lit "verbatim_string")
          (member (lit "format") (str format) (member (lit "value") (str text) end))
    serialize_redis (push kind values) =
        tagged (lit "push")
          (member (lit "kind") (str kind) (member (lit "data") (arr (serialize_array values)) end))
    serialize_redis (server_error text) =
        tagged (lit "server_error") (member (lit "error") (str text) end)
    serialize_redis unsupported = tagged (lit "unsupported_redis_value") end

    pub serialize_array : Values → Items
    serialize_array none_left = no_item
    serialize_array (value v values) = item (serialize_redis v) (serialize_array values)

    -- `entries.iter().zip(keys)`
    pub members : List Str → Entries → Members
    members [] entries = end
    members (key ∷ keys) no_entry = end
    members (key ∷ keys) (entry k v entries) = member key (serialize_redis v) (members keys entries)

    -- `RedisMapPairs` and `RedisPair`
    pub pairs : Entries → Items
    pairs no_entry = no_item
    pairs (entry k v entries) =
        item (arr (item (serialize_redis k) (item (serialize_redis v) no_item))) (pairs entries)

-- `RedisResponse`
pub data RedisResponse : Type 0 where
  result : Value → RedisResponse
  error : Str → RedisResponse

module _ (base64 : List ℕ → Str) (base64_encoding : Bool) where
  unfoldable pub command_response : Value → Json
  command_response v = obj (member (lit "result") (serialize_redis base64 base64_encoding v) end)

  unfoldable pub pipeline_item : RedisResponse → Json
  pipeline_item (result v) =
      obj (member (lit "result") (serialize_redis base64 base64_encoding v) end)
  pipeline_item (error message) = obj (member (lit "error") (str message) end)

  unfoldable pub pipeline_items : List RedisResponse → Items
  unfolding pipeline_item
  pipeline_items [] = no_item
  pipeline_items (reply ∷ replies) = item (pipeline_item reply) (pipeline_items replies)

  unfoldable pub transaction_items : List Value → Items
  unfolding command_response
  transaction_items [] = no_item
  transaction_items (v ∷ values) = item (command_response v) (transaction_items values)

  unfoldable pub pipeline_response : List RedisResponse → Json
  unfolding pipeline_items
  pipeline_response replies = arr (pipeline_items replies)

  unfoldable pub transaction_response : List Value → Json
  unfolding transaction_items
  transaction_response values = arr (transaction_items values)
