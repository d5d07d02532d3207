-- ===== src/Examples/Replies.antt =====
-- Replies and errors of Redis at concrete inputs.
use rubix_redis_bridge.Prelude.{ℕ, ◌≡◌, ◌⊎◌, refl, false, List, [], ◌∷◌, ◌++◌, some}
use rubix_redis_bridge.Text.{Str, lit}
use rubix_redis_bridge.Text.Decimal.{negsuc}
use rubix_redis_bridge.App.Error.{text, bad_request, unavailable}
use rubix_redis_bridge.Redis.Value.{
  Value, nil, int, bulk_string, array, map, value, none_left, Entries, entry, no_entry,
}
use rubix_redis_bridge.Redis.Json.{serialize_redis}
use rubix_redis_bridge.Redis.Json.Maps.{IsMapJson}
use rubix_redis_bridge.Redis.Json.Keys.{HasUniqueKeys, serialize_redis-HasUniqueKeys}
use rubix_redis_bridge.Redis.Json.Lossless.{read_reply, read_reply-serialize_redis}
use rubix_redis_bridge.Redis.Error.{RedisError, other, redis_api_error, redis_error_message}
use rubix_redis_bridge.Redis.Error.Classes.{IsDown, redis_api_error_classes}

abbrev plain : List ℕ → Str
plain bytes = bytes

-- A map whose two keys are the same text, in a list with other data.
abbrev clash : Value
clash = array (
    value
      (map (
        entry (bulk_string (lit "k")) nil
          (entry (bulk_string (lit "k")) (int (negsuc 1)) no_entry)))
      (value (bulk_string (255 ∷ [])) none_left))

-- A map whose keys differ.
abbrev numbered : Entries
numbered =
    entry (int (negsuc 1)) (bulk_string (255 ∷ [])) (entry (bulk_string (lit "k")) nil no_entry)

serialize_redis-HasUniqueKeys_example :
    HasUniqueKeys (serialize_redis plain false clash)
    × IsMapJson plain false numbered (serialize_redis plain false (map numbered))
serialize_redis-HasUniqueKeys_example = serialize_redis-HasUniqueKeys plain false clash numbered

abbrev rows : Value
rows = array (value (int (negsuc 1)) (value (bulk_string (255 ∷ [])) (value nil none_left)))

read_reply-serialize_redis_example :
    read_reply some false (serialize_redis plain false rows) ≡ some rows
read_reply-serialize_redis_example =
    read_reply-serialize_redis plain some false (λ bytes. refl) rows (tt, (tt, (tt, tt)))

abbrev wrong_type : RedisError
wrong_type = record {
  is_io_error = false;
  is_connection_dropped = false;
  is_connection_refusal = false;
  is_timeout = false;
  kind = other;
  code = some (lit "WRONGTYPE");
  to_string = lit "ResponseError: not a list";
}

redis_api_error_classes_example :
    (IsDown wrong_type
      × (redis_api_error wrong_type ≡ unavailable (text (lit "Redis backend unavailable"))))
    ⊎ ((¬ IsDown wrong_type)
        × (redis_api_error wrong_type ≡ bad_request (text (redis_error_message wrong_type)))
        × ((code : Str)
            → wrong_type.code ≡ some code
            → (rest : Str) × (redis_error_message wrong_type ≡ code ++ rest)))
redis_api_error_classes_example = redis_api_error_classes wrong_type
