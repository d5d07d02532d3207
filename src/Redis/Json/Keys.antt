-- ===== src/Redis/Json/Keys.antt =====
-- No object of a reply repeats a key (src/redis/value.rs).
use rubix_redis_bridge.Prelude.{
  ℕ, ◌≡◌, ap, inl, inr, refl, Bool, false, List, [], ◌∷◌, some, arith, All, All-always, contains,
  insert, list_eq, list_beq, nat_eq, IsDistinct, fresh-insert, Option-cases, Bool-cases,
}
use rubix_redis_bridge.Text.{Str, lit}
use rubix_redis_bridge.Text.Utf8.{from_utf8}
use rubix_redis_bridge.Redis.Value.{
  Double, Value, nil, okay, unsupported, int, bulk_string, array, simple_string, map, set, double,
  boolean, big_number, attribute, verbatim_string, push, server_error, Values, none_left, value,
  Entries, no_entry, entry,
}
use rubix_redis_bridge.Redis.Json.Maps.{
  IsMapJson, keyed, listed, unseen_keys-TextsAre, unseen_keys-none,
}
use rubix_redis_bridge.Redis.Json.{
  Json, null, bool, integer, float, str, arr, obj, Items, no_item, item, Members, end, member,
  serialize_f64, serialize_bytes, serialize_map, object_key, unseen_keys, object_keys,
  serialize_redis, serialize_array, members, pairs,
}

abbrev pub names : Members → List Str
names end = []
names (member name j rest) = name ∷ names rest

-- Every object in it has distinct keys.
abbrev mutual
  pub HasUniqueKeys : Json → Type 0
  HasUniqueKeys null = Unit
  HasUniqueKeys (bool b) = Unit
  HasUniqueKeys (integer n) = Unit
  HasUniqueKeys (float d) = Unit
  HasUniqueKeys (str text) = Unit
  HasUniqueKeys (arr items) = ItemsHaveUniqueKeys items
  HasUniqueKeys (obj ms) = IsDistinct (names ms) × MembersHaveUniqueKeys ms

  pub ItemsHaveUniqueKeys : Items → Type 0
  ItemsHaveUniqueKeys no_item = Unit
  ItemsHaveUniqueKeys (item j rest) = HasUniqueKeys j × ItemsHaveUniqueKeys rest

  pub MembersHaveUniqueKeys : Members → Type 0
  MembersHaveUniqueKeys end = Unit
  MembersHaveUniqueKeys (member name j rest) = HasUniqueKeys j × MembersHaveUniqueKeys rest

module _ (base64 : List ℕ → Str) (base64_encoding : Bool) where
  unseen_keys-IsDistinct :
      (seen : List Str) (entries : Entries) (keys : List Str)
      → unseen_keys base64 base64_encoding seen entries ≡ some keys
      → All (λ k. contains seen k ≡ false) keys
        × IsDistinct keys
        × (names (members base64 base64_encoding keys entries) ≡ keys)
  unfolding unseen_keys serialize_redis
  unseen_keys-IsDistinct seen no_entry keys h =
      let same : [] ≡ keys = cc in rw (← same) (tt, tt, refl)
  unseen_keys-IsDistinct seen (entry key v entries) keys h =
      elim (Option-cases (object_key base64 base64_encoding key)) [
        | inl e ↦ absurd (ground arith)
        | inr (text, e) ↦
            elim (Option-cases (unseen_keys base64 base64_encoding (insert seen text) entries)) [
              | inl e' ↦ absurd (ground arith)
              | inr (rest, e') ↦
                  let (fresh, distinct, named) =
                    unseen_keys-IsDistinct (insert seen text) entries rest e' in
                  let new : contains seen text ≡ false = ground arith in
                  let same : keys ≡ text ∷ rest = ground arith in
                  let (fresh', apart) = fresh-insert seen rest text fresh in
                  rw same ((new, fresh'), (apart, distinct), ap (λ more. text ∷ more) named)
            ]
      ]

  serialize_map-HasUniqueKeys :
      (entries : Entries)
      → ((keys : List Str) → MembersHaveUniqueKeys (members base64 base64_encoding keys entries))
      → ItemsHaveUniqueKeys (pairs base64 base64_encoding entries)
      → HasUniqueKeys (
          serialize_map
            (object_keys base64 base64_encoding entries)
            (λ keys. members base64 base64_encoding keys entries)
            (pairs base64 base64_encoding entries))
  unfolding object_keys lit contains list_eq list_beq
  serialize_map-HasUniqueKeys entries each paired =
      elim (Option-cases (unseen_keys base64 base64_encoding [] entries)) [
        | inl e ↦ rw e ((refl, (refl, tt)), (tt, (paired, tt)))
        | inr (keys, e) ↦
            let (fresh, distinct, named) = unseen_keys-IsDistinct [] entries keys e in
            rw e (rw named distinct, each keys)
      ]

  serialize_f64-HasUniqueKeys : (d : Double) → HasUniqueKeys (serialize_f64 d)
  unfolding serialize_f64 lit contains list_eq list_beq
  serialize_f64-HasUniqueKeys d = elim (Bool-cases d.is_finite) [
    | inl finite ↦ rw finite tt
    | inr other ↦ rw other ((refl, (refl, tt)), (tt, (tt, tt)))
  ]

  serialize_bytes-HasUniqueKeys :
      (bytes : List ℕ) → HasUniqueKeys (serialize_bytes base64 base64_encoding bytes)
  unfolding serialize_bytes lit contains list_eq list_beq
  serialize_bytes-HasUniqueKeys bytes = elim (Bool-cases base64_encoding) [
    | inl on ↦ rw on tt
    | inr off ↦ elim (Option-cases (from_utf8 bytes)) [
      | inl e ↦ rw (off, e) ((refl, (refl, (refl, tt))), (tt, (tt, (tt, tt))))
      | inr (text, e) ↦ rw (off, e) tt
    ]
  ]

  mutual
    unfolding serialize_redis lit contains list_eq list_beq

    unique_keys : (v : Value) → HasUniqueKeys (serialize_redis base64 base64_encoding v)
    unique_keys nil = tt
    unique_keys (int n) = tt
    unique_keys (bulk_string bytes) = serialize_bytes-HasUniqueKeys bytes
    unique_keys (array values) = unique_keys_items values
    unique_keys (simple_string text) = tt
    unique_keys okay = tt
    unique_keys (map entries) =
        serialize_map-HasUniqueKeys entries (unique_keys_members entries)
          (unique_keys_pairs entries)
    unique_keys (set values) = unique_keys_items values
    unique_keys (double d) = serialize_f64-HasUniqueKeys d
    unique_keys (boolean b) = tt
    unique_keys (big_number text) = tt
    unique_keys (attribute v attributes) = (
      (refl, (refl, (refl, tt))),
      (
        tt,
        (
          unique_keys v,
          (
            serialize_map-HasUniqueKeys attributes (unique_keys_members attributes)
                (unique_keys_pairs attributes),
            tt,
          ),
        ),
      ),
    )
    unique_keys (verbatim_string format text) = ((refl, (refl, (refl, tt))), (tt, (tt, (tt, tt))))
    unique_keys (push kind values) =
        ((refl, (refl, (refl, tt))), (tt, (tt, (unique_keys_items values, tt))))
    unique_keys (server_error text) = ((refl, (refl, tt)), (tt, (tt, tt)))
    unique_keys unsupported = ((refl, tt), (tt, tt))

    unique_keys_items :
        (values : Values) → ItemsHaveUniqueKeys (serialize_array base64 base64_encoding values)
    unique_keys_items none_left = tt
    unique_keys_items (value v values) = (unique_keys v, unique_keys_items values)

    unique_keys_members :
        (entries : Entries) (keys : List Str)
        → MembersHaveUniqueKeys (members base64 base64_encoding keys entries)
    unique_keys_members no_entry [] = tt
    unique_keys_members (entry k v entries) [] = tt
    unique_keys_members no_entry (key ∷ keys) = tt
    unique_keys_members (entry k v entries) (key ∷ keys) =
        (unique_keys v, unique_keys_members entries keys)

    unique_keys_pairs :
        (entries : Entries) → ItemsHaveUniqueKeys (pairs base64 base64_encoding entries)
    unique_keys_pairs no_entry = tt
    unique_keys_pairs (entry k v entries) =
        ((unique_keys k, (unique_keys v, tt)), unique_keys_pairs entries)

  serialize_map-IsMapJson :
      (entries : Entries)
      → IsMapJson base64 base64_encoding entries
          (serialize_redis base64 base64_encoding (map entries))
  unfolding serialize_redis object_keys contains
  serialize_map-IsMapJson entries =
      elim (Option-cases (unseen_keys base64 base64_encoding [] entries)) [
        | inl e ↦ rw e (
            listed (λ texts t.
              unseen_keys-none base64 base64_encoding [] entries texts e t
                (All-always texts (λ text. refl))))
        | inr (keys, e) ↦ rw e (
            keyed keys (unseen_keys-TextsAre base64 base64_encoding [] entries keys e)
              (unseen_keys-IsDistinct [] entries keys e).1)
      ]

  -- Whatever Redis replies, no object of the JSON that is sent repeats a key, at any depth. A map is
  -- sent as the object of its entries, in order and under the texts of its keys, if all of its keys
  -- have texts and no two of these are the same. Otherwise it is sent as the list of its pairs, in
  -- order, tagged as a map.
  pub serialize_redis-HasUniqueKeys :
      (v : Value) (entries : Entries)
      → HasUniqueKeys (serialize_redis base64 base64_encoding v)
        × IsMapJson base64 base64_encoding entries
            (serialize_redis base64 base64_encoding (map entries))
  serialize_redis-HasUniqueKeys v entries = (unique_keys v, serialize_map-IsMapJson entries)
