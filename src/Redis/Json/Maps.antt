-- ===== src/Redis/Json/Maps.antt =====
-- Whether a map of a reply becomes an object or a list of pairs (src/redis/value.rs).
use rubix_redis_bridge.Prelude.{
  ℕ, ◌≡◌, inl, inr, Bool, false, List, [], ◌∷◌, none, some, arith, All, contains, contains-insert,
  insert, list_eq, nat_eq, IsDistinct, Option-cases,
}
use rubix_redis_bridge.Text.{Str, lit}
use rubix_redis_bridge.Redis.Value.{Entries, no_entry, entry}
use rubix_redis_bridge.Redis.Json.{
  Json, arr, obj, end, member, tagged, object_key, unseen_keys, members, pairs,
}

module _ (base64 : List ℕ → Str) (base64_encoding : Bool) where
  -- Each key of the entries has a text, and these are the texts, in order.
  abbrev pub TextsAre : List Str → Entries → Type 0
  TextsAre [] no_entry = Unit
  TextsAre [] (entry key v entries) = ⊥
  TextsAre (text ∷ texts) no_entry = ⊥
  TextsAre (text ∷ texts) (entry key v entries) =
      (object_key base64 base64_encoding key ≡ some text) × TextsAre texts entries

  -- An object with the texts of the keys, if they have texts that differ from each other, and
  -- otherwise a list of the pairs, tagged as a map.
  pub data IsMapJson (entries : Entries) : Json → Type 0 where
    keyed :
        (texts : List Str)
        → TextsAre texts entries
        → IsDistinct texts
        → IsMapJson entries (obj (members base64 base64_encoding texts entries))
    listed :
        ((texts : List Str) → TextsAre texts entries → ¬ IsDistinct texts)
        → IsMapJson entries (
            tagged
              (lit "map")
              (member (lit "value") (arr (pairs base64 base64_encoding entries)) end))

  pub unseen_keys-TextsAre :
      (seen : List Str) (entries : Entries) (keys : List Str)
      → unseen_keys base64 base64_encoding seen entries ≡ some keys
      → TextsAre keys entries
  unfolding unseen_keys
  unseen_keys-TextsAre seen no_entry [] h = tt
  unseen_keys-TextsAre seen no_entry (key ∷ keys) h = cc
  unseen_keys-TextsAre seen (entry key v entries) keys h =
      elim (Option-cases (object_key base64 base64_encoding key)) [
        | inl e ↦ absurd (ground arith)
        | inr (text, e) ↦
            elim (Option-cases (unseen_keys base64 base64_encoding (insert seen text) entries)) [
              | inl e' ↦ absurd (ground arith)
              | inr (rest, e') ↦
                  let same : keys ≡ text ∷ rest = ground arith in
                  rw same (e, unseen_keys-TextsAre (insert seen text) entries rest e')
            ]
      ]

  abbrev AreNew : List Str → List Str → Type 0
  AreNew seen texts = All (λ t. contains seen t ≡ false) texts

  AreNew-insert :
      (seen texts : List Str) (text : Str)
      → AreNew seen texts
      → contains texts text ≡ false
      → AreNew (insert seen text) texts
  unfolding contains
  AreNew-insert seen [] text new apart = tt
  AreNew-insert seen (t ∷ texts) text new apart =
      let decides = (list_eq {A = ℕ}).decides in
      (
        ground (arith, contains-insert seen text t, decides t text, decides text t, new.0, apart),
        AreNew-insert seen texts text new.1 (ground (arith, apart)),
      )

  -- The loop gives up only over a key without a text, or a text that it has seen.
  pub unseen_keys-none :
      (seen : List Str) (entries : Entries) (texts : List Str)
      → unseen_keys base64 base64_encoding seen entries ≡ none
      → TextsAre texts entries
      → AreNew seen texts
      → ¬ IsDistinct texts
  unfolding unseen_keys
  unseen_keys-none seen no_entry texts h t new d = cc
  unseen_keys-none seen (entry key v entries) [] h t new d = t
  unseen_keys-none seen (entry key v entries) (text ∷ texts) h (e, t) (fresh, new) (apart, d) =
      elim (Option-cases (unseen_keys base64 base64_encoding (insert seen text) entries)) [
        | inr (rest, e') ↦ absurd (ground arith)
        | inl e' ↦
            unseen_keys-none (insert seen text) entries texts e' t
              (AreNew-insert seen texts text new apart) d
      ]
