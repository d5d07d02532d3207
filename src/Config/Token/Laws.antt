-- ===== src/Config/Token/Laws.antt =====
-- What `TokenCaps::parse` accepts, and that it reads back what `config_value` prints.
use rubix_redis_bridge.Prelude.{
  ◌≡◌, refl, ◌⊎◌, Bool, true, false, ◌||◌, List, [], ◌∷◌, map, ok, >>=-eq-ok, All, arith, contains,
  is_empty, list_eq, list_beq, nat_eq,
}
use rubix_redis_bridge.Text.{
  Str, lit, str_eq, str_eq_iff, trim, to_ascii_lowercase, is_whitespace, to_lower, split, join,
}
use rubix_redis_bridge.Config.Token.{
  TokenCaps, grant, grant_all, no_caps, parse, config_value, allows_command_route,
}

-- Parsing the printed capabilities gives them back, for every set of capabilities but the empty
-- one, whatever key the error message would name.
pub config_value-parse :
    (caps : TokenCaps) (key : Str)
    → allows_command_route caps ≡ true
    → parse (config_value caps) key ≡ ok caps
unfolding parse config_value split join lit trim to_ascii_lowercase is_whitespace to_lower list_eq
    list_beq allows_command_route
config_value-parse caps key h = round_trip caps.command caps.ratelimit caps.realtime key h
  where
    round_trip :
        (c l t : Bool) (key : Str)
        → (c || (l || t)) ≡ true
        → parse (config_value (record { command = c; ratelimit = l; realtime = t })) key
          ≡ ok (record { command = c; ratelimit = l; realtime = t })
    round_trip true true true key h = refl
    round_trip true true false key h = refl
    round_trip true false true key h = refl
    round_trip true false false key h = refl
    round_trip false true true key h = refl
    round_trip false true false key h = refl
    round_trip false false true key h = refl
    round_trip false false false key h = cc

-- An item of a capability list as `parse` compares it.
abbrev item_word : Str → Str
item_word item = to_ascii_lowercase (trim item)

-- The three capabilities; an empty item is skipped.
abbrev pub IsKnown : Str → Type 0
IsKnown word =
    (word ≡ []) ⊎ ((word ≡ lit "command") ⊎ ((word ≡ lit "ratelimit") ⊎ (word ≡ lit "realtime")))

-- Which capability a list of words adds to one that is there or not.
abbrev has : Bool → Str → List Str → Bool
has there word words = contains words word || there

record Grants (from : TokenCaps) (words : List Str) (to : TokenCaps) : Type 0 where
  command : to.command ≡ has from.command (lit "command") words
  ratelimit : to.ratelimit ≡ has from.ratelimit (lit "ratelimit") words
  realtime : to.realtime ≡ has from.realtime (lit "realtime") words

-- The three words differ from one another and from the empty word.
distinct_words :
    (str_eq (lit "command") (lit "ratelimit") ≡ false)
    × (str_eq (lit "command") (lit "realtime") ≡ false)
    × (str_eq (lit "ratelimit") (lit "command") ≡ false)
    × (str_eq (lit "ratelimit") (lit "realtime") ≡ false)
    × (str_eq (lit "realtime") (lit "command") ≡ false)
    × (str_eq (lit "realtime") (lit "ratelimit") ≡ false)
unfolding lit list_eq list_beq
distinct_words = (refl, refl, refl, refl, refl, refl)

word_is_empty : (word : Str) → is_empty word ≡ true → word ≡ []
word_is_empty [] h = refl
word_is_empty (c ∷ word) h = cc

empty_is_no_word :
    (str_eq (lit "command") [] ≡ false)
    × (str_eq (lit "ratelimit") [] ≡ false)
    × (str_eq (lit "realtime") [] ≡ false)
unfolding lit list_eq list_beq
empty_is_no_word = (refl, refl, refl)

grant_sound :
    (key : Str) (from to : TokenCaps) (word : Str)
    → grant key from word ≡ ok to
    → IsKnown word × Grants from (word ∷ []) to
unfolding grant contains
grant_sound key from to word h = ground (
  arith,
  distinct_words,
  empty_is_no_word,
  word_is_empty word,
  str_eq_iff word (lit "command"),
  str_eq_iff word (lit "ratelimit"),
  str_eq_iff word (lit "realtime"),
  str_eq_iff (lit "command") word,
  str_eq_iff (lit "ratelimit") word,
  str_eq_iff (lit "realtime") word,
)

grant_all_sound :
    (key : Str) (from to : TokenCaps) (items : List Str)
    → grant_all key from items ≡ ok to
    → All IsKnown (map item_word items) × Grants from (map item_word items) to
unfolding grant_all contains
grant_all_sound key from to [] h = ground arith
grant_all_sound key from to (item ∷ items) h =
    let (mid, granted, later) = >>=-eq-ok (grant key from (item_word item)) _ h in
    let here = grant_sound key from mid (item_word item) granted in
    let rest = grant_all_sound key mid to items later in ground (arith, here, rest)

-- The words of a list, as `parse` compares them.
abbrev pub item_words : Str → List Str
item_words value = map item_word (split b',' value)

-- A list of capabilities that is accepted holds only the three words and empty items, and at least
-- one of the three; the token then has exactly the capabilities that are named.
parse_sound :
    (value key : Str) (caps : TokenCaps)
    → parse value key ≡ ok caps
    → All IsKnown (item_words value)
      × (caps.command ≡ contains (item_words value) (lit "command"))
      × (caps.ratelimit ≡ contains (item_words value) (lit "ratelimit"))
      × (caps.realtime ≡ contains (item_words value) (lit "realtime"))
      × (allows_command_route caps ≡ true)
unfolding parse allows_command_route no_caps
parse_sound value key caps h =
    let (all, granted, later) = >>=-eq-ok (grant_all key no_caps (split b',' value)) _ h in
    ground (arith, grant_all_sound key no_caps all (split b',' value) granted)
