-- ===== src/Text.antt =====
-- The parts of Rust's `str` and `String` that the source calls, over the code points of a text.
mod Bytes
pub mod Laws
pub mod Splitting
pub mod Utf8
pub mod Decimal
pub mod Prefix
unfoldable pub use Bytes.{encode, encode_char, utf8_len}
use Prim.Native.Char.{code}
use Prim.Native.String.{String}
use rubix_redis_bridge.Prelude.{
  ℕ, ◌≡◌, ◌↔◌, ◌+◌, ◌-◌, Bool, true, false, ◌&&◌, ◌||◌, List, [], ◌∷◌, ◌++◌, map, Option, none,
  some, leb, ◌==◌, if◌then◌else◌, Equality, nat_eq, list_eq,
}

-- A text is the list of its `char`s.
abbrev pub Str : Type 0
Str = List ℕ

-- A text literal; shut, so that a literal stays whole in a goal.
unfoldable pub lit : String → Str
lit String.[] = []
lit (String.◌∷◌ c s) = code c ∷ lit s

abbrev pub str_eq : Str → Str → Bool
str_eq = (list_eq {A = ℕ}).same

pub str_eq_iff : (s t : Str) → (str_eq s t ≡ true) ↔ (s ≡ t)
str_eq_iff = (list_eq {A = ℕ}).decides

-- `char::is_whitespace`: the code points with the Unicode property White_Space.
unfoldable pub is_whitespace : ℕ → Bool
is_whitespace c =
    leb 9 c && leb c 13
    || c == 32
    || c == 133
    || c == 160
    || c == 5760
    || leb 8192 c && leb c 8202
    || c == 8232
    || c == 8233
    || c == 8239
    || c == 8287
    || c == 12288

unfoldable pub to_upper : ℕ → ℕ
to_upper c = if leb b'a' c && leb c b'z' then c - 32 else c

unfoldable pub to_lower : ℕ → ℕ
to_lower c = if leb b'A' c && leb c b'Z' then c + 32 else c

-- `to_ascii_uppercase`, `to_ascii_lowercase`, `eq_ignore_ascii_case`
unfoldable pub to_ascii_uppercase : Str → Str
to_ascii_uppercase s = map to_upper s

unfoldable pub to_ascii_lowercase : Str → Str
to_ascii_lowercase s = map to_lower s

unfoldable pub eq_ignore_ascii_case : Str → Str → Bool
eq_ignore_ascii_case s t = str_eq (to_ascii_lowercase s) (to_ascii_lowercase t)

unfoldable pub trim_start : Str → Str
trim_start [] = []
trim_start (c ∷ s) = let rest = trim_start s in if is_whitespace c then rest else c ∷ s

abbrev pub trim_last : ℕ → Str → Str
trim_last c [] = if is_whitespace c then [] else c ∷ []
trim_last c (d ∷ s) = c ∷ d ∷ s

unfoldable pub trim_end : Str → Str
trim_end [] = []
trim_end (c ∷ s) = trim_last c (trim_end s)

unfoldable pub trim : Str → Str
unfolding trim_start trim_end
trim s = trim_end (trim_start s)

abbrev pub push_front : ℕ → List Str → List Str
push_front c [] = (c ∷ []) ∷ []
push_front c (s ∷ more) = (c ∷ s) ∷ more

-- `split(sep)` on one character: never empty.
unfoldable pub split : ℕ → Str → List Str
split sep [] = [] ∷ []
split sep (c ∷ s) = let rest = split sep s in if c == sep then [] ∷ rest else push_front c rest

-- `split_once` at the first character that passes the test
unfoldable pub split_once : (ℕ → Bool) → Str → Option (Str × Str)
split_once p [] = none
split_once p (c ∷ s) = elim (p c) [
  | true ↦ some ([], s)
  | false ↦ elim (split_once p s) [ none ↦ none | some (a, b) ↦ some (c ∷ a, b) ]
]

-- `[..].join(sep)`
unfoldable pub join : Str → List Str → Str
join sep [] = []
join sep (s ∷ []) = s
join sep (s ∷ t ∷ more) = s ++ (sep ++ join sep (t ∷ more))
