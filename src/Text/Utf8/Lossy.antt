-- ===== src/Text/Utf8/Lossy.antt =====
-- `String::from_utf8_lossy`: as `from_utf8`, but the longest part of a broken character, or one
-- byte that can start none, becomes U+FFFD, and the byte after the part is read as a first byte.
use rubix_redis_bridge.Prelude.{
  ℕ, zero, suc, ◌+◌, ◌-◌, ◌*◌, ◌≡◌, refl, sym, ◌∙◌, inl, inr, true, false, ◌&&◌, List, [], ◌∷◌,
  Option, none, Bool, any, ◌==◌, some, ltb, leb, arith, Bool-cases, Option-cases,
}
use rubix_redis_bridge.Text.{Str}
use rubix_redis_bridge.Text.Utf8.{
  Lead, lead, push, decode, from_utf8, decode_ascii, decode_wide, decode_last, decode_step,
}

-- A byte where a character starts; `later` reads the bytes after it.
unfoldable pub start_lossy : ℕ → (ℕ → ℕ → ℕ → ℕ → Str) → Str
unfolding lead
start_lossy b later = elim (ltb b 128) [
  | true ↦ b ∷ later 0 0 0 0
  | false ↦ elim (lead b) [
    | none ↦ 65533 ∷ later 0 0 0 0
    | some l ↦ later l.more l.bits l.low l.high
  ]
]

unfoldable pub decode_lossy : ℕ → ℕ → ℕ → ℕ → List ℕ → Str
unfolding start_lossy
decode_lossy zero bits low high [] = []
decode_lossy (suc more) bits low high [] = 65533 ∷ []
decode_lossy zero bits low high (b ∷ bytes) = start_lossy b (λ m n l h. decode_lossy m n l h bytes)
decode_lossy (suc zero) bits low high (b ∷ bytes) = elim (leb low b && leb b high) [
  | true ↦ (bits * 64 + (b - 128)) ∷ decode_lossy 0 0 0 0 bytes
  | false ↦ 65533 ∷ start_lossy b (λ m n l h. decode_lossy m n l h bytes)
]
decode_lossy (suc (suc more)) bits low high (b ∷ bytes) = elim (leb low b && leb b high) [
  | true ↦ decode_lossy (suc more) (bits * 64 + (b - 128)) 128 191 bytes
  | false ↦ 65533 ∷ start_lossy b (λ m n l h. decode_lossy m n l h bytes)
]

unfoldable pub from_utf8_lossy : List ℕ → Str
unfolding decode_lossy
from_utf8_lossy bytes = decode_lossy 0 0 0 0 bytes

module _ (b : ℕ) (later : ℕ → ℕ → ℕ → ℕ → Str) where
  start_lossy_ascii : ltb b 128 ≡ true → start_lossy b later ≡ b ∷ later 0 0 0 0
  unfolding start_lossy
  start_lossy_ascii ascii = ground (arith, ascii)

  start_lossy_wide :
      (l : Lead)
      → ltb b 128 ≡ false
      → lead b ≡ some l
      → start_lossy b later ≡ later l.more l.bits l.low l.high
  unfolding start_lossy
  start_lossy_wide l wide e = ground (arith, wide, e)

decode-decode_lossy :
    (more bits low high : ℕ) (bytes : List ℕ) (s : Str)
    → decode more bits low high bytes ≡ some s
    → decode_lossy more bits low high bytes ≡ s
unfolding decode decode_lossy
decode-decode_lossy zero bits low high [] s h = cc
decode-decode_lossy (suc more) bits low high [] s h = cc
decode-decode_lossy zero bits low high (b ∷ bytes) s h = elim (Bool-cases (ltb b 128)) [
  | inl ascii ↦ elim (Option-cases (decode 0 0 0 0 bytes)) [
    | inl e ↦ absurd (ground arith)
    | inr (s', e) ↦
        let same = decode_ascii bits low high b bytes s s' ascii h e in
        let lossy = start_lossy_ascii b (λ m n l h. decode_lossy m n l h bytes) ascii in
        let rest = decode-decode_lossy 0 0 0 0 bytes s' e in cc
  ]
  | inr wide ↦ elim (Option-cases (lead b)) [
    | inl e ↦ absurd (ground arith)
    | inr (l, e) ↦
        let lossy = start_lossy_wide b (λ m n l h. decode_lossy m n l h bytes) l wide e in
        let rest =
          decode-decode_lossy l.more l.bits l.low l.high bytes s
            (decode_wide bits low high b bytes s l wide e h) in
        lossy ∙ rest
  ]
]
decode-decode_lossy (suc zero) bits low high (b ∷ bytes) s h =
    let (s', least, most, e, same) = decode_last bits low high b bytes s h in
    let inside : (leb low b && leb b high) ≡ true = ground (arith, least, most) in
    rw (decode_lossy, inside, decode-decode_lossy 0 0 0 0 bytes s' e) (sym same)
decode-decode_lossy (suc (suc more)) bits low high (b ∷ bytes) s h =
    let (least, most, later) = decode_step more bits low high b bytes s h in
    let inside : (leb low b && leb b high) ≡ true = ground (arith, least, most) in
    rw (decode_lossy, inside)
      (decode-decode_lossy (suc more) (bits * 64 + (b - 128)) 128 191 bytes s later)

-- Bytes that are the UTF-8 form of a text are read as that text.
pub from_utf8-from_utf8_lossy :
    (bytes : List ℕ) (s : Str) → from_utf8 bytes ≡ some s → from_utf8_lossy bytes ≡ s
unfolding from_utf8 from_utf8_lossy
from_utf8-from_utf8_lossy bytes s h = decode-decode_lossy 0 0 0 0 bytes s h

abbrev is_replacement : ℕ → Bool
is_replacement c = c == 65533

-- A reader of bytes: it gives the text whose UTF-8 form they are, or a text with U+FFFD in it.
pub ReadsAs : Option Str → Str → Type 0
ReadsAs (some text) content = content ≡ text
ReadsAs none content = any is_replacement content ≡ true

push-none :
    (t : Bool) (c : ℕ) (o : Option Str)
    → t ≡ true
    → elim t as (λ _. Option Str) [ true ↦ push c o | false ↦ none ] ≡ none
    → o ≡ none
push-none t c none e h = refl
push-none true c (some s) e h = cc
push-none false c (some s) e h = cc

decode_lossy-replaces :
    (more bits low high : ℕ) (bytes : List ℕ)
    → decode more bits low high bytes ≡ none
    → any is_replacement (decode_lossy more bits low high bytes) ≡ true
unfolding decode decode_lossy start_lossy
decode_lossy-replaces zero bits low high [] h = cc
decode_lossy-replaces (suc more) bits low high [] h = refl
decode_lossy-replaces zero bits low high (b ∷ bytes) h = elim (Bool-cases (ltb b 128)) [
  | inl ascii ↦ elim (Option-cases (decode 0 0 0 0 bytes)) [
    | inl e ↦
        let lossy = start_lossy_ascii b (λ m n l h. decode_lossy m n l h bytes) ascii in
        let rest = decode_lossy-replaces 0 0 0 0 bytes e in rw lossy (ground (arith, rest))
    | inr (s', e) ↦ absurd (ground arith)
  ]
  | inr wide ↦ elim (Option-cases (lead b)) [
    | inl e ↦ simp (start_lossy, wide, e) refl
    | inr (l, e) ↦
        let lossy = start_lossy_wide b (λ m n l h. decode_lossy m n l h bytes) l wide e in
        let later : decode l.more l.bits l.low l.high bytes ≡ none = ground arith in
        rw lossy (decode_lossy-replaces l.more l.bits l.low l.high bytes later)
  ]
]
decode_lossy-replaces (suc zero) bits low high (b ∷ bytes) h =
    elim (Bool-cases (leb low b && leb b high)) [
      | inl inside ↦
          let later : decode 0 0 0 0 bytes ≡ none =
            push-none (leb low b && leb b high) (bits * 64 + (b - 128)) (decode 0 0 0 0 bytes)
              inside h in
          let rest = decode_lossy-replaces 0 0 0 0 bytes later in
          rw (decode_lossy, inside) (ground (arith, rest))
      | inr outside ↦ rw (decode_lossy, outside) refl
    ]
decode_lossy-replaces (suc (suc more)) bits low high (b ∷ bytes) h =
    elim (Bool-cases (leb low b && leb b high)) [
      | inl inside ↦
          let later : decode (suc more) (bits * 64 + (b - 128)) 128 191 bytes ≡ none =
            ground arith in
          rw (decode_lossy, inside)
            (decode_lossy-replaces (suc more) (bits * 64 + (b - 128)) 128 191 bytes later)
      | inr outside ↦ rw (decode_lossy, outside) refl
    ]

from_utf8_lossy-replaces :
    (bytes : List ℕ) → from_utf8 bytes ≡ none → any is_replacement (from_utf8_lossy bytes) ≡ true
unfolding from_utf8 from_utf8_lossy
from_utf8_lossy-replaces bytes h = decode_lossy-replaces 0 0 0 0 bytes h

pub from_utf8_lossy-ReadsAs : (bytes : List ℕ) → ReadsAs (from_utf8 bytes) (from_utf8_lossy bytes)
unfolding ReadsAs
from_utf8_lossy-ReadsAs bytes = elim (Option-cases (from_utf8 bytes)) [
  | inl e ↦ rw e (from_utf8_lossy-replaces bytes e)
  | inr (text, e) ↦ rw e (from_utf8-from_utf8_lossy bytes text e)
]
