-- ===== src/Text/Utf8.antt =====
-- `std::str::from_utf8`, as a machine that reads one byte at a time.
mod Encoded
pub mod Lossy
use Encoded.{encode_two, encode_three, encode_four}
use rubix_redis_bridge.Prelude.{
  ℕ, zero, suc, ◌+◌, ◌-◌, ◌*◌, ◌<◌, ◌≤◌, ◌≡◌, ◌⊎◌, inl, inr, refl, subst, Bool, true, false, ◌&&◌,
  List, [], ◌∷◌, Option, none, some, arith, ltb, leb, ◌==◌, if◌then◌else◌, Option-cases, Bool-cases,
  and_true,
}
use rubix_redis_bridge.Text.{Str}
use rubix_redis_bridge.Text.Bytes.{encode, encode_char}

-- What a first byte announces: the bytes to come, their bits so far, and the range of the next one,
-- which keeps out overlong forms, surrogates and what is no code point.
pub record Lead : Type 0 where
  pub more : ℕ
  pub bits : ℕ
  pub low : ℕ
  pub high : ℕ

abbrev lead_of : ℕ → ℕ → ℕ → ℕ → Option Lead
lead_of more bits low high = some (record { more = more; bits = bits; low = low; high = high })

unfoldable pub lead : ℕ → Option Lead
lead b =
    if ltb b 194
    then none
    else if ltb b 224
    then lead_of 1 (b - 192) 128 191
    else if b == 224
    then lead_of 2 0 160 191
    else if b == 237
    then lead_of 2 13 128 159
    else if ltb b 240
    then lead_of 2 (b - 224) 128 191
    else if b == 240
    then lead_of 3 0 144 191
    else if ltb b 244
    then lead_of 3 (b - 240) 128 191
    else if b == 244
    then lead_of 3 4 128 143
    else none

abbrev pub push : ℕ → Option Str → Option Str
push c none = none
push c (some s) = some (c ∷ s)

-- `more` bytes are missing of the current character.
unfoldable pub decode : ℕ → ℕ → ℕ → ℕ → List ℕ → Option Str
decode zero bits low high [] = some []
decode (suc more) bits low high [] = none
decode zero bits low high (b ∷ bytes) = elim (ltb b 128) [
  | true ↦ push b (decode 0 0 0 0 bytes)
  | false ↦ elim (lead b) [ none ↦ none | some l ↦ decode l.more l.bits l.low l.high bytes ]
]
decode (suc zero) bits low high (b ∷ bytes) = elim (leb low b && leb b high) [
  | true ↦ push (bits * 64 + (b - 128)) (decode 0 0 0 0 bytes)
  | false ↦ none
]
decode (suc (suc more)) bits low high (b ∷ bytes) = elim (leb low b && leb b high) [
  | true ↦ decode (suc more) (bits * 64 + (b - 128)) 128 191 bytes
  | false ↦ none
]

unfoldable pub from_utf8 : List ℕ → Option Str
unfolding decode lead
from_utf8 bytes = decode 0 0 0 0 bytes

subst2 {ℓ} :
    {A B : Type 0} (P : A → B → Type ℓ) {a a' : A} {b b' : B} → a ≡ a' → b ≡ b' → P a b → P a' b'
subst2 P {a'} {b} p q h = subst (P a') q (subst (λ x. P x b) p h)

-- What the bytes after a lead, up to the end, hold.
Completes : ℕ → ℕ → ℕ → ℕ → List ℕ → Str → Type 0
Completes zero bits low high bytes s = encode s ≡ bytes
Completes (suc zero) bits low high bytes s =
    (b : ℕ) × (rest : List ℕ) × (s' : Str) × (bytes ≡ b ∷ rest)
    × (low ≤ b)
    × (b ≤ high)
    × (s ≡ (bits * 64 + (b - 128)) ∷ s')
    × (encode s' ≡ rest)
Completes (suc (suc more)) bits low high bytes s =
    (b : ℕ) × (rest : List ℕ) × (bytes ≡ b ∷ rest)
    × (low ≤ b)
    × (b ≤ high)
    × Completes (suc more) (bits * 64 + (b - 128)) 128 191 rest s

record Fits (b least most : ℕ) (l : Lead) : Type 0 where
  least_is : least ≤ b
  most_is : b < most
  low_is : 128 ≤ l.low
  high_is : l.high ≤ 191

lead_cases :
    (b : ℕ) (l : Lead)
    → lead b ≡ some l
    → ((l.more ≡ 1) × (l.bits ≡ b - 192) × Fits b 194 224 l)
      ⊎ (((l.more ≡ 2) × (l.bits ≡ b - 224) × Fits b 224 240 l × (160 ≤ (b - 224) * 64 + l.low))
          ⊎ ((l.more ≡ 3) × (l.bits ≡ b - 240) × Fits b 240 245 l × (144 ≤ (b - 240) * 64 + l.low)))
unfolding lead
lead_cases b l e = ground arith

complete_two :
    (b : ℕ) (l : Lead) (bytes : List ℕ) (s : Str)
    → Fits b 194 224 l
    → Completes 1 (b - 192) l.low l.high bytes s
    → encode s ≡ b ∷ bytes
unfolding Completes encode
complete_two b l bytes s f (b1, rest, s', e, low, high, e', done) =
    rw (e, e')
      (rw
        (
          encode_two b b1 (omega (arith, f.least_is)) (omega (arith, f.most_is))
              (omega (arith, f.low_is)) (omega (arith, f.high_is)),
          done,
        )
        refl)

complete_three :
    (b : ℕ) (l : Lead) (bytes : List ℕ) (s : Str)
    → Fits b 224 240 l
    → 160 ≤ (b - 224) * 64 + l.low
    → Completes 2 (b - 224) l.low l.high bytes s
    → encode s ≡ b ∷ bytes
unfolding Completes encode
complete_three b l bytes s f long
      (b1, rest, e, low, high, (b2, rest', s', e', low', high', e'', done)) =
    rw (e, e', e'')
      (rw
        (
          encode_three b b1 b2 (omega (arith, f.least_is)) (omega (arith, f.most_is))
              (omega (arith, f.low_is)) (omega (arith, f.high_is)) (omega arith) low' high',
          done,
        )
        refl)

complete_four :
    (b : ℕ) (l : Lead) (bytes : List ℕ) (s : Str)
    → Fits b 240 245 l
    → 144 ≤ (b - 240) * 64 + l.low
    → Completes 3 (b - 240) l.low l.high bytes s
    → encode s ≡ b ∷ bytes
unfolding Completes encode
complete_four b l bytes s f long
      (
        b1,
        rest,
        e,
        low,
        high,
        (b2, rest', e', low', high', (b3, rest'', s', e'', low'', high'', e3, done)),
      ) =
    rw (e, e', e'', e3)
      (rw
        (
          encode_four b b1 b2 b3 (omega (arith, f.least_is)) (omega (arith, f.most_is))
              (omega (arith, f.low_is)) (omega (arith, f.high_is)) (omega arith) low' high' low''
              high'',
          done,
        )
        refl)

lead_sound :
    (b : ℕ) (l : Lead) (bytes : List ℕ) (s : Str)
    → lead b ≡ some l
    → Completes l.more l.bits l.low l.high bytes s
    → encode s ≡ b ∷ bytes
lead_sound b l bytes s e c =
    let at = λ (more bits : ℕ). Completes more bits l.low l.high bytes s in
    elim (lead_cases b l e) [
      | inl (m, n, f) ↦ complete_two b l bytes s f (subst2 at m n c)
      | inr (inl (m, n, f, long)) ↦ complete_three b l bytes s f long (subst2 at m n c)
      | inr (inr (m, n, f, long)) ↦ complete_four b l bytes s f long (subst2 at m n c)
    ]

encode_one : (b : ℕ) → ltb b 128 ≡ true → encode_char b ≡ b ∷ []
unfolding encode_char
encode_one b h = rw h refl

pub decode_step :
    (more bits low high b : ℕ) (bytes : List ℕ) (s : Str)
    → decode (suc (suc more)) bits low high (b ∷ bytes) ≡ some s
    → (low ≤ b) × (b ≤ high) × (decode (suc more) (bits * 64 + (b - 128)) 128 191 bytes ≡ some s)
unfolding decode
decode_step more bits low high b bytes s h = (ground arith, ground arith, ground arith)

push-some :
    (t : Bool) (c : ℕ) (o : Option Str) (s : Str)
    → elim t as (λ _. Option Str) [ true ↦ push c o | false ↦ none ] ≡ some s
    → (t ≡ true) × (s' : Str) × (o ≡ some s') × (s ≡ c ∷ s')
push-some true c (some s') s h = (refl, s', refl, ground arith)
push-some true c none s h = cc
push-some false c o s h = cc

pub decode_last :
    (bits low high b : ℕ) (bytes : List ℕ) (s : Str)
    → decode (suc zero) bits low high (b ∷ bytes) ≡ some s
    → (s' : Str) × (low ≤ b)
      × (b ≤ high)
      × (decode 0 0 0 0 bytes ≡ some s')
      × (s ≡ (bits * 64 + (b - 128)) ∷ s')
unfolding decode
decode_last bits low high b bytes s h =
    let (inside, s', e, same) =
      push-some (leb low b && leb b high) (bits * 64 + (b - 128)) (decode 0 0 0 0 bytes) s h in
    let (least, most) = and_true (leb low b) (leb b high) inside in
    (s', ground (arith, least), ground (arith, most), e, same)

pub decode_ascii :
    (bits low high b : ℕ) (bytes : List ℕ) (s s' : Str)
    → ltb b 128 ≡ true
    → decode zero bits low high (b ∷ bytes) ≡ some s
    → decode 0 0 0 0 bytes ≡ some s'
    → s ≡ b ∷ s'
unfolding decode
decode_ascii bits low high b bytes s s' a h e = ground arith

pub decode_wide :
    (bits low high b : ℕ) (bytes : List ℕ) (s : Str) (l : Lead)
    → ltb b 128 ≡ false
    → lead b ≡ some l
    → decode zero bits low high (b ∷ bytes) ≡ some s
    → decode l.more l.bits l.low l.high bytes ≡ some s
unfolding decode
decode_wide bits low high b bytes s l w e h = ground arith

decode_sound :
    (more bits low high : ℕ) (bytes : List ℕ) (s : Str)
    → decode more bits low high bytes ≡ some s
    → Completes more bits low high bytes s
unfolding decode Completes encode
decode_sound zero bits low high [] s h = let same : [] ≡ s = cc in rw (← same) refl
decode_sound (suc more) bits low high [] s h = cc
decode_sound zero bits low high (b ∷ bytes) s h = elim (Bool-cases (ltb b 128)) [
  | inl ascii ↦ elim (Option-cases (decode 0 0 0 0 bytes)) [
    | inl e ↦ absurd (ground arith)
    | inr (s', e) ↦
        let same = decode_ascii bits low high b bytes s s' ascii h e in
        let rest : encode s' ≡ bytes = decode_sound 0 0 0 0 bytes s' e in
        rw same (rw (encode_one b ascii, rest) refl)
  ]
  | inr wide ↦ elim (Option-cases (lead b)) [
    | inl e ↦ absurd (ground arith)
    | inr (l, e) ↦ lead_sound b l bytes s e (
        decode_sound l.more l.bits l.low l.high bytes s
          (decode_wide bits low high b bytes s l wide e h))
  ]
]
decode_sound (suc zero) bits low high (b ∷ bytes) s h =
    let (s', least, most, e, same) = decode_last bits low high b bytes s h in
    (b, bytes, s', refl, least, most, same, decode_sound 0 0 0 0 bytes s' e)
decode_sound (suc (suc more)) bits low high (b ∷ bytes) s h =
    let (least, most, later) = decode_step more bits low high b bytes s h in
    (
      b,
      bytes,
      refl,
      least,
      most,
      decode_sound (suc more) (bits * 64 + (b - 128)) 128 191 bytes s later,
    )

-- Bytes that are read as a text are the bytes of that text.
pub from_utf8_sound : (bytes : List ℕ) (s : Str) → from_utf8 bytes ≡ some s → encode s ≡ bytes
unfolding from_utf8 Completes
from_utf8_sound bytes s h = decode_sound 0 0 0 0 bytes s h
