-- ===== src/Text/Utf8/Encoded.antt =====
-- The UTF-8 bytes of a character of two, three or four bytes, from the bits that the bytes hold.
use rubix_redis_bridge.Prelude.{ℕ, ◌+◌, ◌-◌, ◌*◌, ◌<◌, ◌≤◌, ◌≡◌, [], ◌∷◌, arith}
use rubix_redis_bridge.Text.Bytes.{encode_char}

pub encode_two :
    (a b : ℕ)
    → 194 ≤ a
    → a < 224
    → 128 ≤ b
    → b ≤ 191
    → encode_char ((a - 192) * 64 + (b - 128)) ≡ a ∷ b ∷ []
unfolding encode_char
encode_two a b h k l m = ground arith

pub encode_three :
    (a b c : ℕ)
    → 224 ≤ a
    → a < 240
    → 128 ≤ b
    → b ≤ 191
    → 160 ≤ (a - 224) * 64 + b
    → 128 ≤ c
    → c ≤ 191
    → encode_char (((a - 224) * 64 + (b - 128)) * 64 + (c - 128)) ≡ a ∷ b ∷ c ∷ []
unfolding encode_char
encode_three a b c h k l m n o p = ground arith

pub encode_four :
    (a b c d : ℕ)
    → 240 ≤ a
    → a < 245
    → 128 ≤ b
    → b ≤ 191
    → 144 ≤ (a - 240) * 64 + b
    → 128 ≤ c
    → c ≤ 191
    → 128 ≤ d
    → d ≤ 191
    → encode_char ((((a - 240) * 64 + (b - 128)) * 64 + (c - 128)) * 64 + (d - 128))
      ≡ a ∷ b ∷ c ∷ d ∷ []
unfolding encode_char
encode_four a b c d h k l m n o p q r = ground arith
