-- ===== src/Text/Bytes.antt =====
-- The UTF-8 form of a text: `as_bytes`, and `len`, which counts bytes.
use rubix_redis_bridge.Prelude.{ℕ, ◌+◌, ◌/◌, ◌%◌, List, [], ◌∷◌, ◌++◌, ltb, if◌then◌else◌, length}

unfoldable pub encode_char : ℕ → List ℕ
encode_char c =
    if ltb c 128
    then c ∷ []
    else if ltb c 2048
    then (192 + c / 64) ∷ (128 + c % 64) ∷ []
    else if ltb c 65536
    then (224 + c / 4096) ∷ (128 + c / 64 % 64) ∷ (128 + c % 64) ∷ []
    else (240 + c / 262144) ∷ (128 + c / 4096 % 64) ∷ (128 + c / 64 % 64) ∷ (128 + c % 64) ∷ []

unfoldable pub encode : List ℕ → List ℕ
unfolding encode_char
encode [] = []
encode (c ∷ s) = encode_char c ++ encode s

unfoldable pub utf8_len : List ℕ → ℕ
unfolding encode
utf8_len s = length (encode s)
