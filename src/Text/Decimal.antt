-- ===== src/Text/Decimal.antt =====
-- The decimal form of an integer: `to_string`.
use rubix_redis_bridge.Prelude.{ℕ, zero, suc, ◌+◌, ◌/◌, ◌%◌, [], ◌∷◌, ltb, if◌then◌else◌}
use rubix_redis_bridge.Text.{Str}

-- `negsuc n` is -(n + 1).
pub data ℤ : Type 0 where
  pos : ℕ → ℤ
  negsuc : ℕ → ℤ

-- The digits of `n` before those that are there; the fuel n + 1 is enough, since each round takes a
-- digit off.
digits : ℕ → ℕ → Str → Str
digits zero n after = after
digits (suc fuel) n after =
    let here = (b'0' + n % 10) ∷ after in
    let more = digits fuel (n / 10) here in if ltb n 10 then here else more

unfoldable pub nat_to_string : ℕ → Str
unfolding digits
nat_to_string n = digits (suc n) n []

unfoldable pub int_to_string : ℤ → Str
unfolding nat_to_string
int_to_string (pos n) = nat_to_string n
int_to_string (negsuc n) = b'-' ∷ nat_to_string (suc n)
