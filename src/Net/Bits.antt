-- ===== src/Net/Bits.antt =====
-- Masks: the `&` of a word with a mask of leading ones keeps the leading bits.
use Prim.Native.Nat.{bit_and, digits, bit_and-bitwise}
use native.Mathlib.Nat.{
  one-le-pow, mul-div_cancel, pow-suc, pow-succ', mul_assoc, div-div-eq-div-mul,
}
use rubix_redis_bridge.Prelude.{
  ℕ, zero, suc, ◌+◌, ◌-◌, ◌*◌, ◌/◌, ◌%◌, ◌^◌, ◌≤◌, ◌<◌, min, ◌≡◌, ◌↔◌, refl, ap, subst, ◌∙◌, sym,
  arith,
}

twice : (m z : ℕ) → m * 2 ^ suc z ≡ m * 2 ^ z * 2
twice m z = ap (λ p. m * p) (pow-suc 2 z) ∙ sym (mul_assoc m (2 ^ z) 2)

halves : (a z : ℕ) → a / 2 ^ suc z ≡ a / 2 / 2 ^ z
halves a z = ap (λ p. a / p) (pow-succ' 2 z) ∙ sym (div-div-eq-div-mul a 2 (2 ^ z))

zero_divided : (z : ℕ) → 0 / 2 ^ z * 2 ^ z ≡ 0
zero_divided zero = refl
zero_divided (suc z) =
    omega
      (arith, twice (0 / 2 ^ suc z) z, halves 0 z, zero_divided z, ap (λ q. q * 2 ^ z) (halves 0 z))

half_lt : (a n width : ℕ) → width ≡ suc n → a < 2 ^ width → a / 2 < 2 ^ n
half_lt a n width e lt =
    let bound = subst (λ w. a < 2 ^ w) e lt in omega (arith, pow-suc 2 n, bound)

-- The digits of `&` with enough fuel, for a mask of `ones` ones over `low` low.
masked :
    (fuel ones low a : ℕ)
    → a ≤ fuel
    → a < 2 ^ (ones + low)
    → digits (λ b. 0) min fuel a ((2 ^ ones - 1) * 2 ^ low) ≡ a / 2 ^ low * 2 ^ low
masked zero ones low zero le lt = sym (zero_divided low)
masked zero ones low (suc a) le lt = absurd (omega arith)
masked (suc fuel) ones low zero le lt = sym (zero_divided low)
masked (suc fuel) ones (suc low) (suc a) le lt =
    let half = half_lt (suc a) (ones + low) _ (omega arith) lt in
    let more = masked fuel ones low (suc a / 2) (omega arith) half in
    let mask = twice (2 ^ ones - 1) low in
    let shifted : (2 ^ ones - 1) * 2 ^ suc low / 2 ≡ (2 ^ ones - 1) * 2 ^ low =
      omega (arith, mask) in
    let even : (2 ^ ones - 1) * 2 ^ suc low % 2 ≡ 0 = omega (arith, mask) in
    rw (shifted, even, more, halves (suc a) low) (omega (arith, twice (suc a / 2 / 2 ^ low) low))
masked (suc fuel) (suc ones) zero (suc a) le lt =
    let half = half_lt (suc a) (ones + 0) _ (omega arith) lt in
    let more = masked fuel ones zero (suc a / 2) (omega arith) half in
    let some_one = one-le-pow ones 2 (omega arith) in
    let shifted : (2 ^ suc ones - 1) * 1 / 2 ≡ (2 ^ ones - 1) * 1 =
      omega (arith, pow-suc 2 ones, some_one) in
    let odd : (2 ^ suc ones - 1) * 1 % 2 ≡ 1 = omega (arith, pow-suc 2 ones, some_one) in
    rw (shifted, odd, more) (omega arith)
masked (suc fuel) zero zero (suc a) le lt = absurd (omega arith)

-- A mask of `ones` leading ones in a word of `ones + low` bits.
pub bit_and-mask :
    (ones low a : ℕ)
    → a < 2 ^ (ones + low)
    → bit_and a ((2 ^ ones - 1) * 2 ^ low) ≡ a / 2 ^ low * 2 ^ low
bit_and-mask ones low a lt =
    bit_and-bitwise a ((2 ^ ones - 1) * 2 ^ low) ∙ masked a ones low a (omega arith) lt

-- Two words have the same masked bits exactly if they have the same leading bits.
pub bit_and-mask_iff :
    (ones low a b : ℕ)
    → a < 2 ^ (ones + low)
    → b < 2 ^ (ones + low)
    → (bit_and a ((2 ^ ones - 1) * 2 ^ low) ≡ bit_and b ((2 ^ ones - 1) * 2 ^ low))
      ↔ (a / 2 ^ low ≡ b / 2 ^ low)
bit_and-mask_iff ones low a b ha hb =
    let left = bit_and-mask ones low a ha in
    let right = bit_and-mask ones low b hb in
    let positive = one-le-pow low 2 (omega arith) in
    (
      λ h.
          let same : a / 2 ^ low * 2 ^ low ≡ b / 2 ^ low * 2 ^ low = sym left ∙ h ∙ right in
          sym (mul-div_cancel (a / 2 ^ low) positive)
          ∙ ap (λ n. n / 2 ^ low) same
          ∙ mul-div_cancel (b / 2 ^ low) positive,
      λ h. left ∙ ap (λ q. q * 2 ^ low) h ∙ sym right,
    )
