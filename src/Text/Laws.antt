-- ===== src/Text/Laws.antt =====
-- Trimming and changing case, as the command names and the capability lists go through them.
use rubix_redis_bridge.Prelude.{
  ℕ, ◌≡◌, refl, ap, inl, inr, false, [], ◌∷◌, map, arith, Bool-cases, length, ◌≤◌,
}
use rubix_redis_bridge.Text.{
  Str, is_whitespace, to_upper, to_ascii_uppercase, trim_start, trim_last, trim_end, trim,
}

to_upper_idem : (c : ℕ) → to_upper (to_upper c) ≡ to_upper c
unfolding to_upper
to_upper_idem c = ground arith

is_whitespace-to_upper : (c : ℕ) → is_whitespace (to_upper c) ≡ is_whitespace c
unfolding to_upper is_whitespace
is_whitespace-to_upper c = ground arith

pub to_ascii_uppercase_idem :
    (s : Str) → to_ascii_uppercase (to_ascii_uppercase s) ≡ to_ascii_uppercase s
unfolding to_ascii_uppercase
to_ascii_uppercase_idem [] = refl
to_ascii_uppercase_idem (c ∷ s) = cc (to_upper_idem c, to_ascii_uppercase_idem s)

trim_start-upper : (s : Str) → trim_start (map to_upper s) ≡ map to_upper (trim_start s)
unfolding trim_start
trim_start-upper [] = refl
trim_start-upper (c ∷ s) = ground (arith, is_whitespace-to_upper c, trim_start-upper s)

trim_last-upper :
    (c : ℕ) (s : Str) → trim_last (to_upper c) (map to_upper s) ≡ map to_upper (trim_last c s)
trim_last-upper c [] = ground (arith, is_whitespace-to_upper c)
trim_last-upper c (d ∷ s) = refl

trim_end-upper : (s : Str) → trim_end (map to_upper s) ≡ map to_upper (trim_end s)
unfolding trim_end
trim_end-upper [] = refl
trim_end-upper (c ∷ s) = rw (trim_end-upper s) (trim_last-upper c (trim_end s))

pub trim-to_ascii_uppercase : (s : Str) → trim (to_ascii_uppercase s) ≡ to_ascii_uppercase (trim s)
unfolding trim to_ascii_uppercase
trim-to_ascii_uppercase s = rw trim_start-upper (trim_end-upper (trim_start s))

trim_last-trim_end : (c : ℕ) (s : Str) → trim_end s ≡ s → trim_end (trim_last c s) ≡ trim_last c s
unfolding trim_end
trim_last-trim_end c [] h = ground arith
trim_last-trim_end c (d ∷ s) h = rw (h, trim_end) refl

trim_end_idem : (s : Str) → trim_end (trim_end s) ≡ trim_end s
unfolding trim_end
trim_end_idem [] = refl
trim_end_idem (c ∷ s) = trim_last-trim_end c (trim_end s) (trim_end_idem s)

length-trim_start-le : (s : Str) → length (trim_start s) ≤ length s
unfolding trim_start
length-trim_start-le [] = omega arith
length-trim_start-le (c ∷ s) = ground (arith, length-trim_start-le s)

-- A text that starts with no white space keeps its first character.
head_not_whitespace : (c : ℕ) (s : Str) → trim_start (c ∷ s) ≡ c ∷ s → is_whitespace c ≡ false
unfolding trim_start
head_not_whitespace c s h = elim (Bool-cases (is_whitespace c)) [
  | inl white ↦ absurd (
      omega (
        arith,
        length-trim_start-le s,
        ap length (let e : trim_start s ≡ c ∷ s = rw white at h in e),
      ))
  | inr solid ↦ solid
]

trim_start-trim_last :
    (c : ℕ) (s : Str) → is_whitespace c ≡ false → trim_start (trim_last c s) ≡ trim_last c s
unfolding trim_start
trim_start-trim_last c [] h = rw h (rw h refl)
trim_start-trim_last c (d ∷ s) h = rw h refl

trim_start-trim_end : (s : Str) → trim_start s ≡ s → trim_start (trim_end s) ≡ trim_end s
unfolding trim_start trim_end
trim_start-trim_end [] h = refl
trim_start-trim_end (c ∷ s) h = trim_start-trim_last c (trim_end s) (head_not_whitespace c s h)

trim_start_idem : (s : Str) → trim_start (trim_start s) ≡ trim_start s
unfolding trim_start
trim_start_idem [] = refl
trim_start_idem (c ∷ s) = ground (arith, trim_start_idem s)

pub trim_idem : (s : Str) → trim (trim s) ≡ trim s
unfolding trim
trim_idem s =
    rw (trim_start-trim_end (trim_start s) (trim_start_idem s)) (trim_end_idem (trim_start s))
