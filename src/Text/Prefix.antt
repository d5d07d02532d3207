-- ===== src/Text/Prefix.antt =====
-- `strip_prefix`, `starts_with` and `split_once` on a text, as the source calls them.
use rubix_redis_bridge.Prelude.{
  ◌≡◌, refl, inl, inr, Bool, true, false, [], ◌∷◌, ◌++◌, Option, none, some, arith, ◌==◌, ==_iff,
  Bool-cases, if◌then◌else◌,
}
use rubix_redis_bridge.Text.{Str}

unfoldable pub strip_prefix : Str → Str → Option Str
strip_prefix [] s = some s
strip_prefix (p ∷ prefix) [] = none
strip_prefix (p ∷ prefix) (c ∷ s) =
    let rest = strip_prefix prefix s in if p == c then rest else none

abbrev pub starts_with : Str → Str → Bool
starts_with prefix s = elim (strip_prefix prefix s) [ none ↦ false | some rest ↦ true ]

-- `split_once(separator)` at the first occurrence of a text
unfoldable pub split_once_at : Str → Str → Option (Str × Str)
unfolding strip_prefix
split_once_at separator [] = elim (strip_prefix separator []) [
  | none ↦ none
  | some rest ↦ some ([], rest)
]
split_once_at separator (c ∷ s) =
    let later = split_once_at separator s in
    elim (strip_prefix separator (c ∷ s)) [
      | some rest ↦ some ([], rest)
      | none ↦ elim later [ none ↦ none | some (before, after) ↦ some (c ∷ before, after) ]
    ]

pub strip_prefix_sound :
    (prefix s rest : Str) → strip_prefix prefix s ≡ some rest → s ≡ prefix ++ rest
unfolding strip_prefix
strip_prefix_sound [] s rest h = cc
strip_prefix_sound (p ∷ prefix) [] rest h = cc
strip_prefix_sound (p ∷ prefix) (c ∷ s) rest h = elim (Bool-cases (p == c)) [
  | inl e ↦
      let tail : s ≡ prefix ++ rest = strip_prefix_sound prefix s rest (ground arith) in
      let head : p ≡ c = (==_iff p c).0 e in rw (tail, head) refl
  | inr e ↦ absurd (ground arith)
]
