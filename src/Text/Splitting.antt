-- ===== src/Text/Splitting.antt =====
-- What `split_once` finds.
use rubix_redis_bridge.Prelude.{
  ℕ, ◌≡◌, ◌↔◌, refl, inl, inr, Bool, true, false, [], ◌∷◌, ◌++◌, Option, some, arith, All,
  Bool-cases, Option-cases, ap,
}
use rubix_redis_bridge.Text.{Str, split_once}

-- The text up to the first character that passes the test, and the text after it.
pub record IsCut (p : ℕ → Bool) (s before after : Str) : Type 0 where
  pub separator : ℕ
  pub passes : p separator ≡ true
  pub first : All (λ c. p c ≡ false) before
  pub text_is : s ≡ before ++ separator ∷ after

split_once_sound :
    (p : ℕ → Bool) (s before after : Str)
    → split_once p s ≡ some (before, after)
    → IsCut p s before after
unfolding split_once
split_once_sound p [] before after h = cc
split_once_sound p (c ∷ s) before after h = elim (Bool-cases (p c)) [
  | inl cuts ↦
      let found : ◌≡◌ {A = Option (Str × Str)} (some ([], s)) (some (before, after)) =
        ground arith in
      let no_before : [] ≡ before = cc in
      let all_after : s ≡ after = cc in
      rw (← no_before, ← all_after)
        (record { separator = c; passes = cuts; first = tt; text_is = refl })
  | inr on_it ↦ elim (Option-cases (split_once p s)) [
    | inl e ↦ absurd (ground arith)
    | inr ((front, rest), e) ↦
        let found : ◌≡◌ {A = Option (Str × Str)} (some (c ∷ front, rest)) (some (before, after)) =
          ground arith in
        let same : c ∷ front ≡ before = cc in
        let same_after : rest ≡ after = cc in
        let cut = split_once_sound p s front rest e in
        rw (← same, ← same_after)
          (record {
            separator = cut.separator;
            passes = cut.passes;
            first = (on_it, cut.first);
            text_is = ap (λ t. c ∷ t) cut.text_is;
          })
  ]
]

split_once_complete :
    (p : ℕ → Bool) (s before after : Str)
    → IsCut p s before after
    → split_once p s ≡ some (before, after)
unfolding split_once
split_once_complete p s [] after cut = rw cut.text_is (rw cut.passes refl)
split_once_complete p s (c ∷ before) after cut =
    let later = split_once_complete p (before ++ cut.separator ∷ after) before after (record {
      separator = cut.separator;
      passes = cut.passes;
      first = cut.first.1;
      text_is = refl;
    }) in
    rw cut.text_is (rw (cut.first.0, later) refl)

pub split_once_iff :
    (p : ℕ → Bool) (s before after : Str)
    → (split_once p s ≡ some (before, after)) ↔ IsCut p s before after
split_once_iff p s before after =
    (split_once_sound p s before after, split_once_complete p s before after)
