-- ===== src/Prelude/Errors.antt =====
-- Results that carry an error, as `anyhow::Result` and `Result<_, ApiError>` do.
use mathlib.Core.Path.{◌≡◌, refl}
use mathlib.Core.Logic.{◌⊎◌, inl, inr}
use mathlib.Core.Bool.{Bool, true, false}
use mathlib.Core.Option.{Option, none, some}
use mathlib.Core.List.{List, [], ◌∷◌}

pub data Result {ℓ} (E : Type 0) (A : Type ℓ) : Type ℓ where
  err : E → Result E A
  ok : A → Result E A

module _ {ℓ κ} {E : Type 0} {A : Type ℓ} {B : Type κ} where
  -- `?`
  infixl 5 ◌>>=◌
  abbrev pub ◌>>=◌ : Result E A → (A → Result E B) → Result E B
  err reason >>= next = err reason
  ok value >>= next = next value

module _ {κ} {E : Type 0} {B : Type κ} where
  infixl 5 ◌>>◌
  abbrev pub ◌>>◌ : Result E (Unit {0}) → Result E B → Result E B
  err reason >> next = err reason
  ok checked >> next = next

-- `if b { bail!(e) }`
abbrev pub bail_if : {E : Type 0} → Bool → E → Result E (Unit {0})
bail_if true e = err e
bail_if false e = ok tt

-- `Option::ok_or_else`
abbrev pub ok_or {ℓ} : {E : Type 0} {A : Type ℓ} → Option A → E → Result E A
ok_or none e = err e
ok_or (some a) e = ok a

abbrev pub map_err {ℓ} : {E F : Type 0} {A : Type ℓ} → (E → F) → Result E A → Result F A
map_err f (err reason) = err (f reason)
map_err f (ok value) = ok value

module _ {ℓ κ} {E : Type 0} {A : Type ℓ} {B : Type κ} where
  -- `iter().map(f).collect::<Result<Vec<_>, _>>()`: the first error ends the iteration.
  unfoldable pub collect : (A → Result E B) → List A → Result E (List B)
  collect f [] = ok []
  collect f (x ∷ xs) = f x >>= λ y. collect f xs >>= λ ys. ok (y ∷ ys)

  pub >>=-eq-ok :
      (first : Result E A) (next : A → Result E B) {value : B}
      → (first >>= next) ≡ ok value
      → (a : A) × (first ≡ ok a) × (next a ≡ ok value)
  >>=-eq-ok (err reason) next h = cc
  >>=-eq-ok (ok a) next h = (a, refl, h)

pub Result-cases {ℓ} :
    {E : Type 0} {A : Type ℓ} (r : Result E A) → ((a : A) × (r ≡ ok a)) ⊎ ((e : E) × (r ≡ err e))
Result-cases (ok a) = inl (a, refl)
Result-cases (err e) = inr (e, refl)
