-- ===== src/Prelude/Collecting.antt =====
-- `collect` into a result: every item in order, or an error.
use mathlib.Core.Path.{◌≡◌, refl, subst}
use mathlib.Core.Logic.{◌↔◌}
use mathlib.Core.List.{List, [], ◌∷◌}
use native.Mathlib.Omega.{arith}
use rubix_redis_bridge.Prelude.Lists.{Forall₂}
use rubix_redis_bridge.Prelude.Errors.{Result, ok, >>=-eq-ok, collect}

module _ {ℓ} {E : Type 0} {A : Type ℓ} {B : Type 0} {f : A → Result E B} (R : A → B → Type 0)
    (at : (x : A) (y : B) → (f x ≡ ok y) ↔ R x y) where
  collect_sound : (xs : List A) (ys : List B) → collect f xs ≡ ok ys → Forall₂ R xs ys
  unfolding collect
  collect_sound [] [] h = tt
  collect_sound [] (y ∷ ys) h = absurd (ground arith)
  collect_sound (x ∷ xs) ys h =
      let (z, here, more) = >>=-eq-ok (f x) _ h in
      let (zs, later, done) = >>=-eq-ok (collect f xs) _ more in
      let all : z ∷ zs ≡ ys = ground (arith, done) in
      subst (Forall₂ R (x ∷ xs)) all ((at x z).0 here, collect_sound xs zs later)

  collect_complete : (xs : List A) (ys : List B) → Forall₂ R xs ys → collect f xs ≡ ok ys
  unfolding collect
  collect_complete [] [] r = refl
  collect_complete [] (y ∷ ys) r = absurd r
  collect_complete (x ∷ xs) [] r = absurd r
  collect_complete (x ∷ xs) (y ∷ ys) (here, later) =
      rw ((at x y).1 here) (rw (collect_complete xs ys later))

  -- The items are the images of the list, one for one and in order.
  pub collect_iff : (xs : List A) (ys : List B) → (collect f xs ≡ ok ys) ↔ Forall₂ R xs ys
  collect_iff xs ys = (collect_sound xs ys, collect_complete xs ys)
