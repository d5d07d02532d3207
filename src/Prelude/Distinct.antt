-- ===== src/Prelude/Distinct.antt =====
-- Lists without repetitions, and how a loop that collects into a `HashSet` builds one.
use mathlib.Core.Path.{◌≡◌, refl}
use mathlib.Core.Bool.{true, false, ◌||◌}
use mathlib.Core.List.{List, [], ◌∷◌, ◌++◌}
use native.Mathlib.Omega.{arith}
use rubix_redis_bridge.Prelude.Lists.{All, All-append, All-weaken, All-always}
use rubix_redis_bridge.Prelude.Sets.{Equality, contains, contains-append, insert, contains-insert}

module _ {ℓ} {A : Type ℓ} ⦃e : Equality A⦄ where
  abbrev pub IsDistinct : List A → Type 0
  IsDistinct [] = Unit
  IsDistinct (x ∷ xs) = (contains xs x ≡ false) × IsDistinct xs

  -- `after` is `before` with the members of `xs`, which are new and differ from each other.
  pub record Extends (before xs after : List A) : Type ℓ where
    pub fresh : All (λ x. contains before x ≡ false) xs
    pub distinct : IsDistinct xs
    pub grown : (a : A) → contains after a ≡ (contains before a || contains xs a)

  pub Extends-nil : (before : List A) → Extends before [] before
  unfolding contains
  Extends-nil before = record { fresh = tt; distinct = tt; grown = λ a. ground arith }

  pub Extends-one :
      (before : List A) (x : A)
      → contains before x ≡ false
      → Extends before (x ∷ []) (insert before x)
  unfolding contains
  Extends-one before x h = record {
    fresh = (h, tt);
    distinct = (refl, tt);
    grown = λ a. ground (arith, contains-insert before x a);
  }

  contains-of_fresh :
      (xs ys : List A) (x : A)
      → contains xs x ≡ true
      → All (λ y. contains xs y ≡ false) ys
      → contains ys x ≡ false
  unfolding contains
  contains-of_fresh xs [] x h f = refl
  contains-of_fresh xs (y ∷ ys) x h f =
      ground (arith, f.0, e.decides x y, contains-of_fresh xs ys x h f.1)

  IsDistinct-append :
      (xs ys : List A)
      → IsDistinct xs
      → IsDistinct ys
      → All (λ y. contains xs y ≡ false) ys
      → IsDistinct (xs ++ ys)
  unfolding contains
  IsDistinct-append [] ys d d' f = d'
  IsDistinct-append (x ∷ xs) ys d d' f =
      let out = contains-of_fresh (x ∷ xs) ys x (ground (arith, e.decides x x)) f in
      let later : All (λ y. contains xs y ≡ false) ys = All-weaken ys (λ y k. ground arith) f in
      (ground (arith, d.0, contains-append xs ys x), IsDistinct-append xs ys d.1 d' later)

  pub Extends-append :
      (before xs between ys after : List A)
      → Extends before xs between
      → Extends between ys after
      → Extends before (xs ++ ys) after
  Extends-append before xs between ys after h k = record {
    fresh = All-append _ xs ys h.fresh (All-weaken ys (λ y f. ground (arith, h.grown y)) k.fresh);
    distinct =
        IsDistinct-append xs ys h.distinct k.distinct
          (All-weaken ys (λ y f. ground (arith, h.grown y)) k.fresh);
    grown = λ a. ground (arith, h.grown a, k.grown a, contains-append xs ys a);
  }

  fresh_cons :
      (x : A) (xs ys : List A)
      → contains ys x ≡ false
      → All (λ y. contains xs y ≡ false) ys
      → All (λ y. contains (x ∷ xs) y ≡ false) ys
  unfolding contains
  fresh_cons x xs [] out f = tt
  fresh_cons x xs (y ∷ ys) out f =
      (ground (arith, f.0, e.decides x y, e.decides y x), fresh_cons x xs ys (ground arith) f.1)

  pub IsDistinct-split :
      (xs ys : List A)
      → IsDistinct (xs ++ ys)
      → IsDistinct xs × IsDistinct ys × All (λ y. contains xs y ≡ false) ys
  unfolding contains
  IsDistinct-split [] ys d = (tt, d, All-always ys (λ y. refl))
  IsDistinct-split (x ∷ xs) ys (out, d) =
      let (dx, dy, f) = IsDistinct-split xs ys d in
      let both = contains-append xs ys x in
      ((ground (arith, out, both), dx), dy, fresh_cons x xs ys (ground (arith, out, both)) f)

  -- The members of the first part are not in the second.
  pub IsDistinct-apart :
      (xs ys : List A) (x : A)
      → IsDistinct (xs ++ ys)
      → contains xs x ≡ true
      → contains ys x ≡ false
  IsDistinct-apart xs ys x d there = contains-of_fresh xs ys x there (IsDistinct-split xs ys d).2

  -- What is fresh beside a new member is fresh without it, and is not that member.
  pub fresh-insert :
      (seen rest : List A) (x : A)
      → All (λ k. contains (insert seen x) k ≡ false) rest
      → All (λ k. contains seen k ≡ false) rest × (contains rest x ≡ false)
  fresh-insert seen rest x f = (
    All-weaken rest (λ k h. ground (arith, contains-insert seen x k)) f,
    contains-of_fresh (insert seen x) rest x
        (ground (arith, contains-insert seen x x, e.decides x x)) f,
  )
