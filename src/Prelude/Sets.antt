-- ===== src/Prelude/Sets.antt =====
-- `HashSet` as a list, up to the order of its members, over a type with a Boolean equality.
use mathlib.Core.Path.{◌≡◌, refl, sym, ◌∙◌}
use mathlib.Core.Logic.{◌↔◌, inl, inr}
use mathlib.Core.Logic.Or
use mathlib.Core.Bool.{Bool, Bool-set, true, false, false≢true, not, ◌&&◌, ◌||◌}
use mathlib.Core.List.{
  List, [], ◌∷◌, ◌++◌, Mem, mem-cons, mem-cons_self, mem-cons_of_mem, not-mem-nil,
}
use Prim.Native.Nat.{ℕ}
use native.Mathlib.Omega.{arith}
use rubix_redis_bridge.Prelude.Tests.{◌==◌, ==_iff, if◌then◌else◌, Bool-cases}
use rubix_redis_bridge.Prelude.Lists.{filter}

pub record Equality {ℓ} (A : Type ℓ) : Type ℓ where
  pub same : A → A → Bool
  pub decides : (a b : A) → (same a b ≡ true) ↔ (a ≡ b)

instance abbrev pub nat_eq : Equality ℕ
nat_eq = record { same = ◌==◌; decides = ==_iff }

module _ {ℓ} {A : Type ℓ} ⦃e : Equality A⦄ where
  unfoldable pub list_beq : List A → List A → Bool
  list_beq [] [] = true
  list_beq [] (y ∷ ys) = false
  list_beq (x ∷ xs) [] = false
  list_beq (x ∷ xs) (y ∷ ys) = e.same x y && list_beq xs ys

  pub list_beq_iff : (xs ys : List A) → (list_beq xs ys ≡ true) ↔ (xs ≡ ys)
  unfolding list_beq
  list_beq_iff [] [] = ground arith
  list_beq_iff [] (y ∷ ys) = ground arith
  list_beq_iff (x ∷ xs) [] = ground arith
  list_beq_iff (x ∷ xs) (y ∷ ys) = ground (arith, e.decides x y, list_beq_iff xs ys)

  instance unfoldable pub list_eq : Equality (List A)
  unfolding list_beq
  list_eq = record { same = list_beq; decides = list_beq_iff }

  -- `HashSet::contains`
  unfoldable pub contains : List A → A → Bool
  contains [] a = false
  contains (x ∷ xs) a = e.same a x || contains xs a

  pub contains-cons :
      (x : A) (xs : List A) (a : A) → contains (x ∷ xs) a ≡ (e.same a x || contains xs a)
  unfolding contains
  contains-cons x xs a = refl

  contains_complete : (xs : List A) (a : A) → Mem a xs → contains xs a ≡ true
  unfolding contains
  contains_complete [] a m = absurd (not-mem-nil m)
  contains_complete (x ∷ xs) a m =
      Or.elim (Bool-set _ _) (mem-cons.0 m) (λ p. ground (arith, e.decides a x))
        (λ later. rw (contains_complete xs a later) (ground arith))

  contains_sound : (xs : List A) (a : A) → contains xs a ≡ true → Mem a xs
  unfolding contains
  contains_sound (x ∷ xs) a h = elim (Bool-cases (e.same a x)) [
    | inl same ↦ rw ((e.decides a x).0 same) mem-cons_self
    | inr other ↦ mem-cons_of_mem x (contains_sound xs a (ground arith))
  ]
  contains_sound [] a h = cc

  pub contains_iff : (xs : List A) (a : A) → (contains xs a ≡ true) ↔ Mem a xs
  contains_iff xs a = (contains_sound xs a, contains_complete xs a)

  pub contains-eq-false_iff : (xs : List A) (a : A) → (contains xs a ≡ false) ↔ (¬ Mem a xs)
  contains-eq-false_iff xs a = (
    λ h m. false≢true (sym h ∙ contains_complete xs a m),
    λ out. elim (Bool-cases (contains xs a)) [
      | inl there ↦ absurd (out (contains_sound xs a there))
      | inr missing ↦ missing
    ],
  )

  pub contains-append :
      (xs ys : List A) (a : A) → contains (xs ++ ys) a ≡ (contains xs a || contains ys a)
  unfolding contains
  contains-append [] ys a = refl
  contains-append (x ∷ xs) ys a = ground (arith, contains-append xs ys a)

  -- `HashSet::insert`; the source's result, whether the item is new, is `not (contains xs a)`.
  unfoldable pub insert : List A → A → List A
  insert xs a = if contains xs a then xs else a ∷ xs

  pub contains-insert :
      (xs : List A) (a b : A) → contains (insert xs a) b ≡ (e.same b a || contains xs b)
  unfolding insert
  contains-insert xs a b = elim (Bool-cases (contains xs a)) [
    | inl old ↦ rw old (elim (Bool-cases (e.same b a)) [
      | inl same ↦ rw (same, (e.decides b a).0 same, old)
      | inr other ↦ rw other
    ])
    | inr new ↦ rw new (contains-cons a xs b)
  ]

  -- `HashSet::extend`, and `collect` into a set
  unfoldable pub insert_all : List A → List A → List A
  insert_all xs [] = xs
  insert_all xs (a ∷ more) = insert_all (insert xs a) more

  pub contains-insert_all :
      (xs ys : List A) (b : A) → contains (insert_all xs ys) b ≡ (contains ys b || contains xs b)
  unfolding insert_all contains
  contains-insert_all xs [] b = refl
  contains-insert_all xs (y ∷ ys) b =
      rw (contains-insert_all (insert xs y) ys b, contains-insert xs y b, contains-cons y ys b)
        (ground arith)

  pub contains-filter :
      (p : A → Bool) (xs : List A) (a : A) → contains (filter p xs) a ≡ (contains xs a && p a)
  unfolding filter contains
  contains-filter p [] a = refl
  contains-filter p (x ∷ xs) a = ground (arith, contains-filter p xs a, e.decides a x)

  -- `HashSet::remove`
  unfoldable pub remove_item : List A → A → List A
  remove_item xs a = filter (λ x. not (e.same x a)) xs

  pub contains-remove_item :
      (xs : List A) (a b : A) → contains (remove_item xs a) b ≡ (contains xs b && not (e.same b a))
  unfolding remove_item
  contains-remove_item xs a b = contains-filter _ xs b
