-- ===== src/Prelude/Maps.antt =====
-- `HashMap` as an association list over a type with a Boolean equality.
use mathlib.Core.Path.{◌≡◌, refl}
use mathlib.Core.Logic.{◌≢◌, inl, inr}
use mathlib.Core.Bool.{Bool, true, false, ◌||◌}
use mathlib.Core.Option.{Option, none, some}
use mathlib.Core.List.{List, [], ◌∷◌}
use Prim.Native.Nat.{suc, ◌≤◌}
use native.Mathlib.Omega.{arith}
use rubix_redis_bridge.Prelude.Tests.{if◌then◌else◌, Bool-cases}
use rubix_redis_bridge.Prelude.Lists.{length}
use rubix_redis_bridge.Prelude.Sets.{Equality}

module _ {ℓ κ} {K : Type ℓ} {V : Type κ} ⦃e : Equality K⦄ where
  -- `HashMap::get`
  unfoldable pub get : List (K × V) → K → Option V
  get [] k = none
  get ((j, v) ∷ m) k = if e.same j k then some v else get m k

  -- `HashMap::insert`, in place where the key is there
  unfoldable pub put : List (K × V) → K → V → List (K × V)
  put [] k v = (k, v) ∷ []
  put ((j, w) ∷ m) k v = if e.same j k then (k, v) ∷ m else (j, w) ∷ put m k v

  -- `HashMap::retain`, whose closure may look at the value
  unfoldable pub retain : (V → Bool) → List (K × V) → List (K × V)
  retain p [] = []
  retain p ((j, w) ∷ m) = let rest = retain p m in if p w then (j, w) ∷ rest else rest

  -- `HashMap::remove`
  unfoldable pub delete : List (K × V) → K → List (K × V)
  delete [] k = []
  delete ((j, w) ∷ m) k = let rest = delete m k in if e.same j k then rest else (j, w) ∷ rest

  -- `HashMap::contains_key`
  unfoldable pub contains_key : List (K × V) → K → Bool
  contains_key [] k = false
  contains_key ((j, w) ∷ m) k = e.same j k || contains_key m k

  -- No entry has the key.
  abbrev pub IsFresh : K → List (K × V) → Type ℓ
  IsFresh k [] = Unit
  IsFresh k ((j, w) ∷ m) = (j ≢ k) × IsFresh k m

  -- Every key has one entry.
  abbrev pub HasDistinctKeys : List (K × V) → Type ℓ
  HasDistinctKeys [] = Unit
  HasDistinctKeys ((j, w) ∷ m) = IsFresh j m × HasDistinctKeys m

  pub get-put :
      (m : List (K × V)) (k j : K) (v : V)
      → get (put m k v) j ≡ (if e.same k j then some v else get m j)
  unfolding get put
  get-put [] k j v = refl
  get-put ((i, w) ∷ m) k j v =
      ground (arith, e.decides k j, e.decides i k, e.decides i j, get-put m k j v)

  pub get-put_self : (m : List (K × V)) (k : K) (v : V) → get (put m k v) k ≡ some v
  get-put_self m k v = ground (arith, get-put m k k v, e.decides k k)

  pub get-delete :
      (m : List (K × V)) (k j : K) → get (delete m k) j ≡ (if e.same k j then none else get m j)
  unfolding get delete
  get-delete [] k j = ground arith
  get-delete ((i, w) ∷ m) k j =
      ground (arith, e.decides k j, e.decides i k, e.decides i j, get-delete m k j)

  pub contains_key-get :
      (m : List (K × V)) (k : K)
      → contains_key m k ≡ elim (get m k) [ none ↦ false | some v ↦ true ]
  unfolding contains_key get
  contains_key-get [] k = refl
  contains_key-get ((i, w) ∷ m) k = ground (arith, contains_key-get m k)

  pub length-put :
      (m : List (K × V)) (k : K) (v : V)
      → length (put m k v) ≡ (if contains_key m k then length m else suc (length m))
  unfolding put contains_key
  length-put [] k v = refl
  length-put ((i, w) ∷ m) k v = ground (arith, length-put m k v)

  pub length-delete-le : (m : List (K × V)) (k : K) → length (delete m k) ≤ length m
  unfolding delete
  length-delete-le [] k = omega arith
  length-delete-le ((i, w) ∷ m) k = ground (arith, length-delete-le m k)

  pub length-retain-le : (p : V → Bool) (m : List (K × V)) → length (retain p m) ≤ length m
  unfolding retain
  length-retain-le p [] = omega arith
  length-retain-le p ((i, w) ∷ m) = ground (arith, length-retain-le p m)

  pub IsFresh-get : (m : List (K × V)) (k : K) → IsFresh k m → get m k ≡ none
  unfolding get
  IsFresh-get [] k h = refl
  IsFresh-get ((i, w) ∷ m) k h = ground (arith, e.decides i k, IsFresh-get m k)

  -- An entry is kept exactly when its value passes; that is so where keys are distinct.
  pub get-retain :
      (p : V → Bool) (m : List (K × V)) (k : K)
      → HasDistinctKeys m
      → get (retain p m) k
        ≡ elim (get m k) [ none ↦ none | some v ↦ (if p v then some v else none) ]
  unfolding get retain
  get-retain p [] k d = refl
  get-retain p ((i, w) ∷ m) k (fresh, d) = elim (Bool-cases (e.same i k)) [
    | inl same ↦
        let i_is_k = (e.decides i k).0 same in
        let gone : get m k ≡ none = rw (← i_is_k) (IsFresh-get m i fresh) in
        let later : get (retain p m) k ≡ none = rw (get-retain p m k d, gone) in
        ground (arith, later)
    | inr other ↦ ground (arith, get-retain p m k d)
  ]

  IsFresh-put : (m : List (K × V)) (k j : K) (v : V) → k ≢ j → IsFresh j m → IsFresh j (put m k v)
  unfolding put
  IsFresh-put [] k j v ne h = (ne, tt)
  IsFresh-put ((i, w) ∷ m) k j v ne (h, hs) = ground (arith, IsFresh-put m k j v ne hs)

  IsFresh-retain : (p : V → Bool) (m : List (K × V)) (j : K) → IsFresh j m → IsFresh j (retain p m)
  unfolding retain
  IsFresh-retain p [] j h = tt
  IsFresh-retain p ((i, w) ∷ m) j (h, hs) = ground (arith, IsFresh-retain p m j hs)

  IsFresh-delete : (m : List (K × V)) (k j : K) → IsFresh j m → IsFresh j (delete m k)
  unfolding delete
  IsFresh-delete [] k j h = tt
  IsFresh-delete ((i, w) ∷ m) k j (h, hs) = ground (arith, IsFresh-delete m k j hs)

  pub put-HasDistinctKeys :
      (m : List (K × V)) (k : K) (v : V) → HasDistinctKeys m → HasDistinctKeys (put m k v)
  unfolding put
  put-HasDistinctKeys [] k v d = (tt, tt)
  put-HasDistinctKeys ((i, w) ∷ m) k v (fresh, d) = elim (Bool-cases (e.same i k)) [
    | inl same ↦ rw same (rw (← (e.decides i k).0 same) (fresh, d))
    | inr other ↦
        let ne : k ≢ i = λ q. ground (arith, e.decides i k) in
        rw other (IsFresh-put m k i v ne fresh, put-HasDistinctKeys m k v d)
  ]

  pub retain-HasDistinctKeys :
      (p : V → Bool) (m : List (K × V)) → HasDistinctKeys m → HasDistinctKeys (retain p m)
  unfolding retain
  retain-HasDistinctKeys p [] d = tt
  retain-HasDistinctKeys p ((i, w) ∷ m) (fresh, d) =
      ground (arith, IsFresh-retain p m i fresh, retain-HasDistinctKeys p m d)

  pub delete-HasDistinctKeys :
      (m : List (K × V)) (k : K) → HasDistinctKeys m → HasDistinctKeys (delete m k)
  unfolding delete
  delete-HasDistinctKeys [] k d = tt
  delete-HasDistinctKeys ((i, w) ∷ m) k (fresh, d) =
      ground (arith, IsFresh-delete m k i fresh, delete-HasDistinctKeys m k d)
