-- ===== src/Base/HashMap.antt =====
-- `std::collections::HashMap` as an association list: a key stands at most once when the map is
-- built by these functions; the iteration order is that of the list.
use Prim.Native.Nat.{suc}
use mathlib.Core.Path.{ap, ◌≡◌, refl}
use mathlib.Core.Logic.{◌≢◌}
use mathlib.Core.Bool.{Bool, true, false}
use mathlib.Core.List.{List, [], ◌∷◌, map}
use mathlib.Core.Option.{Option, none, some}
use native.Mathlib.Omega.{arith}
use mathlib.Core.Path.{subst}
use mathlib.Core.Logic.{inl, inr}
use marie.Base.Tests.{if◌then◌else◌, Bool-cases}
use marie.Base.Lists.{All, In}
use marie.Base.Classes.{PartialEq, ◌==◌}

abbrev pub HashMap {ℓ κ} : Type ℓ → Type κ → Type (ℓ ⊔ κ)
HashMap K V = List (K × V)

module _ {ℓ κ} {K : Type ℓ} {V : Type κ} where
  abbrev pub empty : HashMap K V
  empty = []

  abbrev pub values : HashMap K V → List V
  values m = map (λ p. p.1) m

  abbrev pub is_empty : HashMap K V → Bool
  is_empty [] = true
  is_empty (x ∷ m) = false

module _ {ℓ κ} {K : Type ℓ} {V : Type κ} ⦃e : PartialEq K⦄ where
  unfoldable pub get : HashMap K V → K → Option V
  get [] k = none
  get ((j, v) ∷ m) k = if j == k then some v else get m k

  unfoldable pub contains_key : HashMap K V → K → Bool
  unfolding get
  contains_key m k = elim (get m k) [ none ↦ false | some v ↦ true ]

  unfoldable pub insert : HashMap K V → K → V → HashMap K V
  insert [] k v = (k, v) ∷ []
  insert ((j, w) ∷ m) k v = if j == k then (k, v) ∷ m else (j, w) ∷ insert m k v

  unfoldable pub remove : HashMap K V → K → HashMap K V
  remove [] k = []
  remove ((j, w) ∷ m) k = let rest = remove m k in if j == k then rest else (j, w) ∷ rest

  -- `extend`: the entries of an iterator, inserted one by one
  unfoldable pub extend : HashMap K V → List (K × V) → HashMap K V
  unfolding insert
  extend m [] = m
  extend m ((k, v) ∷ kvs) = extend (insert m k v) kvs

  pub get-insert :
      (m : HashMap K V) (k j : K) (v : V)
      → get (insert m k v) j ≡ (if k == j then some v else get m j)
  unfolding get insert
  get-insert [] k j v = refl
  get-insert ((i, w) ∷ m) k j v =
      ground (arith, get-insert m k j v, e.eq_iff k j, e.eq_iff i k, e.eq_iff i j)

  pub get-remove :
      (m : HashMap K V) (k j : K) → get (remove m k) j ≡ (if k == j then none else get m j)
  unfolding get remove
  get-remove [] k j = ground arith
  get-remove ((i, w) ∷ m) k j =
      ground (arith, get-remove m k j, e.eq_iff k j, e.eq_iff i k, e.eq_iff i j)

  pub get-insert_self : (m : HashMap K V) (k : K) (v : V) → get (insert m k v) k ≡ some v
  get-insert_self m k v = ground (arith, get-insert m k k v, e.eq_iff k k)

  pub get-head : (m : HashMap K V) (k : K) (v : V) → get ((k, v) ∷ m) k ≡ some v
  unfolding get
  get-head m k v = ground (arith, e.eq_iff k k)

  pub get-tail :
      (m : HashMap K V) (j k : K) (w v : V)
      → get m j ≡ none
      → get m k ≡ some v
      → (j ≢ k) × (get ((j, w) ∷ m) k ≡ some v)
  unfolding get
  get-tail m j k w v n g =
      let ne : j ≢ k = λ h. absurd (ground (arith, ap (get m) h, n, g)) in
      (ne, ground (arith, g, ne, e.eq_iff j k))

  pub insert-insert : (m : HashMap K V) (k : K) (v w : V) → insert (insert m k v) k w ≡ insert m k w
  unfolding insert
  insert-insert [] k v w = ground (arith, e.eq_iff k k)
  insert-insert ((j, x) ∷ m) k v w =
      ground (arith, insert-insert m k v w, e.eq_iff j k, e.eq_iff k k)

  pub get-insert_ne : (m : HashMap K V) (k j : K) (v : V) → k ≢ j → get (insert m k v) j ≡ get m j
  get-insert_ne m k j v h = ground (arith, get-insert m k j v, e.eq_iff k j)

  pub get-remove_self : (m : HashMap K V) (k : K) → get (remove m k) k ≡ none
  get-remove_self m k = ground (arith, get-remove m k k, e.eq_iff k k)

  pub get-remove_ne : (m : HashMap K V) (k j : K) → k ≢ j → get (remove m k) j ≡ get m j
  get-remove_ne m k j h = ground (arith, get-remove m k j, e.eq_iff k j)

  -- No key stands twice: what `HashMap` itself guarantees.
  abbrev pub Distinct : HashMap K V → Type κ
  Distinct [] = Unit
  Distinct ((j, v) ∷ m) = (get m j ≡ none) × Distinct m

  pub insert-Distinct : (m : HashMap K V) (k : K) (v : V) → Distinct m → Distinct (insert m k v)
  unfolding insert get
  insert-Distinct [] k v d = (refl, tt)
  insert-Distinct ((j, w) ∷ m) k v d =
      ground (arith, d, insert-Distinct m k v d.1, get-insert m k j v, e.eq_iff j k, e.eq_iff k j)

  pub remove-Distinct : (m : HashMap K V) (k : K) → Distinct m → Distinct (remove m k)
  unfolding remove
  remove-Distinct [] k d = tt
  remove-Distinct ((j, w) ∷ m) k d =
      ground (arith, d, remove-Distinct m k d.1, get-remove m k j, e.eq_iff j k, e.eq_iff k j)

  -- What holds of every value that can be looked up holds along `values`, and conversely.
  pub All-values {μ} :
      (P : V → Type μ) (m : HashMap K V)
      → Distinct m
      → ((k : K) (v : V) → get m k ≡ some v → P v)
      → All P (values m)
  unfolding get
  All-values P [] d h = tt
  All-values P ((j, w) ∷ m) d h = (
    h j w (ground (arith, e.eq_iff j j)),
    All-values P m d.1 (λ k v g. h k v (ground (arith, e.eq_iff j k, d.0, g))),
  )

  pub All-get {μ} :
      (P : V → Type μ) (m : HashMap K V) (k : K) (v : V) → get m k ≡ some v → All P (values m) → P v
  unfolding get
  All-get P [] k v g a = cc
  All-get P ((j, w) ∷ m) k v g a = elim (Bool-cases (j == k)) [
    | inl y ↦ subst P (ground (arith, g, y)) a.0
    | inr n ↦ All-get P m k v (ground (arith, g, n)) a.1
  ]

  pub In-values : (m : HashMap K V) (k : K) (v : V) → get m k ≡ some v → In v (values m)
  unfolding get
  In-values [] k v g = cc
  In-values ((j, w) ∷ m) k v g = elim (Bool-cases (j == k)) [
    | inl y ↦ (0, ground (arith, g, y))
    | inr n ↦ let (i, at) = In-values m k v (ground (arith, g, n)) in (suc i, at)
  ]
