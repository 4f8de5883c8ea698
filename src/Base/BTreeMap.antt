-- ===== src/Base/BTreeMap.antt =====
-- `std::collections::BTreeMap` with number keys, as an association list in ascending order.
use Prim.Native.Nat.{ℕ, ◌≤◌, ◌<◌}
use mathlib.Core.Path.{◌≡◌, refl}
use mathlib.Core.Bool.{Bool, true, false}
use mathlib.Core.List.{List, [], ◌∷◌, map}
use mathlib.Core.Option.{Option, none, some}
use native.Mathlib.Omega.{arith}
use mathlib.Core.Logic.{inl, inr}
use marie.Base.Tests.{ltb, nat_beq, if◌then◌else◌, Bool-cases}
use marie.Base.Lists.{filter}

abbrev pub BTreeMap {ℓ} : Type ℓ → Type ℓ
BTreeMap V = List (ℕ × V)

module _ {ℓ} {V : Type ℓ} where
  unfoldable pub get : BTreeMap V → ℕ → Option V
  get [] k = none
  get ((j, v) ∷ m) k = if nat_beq j k then some v else get m k

  unfoldable pub contains_key : BTreeMap V → ℕ → Bool
  unfolding get
  contains_key m k = elim (get m k) [ none ↦ false | some v ↦ true ]

  unfoldable pub insert : BTreeMap V → ℕ → V → BTreeMap V
  insert [] k v = (k, v) ∷ []
  insert ((j, w) ∷ m) k v =
      let later = insert m k v in
      if ltb k j then (k, v) ∷ (j, w) ∷ m else if nat_beq k j then (k, v) ∷ m else (j, w) ∷ later

  -- `retain` on the key; with `split_off` and `remove` this is all the removal in use
  unfoldable pub retain : (ℕ → Bool) → BTreeMap V → BTreeMap V
  retain p m = filter (λ kv. p kv.0) m

  unfoldable pub remove : BTreeMap V → ℕ → BTreeMap V
  remove [] k = []
  remove ((j, w) ∷ m) k = let rest = remove m k in if nat_beq j k then rest else (j, w) ∷ rest

  abbrev pub keys : BTreeMap V → List ℕ
  keys m = map (λ kv. kv.0) m

  abbrev pub values : BTreeMap V → List V
  values m = map (λ kv. kv.1) m

  -- The keys ascend strictly, from above `n` on.
  abbrev pub Above : ℕ → BTreeMap V → Type 0
  Above n [] = Unit
  Above n ((j, v) ∷ m) = (n < j) × Above j m

  abbrev pub IsSorted : BTreeMap V → Type 0
  IsSorted [] = Unit
  IsSorted ((j, v) ∷ m) = Above j m

  pub get-insert :
      (m : BTreeMap V) (k j : ℕ) (v : V)
      → get (insert m k v) j ≡ (if nat_beq k j then some v else get m j)
  unfolding get insert
  get-insert [] k j v = refl
  get-insert ((i, w) ∷ m) k j v = ground (arith, get-insert m k j v)

  pub get-remove :
      (m : BTreeMap V) (k j : ℕ) → get (remove m k) j ≡ (if nat_beq k j then none else get m j)
  unfolding get remove
  get-remove [] k j = ground arith
  get-remove ((i, w) ∷ m) k j = ground (arith, get-remove m k j)

  pub get-retain :
      (p : ℕ → Bool) (m : BTreeMap V) (j : ℕ) → get (retain p m) j ≡ (if p j then get m j else none)
  unfolding get retain
  get-retain p [] j = ground arith
  get-retain p ((i, w) ∷ m) j = ground (arith, get-retain p m j)

  Above-insert :
      (n : ℕ) (m : BTreeMap V) (k : ℕ) (v : V) → n < k → Above n m → Above n (insert m k v)
  unfolding insert
  Above-insert n [] k v h s = (h, tt)
  Above-insert n ((j, w) ∷ m) k v h s = ground (arith, Above-insert j m k v)

  pub insert-IsSorted : (m : BTreeMap V) (k : ℕ) (v : V) → IsSorted m → IsSorted (insert m k v)
  unfolding insert
  insert-IsSorted [] k v s = tt
  insert-IsSorted ((j, w) ∷ m) k v s = ground (arith, Above-insert j m k v)

  Above-mono : (n k : ℕ) (m : BTreeMap V) → n ≤ k → Above k m → Above n m
  Above-mono n k [] h s = tt
  Above-mono n k ((j, w) ∷ m) h s = (omega arith, s.1)

  Above-retain : (p : ℕ → Bool) (n : ℕ) (m : BTreeMap V) → Above n m → Above n (retain p m)
  unfolding retain
  Above-retain p n [] s = tt
  Above-retain p n ((j, w) ∷ m) s =
      ground (arith, Above-retain p j m s.1, Above-mono n j (retain p m))

  pub retain-IsSorted : (p : ℕ → Bool) (m : BTreeMap V) → IsSorted m → IsSorted (retain p m)
  unfolding retain
  retain-IsSorted p [] s = tt
  retain-IsSorted p ((j, w) ∷ m) s = elim (Bool-cases (p j)) [
    | inl y ↦ rw y (Above-retain p j m s)
    | inr n ↦ rw n (sorted_of_Above j (retain p m) (Above-retain p j m s))
  ]
    where
      sorted_of_Above : (n : ℕ) (m : BTreeMap V) → Above n m → IsSorted m
      sorted_of_Above n [] s = tt
      sorted_of_Above n ((j, w) ∷ m) s = s.1
