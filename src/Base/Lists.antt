-- ===== src/Base/Lists.antt =====
-- Lists measured and indexed by native numbers, and the iterator methods that the sources call.
use Prim.Native.Nat.{ℕ, zero, suc, ◌+◌, ◌<◌, ◌≤◌}
use mathlib.Core.Path.{◌≡◌, refl}
use mathlib.Core.Bool.{Bool, true, false, ◌&&◌, ◌||◌}
use mathlib.Core.List.{List, [], ◌∷◌, ◌++◌}
use mathlib.Core.Option.{Option, none, some}
use native.Mathlib.Omega.{arith}
use mathlib.Core.Path.{subst, ap}
use mathlib.Core.Logic.{◌↔◌, inl, inr}
use marie.Base.Tests.{if◌then◌else◌, Bool-cases}
use marie.Base.Classes.{PartialEq, ◌==◌}

module _ {ℓ} {A : Type ℓ} where
  abbrev pub length : List A → ℕ
  length [] = 0
  length (x ∷ xs) = suc (length xs)

  abbrev pub get_elem? : List A → ℕ → Option A
  get_elem? [] i = none
  get_elem? (x ∷ xs) zero = some x
  get_elem? (x ∷ xs) (suc i) = get_elem? xs i

  abbrev pub take : ℕ → List A → List A
  take zero xs = []
  take (suc n) [] = []
  take (suc n) (x ∷ xs) = x ∷ take n xs

  abbrev pub drop : ℕ → List A → List A
  drop zero xs = xs
  drop (suc n) [] = []
  drop (suc n) (x ∷ xs) = drop n xs

  -- `slice::last`
  abbrev pub last? : List A → Option A
  last? [] = none
  last? (x ∷ []) = some x
  last? (x ∷ y ∷ ys) = last? (y ∷ ys)

  pub length-append : (xs ys : List A) → length (xs ++ ys) ≡ length xs + length ys
  length-append [] ys = omega arith
  length-append (x ∷ xs) ys = omega (arith, length-append xs ys)

  pub drop-length-append : (xs ys : List A) → drop (length xs) (xs ++ ys) ≡ ys
  drop-length-append [] ys = refl
  drop-length-append (x ∷ xs) ys = drop-length-append xs ys

  pub take-length-append : (xs ys : List A) → take (length xs) (xs ++ ys) ≡ xs
  take-length-append [] ys = refl
  take-length-append (x ∷ xs) ys = ap (λ zs. x ∷ zs) (take-length-append xs ys)

  pub drop_nil : (n : ℕ) → drop n [] ≡ []
  drop_nil zero = refl
  drop_nil (suc n) = refl

  pub drop_all : (n : ℕ) (xs : List A) → length xs ≤ n → drop n xs ≡ []
  drop_all zero [] h = refl
  drop_all zero (x ∷ xs) h = absurd (omega arith)
  drop_all (suc n) [] h = refl
  drop_all (suc n) (x ∷ xs) h = drop_all n xs (omega arith)

  pub append_nil : (xs : List A) → xs ++ [] ≡ xs
  append_nil [] = refl
  append_nil (x ∷ xs) = ap (λ ys. x ∷ ys) (append_nil xs)

  pub append_assoc : (xs ys zs : List A) → (xs ++ ys) ++ zs ≡ xs ++ (ys ++ zs)
  append_assoc [] ys zs = refl
  append_assoc (x ∷ xs) ys zs = ap (λ us. x ∷ us) (append_assoc xs ys zs)

  pub get_elem?-front :
      (xs ys : List A) (i : ℕ) → i < length xs → get_elem? (xs ++ ys) i ≡ get_elem? xs i
  get_elem?-front [] ys i h = ground arith
  get_elem?-front (x ∷ xs) ys zero h = refl
  get_elem?-front (x ∷ xs) ys (suc i) h = get_elem?-front xs ys i (omega arith)

  pub last?-append : (xs : List A) (y : A) → last? (xs ++ y ∷ []) ≡ some y
  last?-append [] y = refl
  last?-append (x ∷ []) y = refl
  last?-append (x ∷ z ∷ zs) y = last?-append (z ∷ zs) y

  -- `Iterator::filter`, `find`, `all`, `any`
  abbrev pub filter : (A → Bool) → List A → List A
  filter p [] = []
  filter p (x ∷ xs) = let rest = filter p xs in if p x then x ∷ rest else rest

  abbrev pub find? : (A → Bool) → List A → Option A
  find? p [] = none
  find? p (x ∷ xs) = if p x then some x else find? p xs

  abbrev pub all : (A → Bool) → List A → Bool
  all p [] = true
  all p (x ∷ xs) = p x && all p xs

  abbrev pub any : (A → Bool) → List A → Bool
  any p [] = false
  any p (x ∷ xs) = p x || any p xs

  -- A predicate at every element.
  abbrev pub All {κ} : (A → Type κ) → List A → Type κ
  All P [] = Unit
  All P (x ∷ xs) = P x × All P xs

  pub All-parts {κ} :
      (P : A → Type κ) (front back : List A) → All P (front ++ back) ↔ (All P front × All P back)
  All-parts P [] back = (λ h. (tt, h), λ h. h.1)
  All-parts P (x ∷ front) back =
      let (split, join) = All-parts P front back in
      (λ h. ((h.0, (split h.1).0), (split h.1).1), λ h. (h.0.0, join (h.0.1, h.1)))

  pub find?-none : (p : A → Bool) (xs : List A) → find? p xs ≡ none → All (λ x. p x ≡ false) xs
  find?-none p [] h = tt
  find?-none p (x ∷ xs) h = elim (Bool-cases (p x)) [
    | inl y ↦ ground (arith, h, y)
    | inr n ↦ (n, find?-none p xs (ground (arith, h, n)))
  ]

  pub find?-some {κ} :
      (p : A → Bool) (P : A → Type κ) (xs : List A) (x : A)
      → find? p xs ≡ some x
      → All P xs
      → P x × (p x ≡ true)
  find?-some p P (y ∷ ys) x h a = elim (Bool-cases (p y)) [
    | inl y ↦ subst (λ z. P z × (p z ≡ true)) (ground (arith, h, y)) (a.0, y)
    | inr n ↦ find?-some p P ys x (ground (arith, h, n)) a.1
  ]
  find?-some p P [] x h a = cc

  -- An element of a list: it stands at some position.
  abbrev pub In : A → List A → Type ℓ
  In x xs = (n : ℕ) × (get_elem? xs n ≡ some x)

  pub All-In {κ} : (P : A → Type κ) (x : A) (xs : List A) → All P xs → In x xs → P x
  All-In P x [] a (n, g) = absurd (ground (arith, g))
  All-In P x (y ∷ ys) a (zero, g) = subst P (ground (arith, g)) a.0
  All-In P x (y ∷ ys) a (suc n, g) = All-In P x ys a.1 (n, g)

  pub In-filter : (p : A → Bool) (x : A) (xs : List A) → p x ≡ true → In x xs → In x (filter p xs)
  In-filter p x [] h (n, g) = (n, g)
  In-filter p x (y ∷ ys) h (zero, g) = (0, ground (arith, g, h))
  In-filter p x (y ∷ ys) h (suc n, g) = elim (Bool-cases (p y)) [
    | inl b ↦ let (k, s) = In-filter p x ys h (n, g) in (suc k, rw b s)
    | inr b ↦ rw b (In-filter p x ys h (n, g))
  ]

  pub filter-All {κ} :
      (p : A → Bool) (P : A → Type κ) (xs : List A)
      → All P xs
      → All (λ x. P x × (p x ≡ true)) (filter p xs)
  filter-All p P [] a = tt
  filter-All p P (x ∷ xs) a = elim (Bool-cases (p x)) [
    | inl b ↦ rw b ((a.0, b), filter-All p P xs a.1)
    | inr b ↦ rw b (filter-All p P xs a.1)
  ]

  pub All-imp {κ μ} :
      (P : A → Type κ) (Q : A → Type μ) (xs : List A) → ((x : A) → P x → Q x) → All P xs → All Q xs
  All-imp P Q [] f a = tt
  All-imp P Q (x ∷ xs) f a = (f x a.0, All-imp P Q xs f a.1)

module _ {ℓ} {A : Type ℓ} ⦃e : PartialEq A⦄ where
  -- `slice::contains`
  abbrev pub contains : List A → A → Bool
  contains [] a = false
  contains (x ∷ xs) a = x == a || contains xs a
