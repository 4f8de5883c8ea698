-- ===== src/Base/Classes.antt =====
-- Rust's `PartialEq`: a Boolean test that decides equality, for the key types in use.
use Prim.Native.Nat.{ℕ}
use Prim.Native.String.{String}
use mathlib.Core.Path.{◌≡◌}
use mathlib.Core.Logic.{◌↔◌}
use mathlib.Core.Bool.{Bool, true, false, ◌&&◌}
use mathlib.Core.Option.{Option, none, some}
use native.Mathlib.Omega.{arith}
use text.Mathlib.Text.{◌==◌ as text_eq}
use text.Mathlib.TextEquality as Text
use marie.Base.Tests.{nat_beq, nat_beq_iff}

pub record PartialEq {ℓ} (K : Type ℓ) : Type ℓ where
  pub eq : K → K → Bool
  pub eq_iff : (x y : K) → (eq x y ≡ true) ↔ (x ≡ y)

instance abbrev pub string_eq : PartialEq String
string_eq = record { eq_iff = Text.eq_iff; eq = text_eq }

instance abbrev pub nat_eq : PartialEq ℕ
nat_eq = record { eq_iff = nat_beq_iff; eq = nat_beq }

module _ {ℓ} {K : Type ℓ} ⦃e : PartialEq K⦄ where
  infix 50 ◌==◌
  abbrev pub ◌==◌ : K → K → Bool
  x == y = e.eq x y

  abbrev pub option_beq : Option K → Option K → Bool
  option_beq none none = true
  option_beq (some x) (some y) = e.eq x y
  option_beq none (some y) = false
  option_beq (some x) none = false

  pub option_beq_iff : (x y : Option K) → (option_beq x y ≡ true) ↔ (x ≡ y)
  option_beq_iff none none = ground arith
  option_beq_iff (some x) (some y) = ground (arith, e.eq_iff x y)
  option_beq_iff none (some y) = ground arith
  option_beq_iff (some x) none = ground arith

  instance abbrev pub option_eq : PartialEq (Option K)
  option_eq = record { eq_iff = option_beq_iff; eq = option_beq }

module _ {ℓ κ} {A : Type ℓ} {B : Type κ} ⦃a : PartialEq A⦄ ⦃b : PartialEq B⦄ where
  abbrev pub pair_beq : A × B → A × B → Bool
  pair_beq x y = a.eq x.0 y.0 && b.eq x.1 y.1

  pub pair_beq_iff : (x y : A × B) → (pair_beq x y ≡ true) ↔ (x ≡ y)
  pair_beq_iff x y = ground (arith, a.eq_iff x.0 y.0, b.eq_iff x.1 y.1)

  instance abbrev pub pair_eq : PartialEq (A × B)
  pair_eq = record { eq_iff = pair_beq_iff; eq = pair_beq }
