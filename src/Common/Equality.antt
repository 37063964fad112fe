-- ===== src/Common/Equality.antt =====
-- `===` on bigints, strings and optional values.
use Prim.Native.Nat.{ℕ}
use Prim.Native.String.{String}
use mathlib.Core.Path.{◌≡◌, refl}
use mathlib.Core.Logic.{◌↔◌}
use mathlib.Core.Bool.{Bool, true, false}
use mathlib.Core.Option.{Option, none, some}
use native.Mathlib.Omega.{arith}
use text.Mathlib.Text.{◌==◌ as text_eqb}
use text.Mathlib.TextEquality.{eq_iff}
use nns_dapp.Common.Tests.{nat_beq, nat_beq_iff}

-- what `===` compares, and that it tells values apart
pub record HasEq {ℓ} (A : Type ℓ) : Type ℓ where
  pub eqb : A → A → Bool
  pub eqb_iff : (x y : A) → (eqb x y ≡ true) ↔ (x ≡ y)

module _ {ℓ} {A : Type ℓ} ⦃e : HasEq A⦄ where
  infix 50 ◌==◌
  abbrev pub ◌==◌ : A → A → Bool
  x == y = e.eqb x y

instance abbrev pub string_has_eq : HasEq String
string_has_eq = record { eqb = text_eqb; eqb_iff = eq_iff }

instance abbrev pub nat_has_eq : HasEq ℕ
nat_has_eq = record { eqb = nat_beq; eqb_iff = nat_beq_iff }

module _ {ℓ} {A : Type ℓ} (e : HasEq A) where
  abbrev option_beq : Option A → Option A → Bool
  option_beq none none = true
  option_beq none (some b) = false
  option_beq (some a) none = false
  option_beq (some a) (some b) = e.eqb a b

  pub option_beq_iff : (a b : Option A) → (option_beq a b ≡ true) ↔ (a ≡ b)
  option_beq_iff none none = ground arith
  option_beq_iff none (some b) = ground arith
  option_beq_iff (some a) none = ground arith
  option_beq_iff (some a) (some b) = ground (arith, e.eqb_iff a b)

instance abbrev pub option_has_eq {ℓ} : {A : Type ℓ} ⦃e : HasEq A⦄ → HasEq (Option A)
option_has_eq ⦃e⦄ = record { eqb = option_beq e; eqb_iff = option_beq_iff e }

module _ {ℓ} {A : Type ℓ} ⦃e : HasEq A⦄ where
  pub eqb_refl : (a : A) → e.eqb a a ≡ true
  eqb_refl a = (e.eqb_iff a a).1 refl

  pub eq_of_eqb : (a b : A) → e.eqb a b ≡ true → a ≡ b
  eq_of_eqb a b = (e.eqb_iff a b).0

  pub eqb_comm : (a b : A) → e.eqb a b ≡ e.eqb b a
  eqb_comm a b = ground (arith, e.eqb_iff a b, e.eqb_iff b a)
