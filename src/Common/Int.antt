-- ===== src/Common/Int.antt =====
-- Signed whole numbers: the results of comparators, and amounts that may be negative.
use Prim.Native.Nat.{ℕ, zero, suc, ◌+◌, ◌-◌}
use mathlib.Core.Path.{◌≡◌, refl}
use mathlib.Core.Bool.{Bool, true, false}
use mathlib.Core.List.{List, [], ◌∷◌}
use nns_dapp.Common.Equality.{HasEq}
use nns_dapp.Common.Tests.{ltb, if◌then◌else◌}

-- `negsuc n` is -(n + 1)
pub data ℤ : Type 0 where
  pos : ℕ → ℤ
  negsuc : ℕ → ℤ

-- `-x || 0`
abbrev pub neg : ℤ → ℤ
neg (pos zero) = pos 0
neg (pos (suc n)) = negsuc n
neg (negsuc n) = pos (suc n)

-- `a - b` of two numbers that are not negative
abbrev pub difference : ℕ → ℕ → ℤ
difference a b = if ltb a b then negsuc (b - a - 1) else pos (a - b)

abbrev pub ltb_ℤ : ℤ → ℤ → Bool
ltb_ℤ (pos a) (pos b) = ltb a b
ltb_ℤ (pos a) (negsuc b) = false
ltb_ℤ (negsuc a) (pos b) = true
ltb_ℤ (negsuc a) (negsuc b) = ltb b a

-- `x !== 0`
abbrev pub is_nonzero : ℤ → Bool
is_nonzero (pos zero) = false
is_nonzero (pos (suc n)) = true
is_nonzero (negsuc n) = true

-- `x <= 0`
abbrev pub nonpos : ℤ → Bool
nonpos (pos zero) = true
nonpos (pos (suc n)) = false
nonpos (negsuc n) = true

-- a number is zero where it and its opposite are at most 0
pub nonpos_both : (x : ℤ) → nonpos x ≡ true → nonpos (neg x) ≡ true → x ≡ pos 0
nonpos_both (pos zero) h k = refl
nonpos_both (pos (suc n)) h k = cc
nonpos_both (negsuc n) h k = cc

pub nonpos-neg : (x : ℤ) → nonpos x ≡ false → nonpos (neg x) ≡ true
nonpos-neg (pos zero) h = cc
nonpos-neg (pos (suc n)) h = refl
nonpos-neg (negsuc n) h = cc

-- `indexOf`, counted from a first position on
module _ {A : Type 0} ⦃e : HasEq A⦄ where
  unfoldable pub index_from : ℕ → A → List A → ℤ
  index_from i x [] = negsuc 0
  index_from i x (y ∷ ys) = let rest = index_from (i + 1) x ys in if e.eqb y x then pos i else rest
