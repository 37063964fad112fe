-- ===== src/Sorting.antt =====
-- frontend/src/lib/utils/sort.utils.ts: comparators, for values of any type with the `<` of
-- JavaScript, which is an interface with its laws, and the stable `sort` of arrays.
pub mod Order
pub mod Sorted
use nns_dapp.Common.{
  not, ◌&&◌, ℕ, ◌≡◌, ◌⊎◌, ◌<◌, Bool, true, false, List, [], ◌∷◌, ◌++◌, ℤ, pos, negsuc, neg,
  is_nonzero, nonpos, ltb, ltb_ℤ, refl, if◌then◌else◌, arith,
}

-- `<` on the values of a getter
pub record Comparable (K : Type 0) : Type 0 where
  pub lt : K → K → Bool
  pub lt_asym : (a b : K) → lt a b ≡ true → lt b a ≡ false
  -- what is not less than b, which is not less than c, is not less than c
  pub lt_negtrans : (a b c : K) → lt a b ≡ false → lt b c ≡ false → lt a c ≡ false

pub ltb_asym : (a b : ℕ) → ltb a b ≡ true → ltb b a ≡ false
ltb_asym a b h = ground arith

pub ltb_negtrans : (a b c : ℕ) → ltb a b ≡ false → ltb b c ≡ false → ltb a c ≡ false
ltb_negtrans a b c h k = ground arith

instance abbrev pub nat_comparable : Comparable ℕ
nat_comparable = record { lt = ltb; lt_asym = ltb_asym; lt_negtrans = ltb_negtrans }

pub ltb_ℤ_asym : (a b : ℤ) → ltb_ℤ a b ≡ true → ltb_ℤ b a ≡ false
ltb_ℤ_asym (pos a) (pos b) h = ltb_asym a b h
ltb_ℤ_asym (pos a) (negsuc b) h = cc
ltb_ℤ_asym (negsuc a) (pos b) h = refl
ltb_ℤ_asym (negsuc a) (negsuc b) h = ltb_asym b a h

pub ltb_ℤ_negtrans : (a b c : ℤ) → ltb_ℤ a b ≡ false → ltb_ℤ b c ≡ false → ltb_ℤ a c ≡ false
ltb_ℤ_negtrans (pos a) (pos b) (pos c) h k = ltb_negtrans a b c h k
ltb_ℤ_negtrans (pos a) b (negsuc c) h k = refl
ltb_ℤ_negtrans (pos a) (negsuc b) (pos c) h k = cc
ltb_ℤ_negtrans (negsuc a) (pos b) c h k = cc
ltb_ℤ_negtrans (negsuc a) (negsuc b) (pos c) h k = cc
ltb_ℤ_negtrans (negsuc a) (negsuc b) (negsuc c) h k = ltb_negtrans c b a k h

instance abbrev pub int_comparable : Comparable ℤ
int_comparable = record { lt = ltb_ℤ; lt_asym = ltb_ℤ_asym; lt_negtrans = ltb_ℤ_negtrans }

-- `false < true`
abbrev ltb_Bool : Bool → Bool → Bool
ltb_Bool a b = not a && b

pub ltb_Bool_asym : (a b : Bool) → ltb_Bool a b ≡ true → ltb_Bool b a ≡ false
ltb_Bool_asym a b h = ground arith

pub ltb_Bool_negtrans :
    (a b c : Bool) → ltb_Bool a b ≡ false → ltb_Bool b c ≡ false → ltb_Bool a c ≡ false
ltb_Bool_negtrans a b c h k = ground arith

instance abbrev pub bool_comparable : Comparable Bool
bool_comparable = record { lt = ltb_Bool; lt_asym = ltb_Bool_asym; lt_negtrans = ltb_Bool_negtrans }

abbrev pub Comparator : Type 0 → Type 0
Comparator A = A → A → ℤ

module _ {A : Type 0} where
  unfoldable pub merge_comparators : List (Comparator A) → Comparator A
  merge_comparators [] a b = pos 0
  merge_comparators (comparator ∷ comparators) a b =
      let result = comparator a b in
      let rest = merge_comparators comparators a b in if is_nonzero result then result else rest

  unfoldable pub negate : Comparator A → Comparator A
  negate comparator a b = neg (comparator a b)

  module _ {K : Type 0} ⦃k : Comparable K⦄ (getter : A → K) where
    unfoldable pub create_descending_comparator : Comparator A
    create_descending_comparator a b =
        if k.lt (getter a) (getter b)
        then pos 1
        else if k.lt (getter b) (getter a)
        then negsuc 0
        else pos 0

    unfoldable pub create_ascending_comparator : Comparator A
    unfolding negate create_descending_comparator
    create_ascending_comparator = negate create_descending_comparator

  -- where `[...items].sort(comparator)` puts an item among sorted ones that came after it
  unfoldable pub insert_sorted : Comparator A → A → List A → List A
  insert_sorted comparator x [] = x ∷ []
  insert_sorted comparator x (y ∷ ys) =
      let rest = insert_sorted comparator x ys in
      if nonpos (comparator x y) then x ∷ y ∷ ys else y ∷ rest

  unfoldable pub sort : Comparator A → List A → List A
  unfolding insert_sorted
  sort comparator [] = []
  sort comparator (x ∷ xs) = insert_sorted comparator x (sort comparator xs)
