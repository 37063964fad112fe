-- ===== src/Sorting/Order.antt =====
-- Which comparators order their items: those of frontend/src/lib/utils/sort.utils.ts do, also
-- when they are merged or negated.
use nns_dapp.Common.{
  ◌≡◌, refl, sym, ◌∙◌, ap, ap₂, zero, suc, true, not, List, [], ◌∷◌, ℤ, pos, negsuc, neg,
  is_nonzero, nonpos, nonpos_both, if◌then◌else◌, arith, All,
}
use nns_dapp.Sorting.{
  Comparable, Comparator, merge_comparators, negate, create_descending_comparator,
  create_ascending_comparator,
}

-- the result of the first comparator, or of the others where it is 0
abbrev first_of : ℤ → ℤ → ℤ
first_of x rest = if is_nonzero x then x else rest

pub nonpos-first_of :
    (x y : ℤ) → nonpos (first_of x y) ≡ true → (nonpos x ≡ true) × (x ≡ pos 0 → nonpos y ≡ true)
nonpos-first_of (pos zero) y h = (refl, λ e. h)
nonpos-first_of (pos (suc n)) y h = cc
nonpos-first_of (negsuc n) y h = (refl, λ e. cc)

first_of-nonpos :
    (x y : ℤ) → nonpos x ≡ true → (x ≡ pos 0 → nonpos y ≡ true) → nonpos (first_of x y) ≡ true
first_of-nonpos (pos zero) y h k = k refl
first_of-nonpos (pos (suc n)) y h k = cc
first_of-nonpos (negsuc n) y h k = refl

neg-first_of : (x y : ℤ) → first_of (neg x) (neg y) ≡ neg (first_of x y)
neg-first_of (pos zero) y = refl
neg-first_of (pos (suc n)) y = refl
neg-first_of (negsuc n) y = refl

module _ {A : Type 0} where
  -- comparing the other way round gives the opposite, and "at most 0" is transitive
  pub record Consistent (c : Comparator A) : Type 0 where
    pub flip : (a b : A) → c b a ≡ neg (c a b)
    pub trans : (a b d : A) → nonpos (c a b) ≡ true → nonpos (c b d) ≡ true → nonpos (c a d) ≡ true

  -- a strict step before or after a step makes the sum strict
  strict_left :
      {c : Comparator A}
      → Consistent c
      → (a b d : A) → nonpos (c a b) ≡ true
      → nonpos (c b d) ≡ true
      → c a d ≡ pos 0
      → c a b ≡ pos 0
  strict_left {c} ok a b d h k e =
      let back : nonpos (c b a) ≡ true = ok.trans b d a k (ap nonpos (ok.flip a d ∙ ap neg e)) in
      nonpos_both (c a b) h (ap nonpos (sym (ok.flip a b)) ∙ back)

  strict_right :
      {c : Comparator A}
      → Consistent c
      → (a b d : A) → nonpos (c a b) ≡ true
      → nonpos (c b d) ≡ true
      → c a d ≡ pos 0
      → c b d ≡ pos 0
  strict_right {c} ok a b d h k e =
      let back : nonpos (c d b) ≡ true = ok.trans d a b (ap nonpos (ok.flip a d ∙ ap neg e)) h in
      nonpos_both (c b d) k (ap nonpos (sym (ok.flip b d)) ∙ back)

  pub merge-Consistent :
      (cs : List (Comparator A)) → All Consistent cs → Consistent (merge_comparators cs)
  unfolding merge_comparators
  merge-Consistent [] ok = record { flip = λ a b. refl; trans = λ a b d h k. refl }
  merge-Consistent (c ∷ cs) (ok, oks) =
      let rest = merge-Consistent cs oks in
      record {
        flip = λ a b.
            ap₂ first_of (ok.flip a b) (rest.flip a b)
            ∙ neg-first_of (c a b) (merge_comparators cs a b);
        trans = λ a b d h k.
            let (h₁, h₂) = nonpos-first_of (c a b) (merge_comparators cs a b) h in
            let (k₁, k₂) = nonpos-first_of (c b d) (merge_comparators cs b d) k in
            first_of-nonpos (c a d) (merge_comparators cs a d) (ok.trans a b d h₁ k₁) (λ e.
              rest.trans a b d (h₂ (strict_left ok a b d h₁ k₁ e))
                (k₂ (strict_right ok a b d h₁ k₁ e)));
      }

  negate-Consistent : {c : Comparator A} → Consistent c → Consistent (negate c)
  unfolding negate
  negate-Consistent {c} ok = record {
    flip = λ a b. ap neg (ok.flip a b);
    trans = λ a b d h k.
        ap nonpos (sym (ok.flip a d))
        ∙ ok.trans d b a (ap nonpos (ok.flip b d) ∙ k) (ap nonpos (ok.flip a b) ∙ h);
  }

  module _ {K : Type 0} ⦃k : Comparable K⦄ (getter : A → K) where
    -- what a comparison in descending order says
    nonpos-descending :
        (a b : A)
        → nonpos (create_descending_comparator getter a b) ≡ not (k.lt (getter a) (getter b))
    unfolding create_descending_comparator
    nonpos-descending a b = ground arith

    pub descending-Consistent : Consistent (create_descending_comparator getter)
    unfolding create_descending_comparator
    descending-Consistent = record {
      flip =
          λ a b. ground (arith, k.lt_asym (getter a) (getter b), k.lt_asym (getter b) (getter a));
      trans = λ a b d h h'. ground (
        arith,
        nonpos-descending a b,
        nonpos-descending b d,
        nonpos-descending a d,
        k.lt_negtrans (getter a) (getter b) (getter d),
      );
    }

    pub ascending-Consistent : Consistent (create_ascending_comparator getter)
    unfolding create_ascending_comparator
    ascending-Consistent = negate-Consistent descending-Consistent
