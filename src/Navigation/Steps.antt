-- ===== src/Navigation/Steps.antt =====
-- frontend/src/lib/components/proposal-detail/ProposalNavigation.svelte: the steps to the next and
-- to the previous proposal, for a list of proposals in the order of the comparator.
use nns_dapp.Common.{
  ℕ, zero, suc, ◌≡◌, refl, sym, ◌∙◌, ap, subst, fun_ext, Bool, true, false, Option, none, some,
  List, [], ◌∷◌, ◌++◌, String, find?, or_else, All, get_or_else, ℤ, pos, negsuc, neg, if◌then◌else◌,
  Perm, arith,
}
use nns_dapp.Sorting.{
  nat_comparable, int_comparable, Comparator, merge_comparators, create_descending_comparator,
  create_ascending_comparator, negate, ltb_asym, ltb_ℤ_asym,
}
use nns_dapp.Sorting.Order.{
  Consistent, merge-Consistent, descending-Consistent, ascending-Consistent,
}
use nns_dapp.Sorting.Sorted.{IsSorted, sort-IsSorted, sort-Perm}
use nns_dapp.Navigation.{
  NavigationId, index_of, navigation_id_comparator, find_last?, is_negative, is_positive,
  previous_id, next_id, compare_ids, sort_proposals_by_id_descending_order,
}

abbrev pub proposal : NavigationId → ℕ
proposal i = i.proposal_id

abbrev pub by_universe_and_id : List String → Comparator NavigationId
by_universe_and_id universes = merge_comparators (
    create_ascending_comparator (λ (i : NavigationId). index_of universes i.universe)
    ∷ create_descending_comparator proposal
    ∷ [])

-- `navigationIdComparator` orders by the position of the universe, ascending, and within a
-- universe by the id of the proposal, descending.
navigation_id_comparator-eq :
    (universes : List String) (a b : NavigationId)
    → navigation_id_comparator universes a b ≡ by_universe_and_id universes a b
unfolding navigation_id_comparator merge_comparators create_ascending_comparator
    create_descending_comparator negate
navigation_id_comparator-eq universes a b = ground (
  arith,
  ltb_ℤ_asym (index_of universes a.universe) (index_of universes b.universe),
  ltb_asym a.proposal_id b.proposal_id,
)

navigation-Consistent : (universes : List String) → Consistent (navigation_id_comparator universes)
navigation-Consistent universes =
    subst Consistent (sym (fun_ext (λ a. fun_ext (λ b. navigation_id_comparator-eq universes a b))))
      (merge-Consistent _ (
        ascending-Consistent (λ (i : NavigationId). index_of universes i.universe),
        (descending-Consistent proposal, tt),
      ))

negative-flip : (x : ℤ) → is_negative (neg x) ≡ is_positive x
negative-flip (pos zero) = refl
negative-flip (pos (suc n)) = ground arith
negative-flip (negsuc n) = ground arith

positive-flip : (x : ℤ) → is_positive (neg x) ≡ is_negative x
positive-flip (pos zero) = refl
positive-flip (pos (suc n)) = ground arith
positive-flip (negsuc n) = ground arith

negative-excludes : (x : ℤ) → is_negative x ≡ true → is_positive x ≡ false
negative-excludes (pos n) h = ground arith
negative-excludes (negsuc n) h = refl

zero_of_flip : (x : ℤ) → x ≡ neg x → x ≡ pos 0
zero_of_flip (pos zero) h = refl
zero_of_flip (pos (suc n)) h = cc
zero_of_flip (negsuc n) h = cc

or_else-none : {A : Type 0} (o : Option A) → or_else o none ≡ o
or_else-none none = refl
or_else-none (some a) = refl

or_else_assoc : {A : Type 0} (o p q : Option A) → or_else (or_else o p) q ≡ or_else o (or_else p q)
or_else_assoc none p q = refl
or_else_assoc (some a) p q = refl

module _ {A : Type 0} where
  find?-skips :
      (p : A → Bool) (xs ys : List A) → All (λ x. p x ≡ false) xs → find? p (xs ++ ys) ≡ find? p ys
  find?-skips p [] ys h = refl
  find?-skips p (x ∷ xs) ys (h, hs) = rw h (find?-skips p xs ys hs)

  find_last?-none :
      (p : A → Bool) (xs : List A) → All (λ x. p x ≡ false) xs → find_last? p xs ≡ none
  unfolding find_last?
  find_last?-none p [] h = refl
  find_last?-none p (x ∷ xs) (h, hs) = rw (find_last?-none p xs hs, h)

  find_last?-append :
      (p : A → Bool) (xs ys : List A)
      → find_last? p (xs ++ ys) ≡ or_else (find_last? p ys) (find_last? p xs)
  unfolding find_last?
  find_last?-append p [] ys = sym (or_else-none (find_last? p ys))
  find_last?-append p (x ∷ xs) ys =
      rw (find_last?-append p xs ys)
        (or_else_assoc (find_last? p ys) (find_last? p xs) (if p x then some x else none))

module _ {A : Type 0} (c : Comparator A) where
  -- each item stands strictly before all that follow it
  abbrev pub IsStrict : List A → Type 0
  IsStrict [] = Unit
  IsStrict (x ∷ xs) = All (λ y. is_negative (c x y) ≡ true) xs × IsStrict xs

  All-middle : (P : A → Type 0) (xs : List A) (y : A) (ys : List A) → All P (xs ++ y ∷ ys) → P y
  All-middle P [] y ys (h, hs) = h
  All-middle P (x ∷ xs) y ys (h, hs) = All-middle P xs y ys hs

  strict-before :
      (xs : List A) (y : A) (ys : List A)
      → IsStrict (xs ++ y ∷ ys)
      → All (λ x. is_negative (c x y) ≡ true) xs
  strict-before [] y ys h = tt
  strict-before (x ∷ xs) y ys (h, hs) =
      (All-middle (λ z. is_negative (c x z) ≡ true) xs y ys h, strict-before xs y ys hs)

  IsStrict-suffix : (xs ys : List A) → IsStrict (xs ++ ys) → IsStrict ys
  IsStrict-suffix [] ys h = h
  IsStrict-suffix (x ∷ xs) ys (h, hs) = IsStrict-suffix xs ys hs

  -- the first item that stands after an item, and the last one that stands before it
  module _ (ok : Consistent c) where
    compare_self : (x : A) → c x x ≡ pos 0
    compare_self x = zero_of_flip (c x x) (ok.flip x x)

    not_after :
        (xs : List A) (y : A)
        → All (λ x. is_negative (c x y) ≡ true) xs
        → All (λ x. is_positive (c x y) ≡ false) xs
    not_after [] y h = tt
    not_after (x ∷ xs) y (h, hs) = (negative-excludes (c x y) h, not_after xs y hs)

    not_before :
        (xs : List A) (y : A)
        → All (λ x. is_negative (c y x) ≡ true) xs
        → All (λ x. is_negative (c x y) ≡ false) xs
    not_before [] y h = tt
    not_before (x ∷ xs) y (h, hs) = (
      ap is_negative (ok.flip y x) ∙ negative-flip (c y x) ∙ negative-excludes (c y x) h,
      not_before xs y hs,
    )

    first_after :
        (before : List A) (x y : A) (after : List A)
        → IsStrict (before ++ x ∷ y ∷ after)
        → find? (λ z. is_positive (c z x)) (before ++ x ∷ y ∷ after) ≡ some y
    first_after before x y after strict =
        let ((less, _), _) = IsStrict-suffix before (x ∷ y ∷ after) strict in
        let self : is_positive (c x x) ≡ false = ap is_positive (compare_self x) in
        let greater : is_positive (c y x) ≡ true =
          ap is_positive (ok.flip x y) ∙ positive-flip (c x y) ∙ less in
        find?-skips (λ z. is_positive (c z x)) before (x ∷ y ∷ after)
          (not_after before x (strict-before before x (y ∷ after) strict))
        ∙ rw (self, greater)

    last_before :
        (before : List A) (x y : A) (after : List A)
        → IsStrict (before ++ x ∷ y ∷ after)
        → find_last? (λ z. is_negative (c z y)) (before ++ x ∷ y ∷ after) ≡ some x
    unfolding find_last?
    last_before before x y after strict =
        let ((less, _), (rest, _)) = IsStrict-suffix before (x ∷ y ∷ after) strict in
        let self : is_negative (c y y) ≡ false = ap is_negative (compare_self y) in
        let none_after =
          find_last?-none (λ z. is_negative (c z y)) (y ∷ after) (self, not_before after y rest) in
        find_last?-append (λ z. is_negative (c z y)) before (x ∷ y ∷ after) ∙ rw (none_after, less)

-- Where the proposals stand in the order of the comparator and no two compare as equal, the next
-- one of a listed proposal is the one behind it, and the previous one of that is again the first.
pub next_then_previous :
    (universes : List String) (before : List NavigationId) (current next : NavigationId)
    (after : List NavigationId)
    → IsStrict (by_universe_and_id universes) (before ++ current ∷ next ∷ after)
    → (next_id universes (before ++ current ∷ next ∷ after) current ≡ some next)
      × (previous_id universes (before ++ current ∷ next ∷ after) next ≡ some current)
unfolding next_id previous_id
next_then_previous universes before current next after strict =
    let c = navigation_id_comparator universes in
    let strict' : IsStrict c (before ++ current ∷ next ∷ after) =
      subst (λ d. IsStrict d (before ++ current ∷ next ∷ after))
        (sym (fun_ext (λ a. fun_ext (λ b. navigation_id_comparator-eq universes a b)))) strict in
    (
      first_after c (navigation-Consistent universes) before current next after strict',
      last_before c (navigation-Consistent universes) before current next after strict',
    )

module _ {P : Type 0} (id : P → Option ℕ) where
  abbrev pub id_or_zero : P → ℕ
  id_or_zero p = get_or_else (id p) 0

  -- `sortProposalsByIdDescendingOrder` returns the same proposals, none of which stands behind
  -- one with a smaller id, an undefined id counting as 0.
  pub sort_proposals-IsSorted :
      (proposals : List P)
      → IsSorted
          (create_descending_comparator id_or_zero)
          (sort_proposals_by_id_descending_order id proposals)
        × Perm (sort_proposals_by_id_descending_order id proposals) proposals
  unfolding sort_proposals_by_id_descending_order compare_ids create_descending_comparator
  sort_proposals-IsSorted proposals = (
    sort-IsSorted (compare_ids id) (descending-Consistent id_or_zero) proposals,
    sort-Perm (compare_ids id) proposals,
  )
