-- ===== src/Navigation.antt =====
-- From one proposal to the next: `navigationIdComparator` and `sortProposalsByIdDescendingOrder`
-- of frontend/src/lib/utils/proposals.utils.ts, and the script of
-- frontend/src/lib/components/proposal-detail/ProposalNavigation.svelte.
pub mod Steps
mod Tests
use nns_dapp.Common.{
  ℕ, index_from, ◌≡◌, Bool, true, false, Option, none, some, List, [], ◌∷◌, String, string_has_eq,
  ◌==◌, find?, or_else, get_or_else, ltb, ltb_ℤ, ℤ, pos, negsuc, if◌then◌else◌,
}
use nns_dapp.Sorting.{Comparator, sort}

pub record NavigationId : Type 0 where
  pub universe : String
  pub proposal_id : ℕ

abbrev pub index_of : List String → String → ℤ
index_of universes universe = index_from 0 universe universes

pub navigation_id_comparator : List String → Comparator NavigationId
navigation_id_comparator universes a b =
    let a_universe_index = index_of universes a.universe in
    let b_universe_index = index_of universes b.universe in
    if ltb_ℤ b_universe_index a_universe_index
    then pos 1
    else if ltb_ℤ a_universe_index b_universe_index
    then negsuc 0
    else if ltb a.proposal_id b.proposal_id
    then pos 1
    else if ltb b.proposal_id a.proposal_id
    then negsuc 0
    else pos 0

-- `findLast`
pub find_last? : {A : Type 0} → (A → Bool) → List A → Option A
find_last? p [] = none
find_last? p (x ∷ xs) = or_else (find_last? p xs) (if p x then some x else none)

abbrev pub is_negative : ℤ → Bool
is_negative x = ltb_ℤ x (pos 0)

abbrev pub is_positive : ℤ → Bool
is_positive x = ltb_ℤ (pos 0) x

-- the component's `previousId` and `nextId`
pub previous_id : List String → List NavigationId → NavigationId → Option NavigationId
unfolding navigation_id_comparator find_last?
previous_id universes proposal_ids current =
    find_last? (λ id. is_negative (navigation_id_comparator universes id current)) proposal_ids

pub next_id : List String → List NavigationId → NavigationId → Option NavigationId
unfolding navigation_id_comparator
next_id universes proposal_ids current =
    find? (λ id. is_positive (navigation_id_comparator universes id current)) proposal_ids

-- proposals with an `id` that may be undefined
module _ {P : Type 0} (id : P → Option ℕ) where
  unfoldable pub compare_ids : Comparator P
  compare_ids a b =
      let id_a = get_or_else (id a) 0 in
      let id_b = get_or_else (id b) 0 in
      if ltb id_a id_b then pos 1 else if ltb id_b id_a then negsuc 0 else pos 0

  unfoldable pub sort_proposals_by_id_descending_order : List P → List P
  unfolding compare_ids
  sort_proposals_by_id_descending_order proposals = sort compare_ids proposals
