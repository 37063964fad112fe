-- ===== src/Navigation/Tests.antt =====
-- Steps between concrete proposals, for
-- frontend/src/lib/components/proposal-detail/ProposalNavigation.svelte.
use nns_dapp.Common.{index_from, ℕ, ◌≡◌, refl, some, List, [], ◌∷◌, String, string_has_eq}
use nns_dapp.Sorting.{
  merge_comparators, create_descending_comparator, create_ascending_comparator, negate,
}
use nns_dapp.Navigation.{NavigationId, next_id, previous_id}
use nns_dapp.Navigation.Steps.{by_universe_and_id, IsStrict, next_then_previous}

abbrev at : String → ℕ → NavigationId
at universe id = record { universe = universe; proposal_id = id }

abbrev universes : List String
universes = "nns" ∷ "sns" ∷ []

strict : IsStrict (by_universe_and_id universes) (at "nns" 5 ∷ at "nns" 3 ∷ at "sns" 9 ∷ [])
unfolding index_from merge_comparators create_descending_comparator create_ascending_comparator
    negate
strict = ((refl, (refl, tt)), ((refl, tt), (tt, tt)))

next_then_previous_example :
    (next_id universes (at "nns" 5 ∷ at "nns" 3 ∷ at "sns" 9 ∷ []) (at "nns" 3) ≡ some (at "sns" 9))
    × (previous_id universes (at "nns" 5 ∷ at "nns" 3 ∷ at "sns" 9 ∷ []) (at "sns" 9)
        ≡ some (at "nns" 3))
next_then_previous_example =
    next_then_previous universes (at "nns" 5 ∷ []) (at "nns" 3) (at "sns" 9) [] strict

-- a proposal that is not listed has the neighbours of its place
between : next_id universes (at "nns" 5 ∷ at "sns" 9 ∷ []) (at "nns" 4) ≡ some (at "sns" 9)
unfolding next_id index_from
between = refl
