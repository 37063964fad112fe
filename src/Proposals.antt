-- ===== src/Proposals.antt =====
-- frontend/src/lib/utils/proposals.utils.ts, the merging of lists of proposals. The functions
-- look at a proposal's `id` only, which may be undefined.
pub mod Merge
pub mod ById
pub mod Store
mod Tests
use nns_dapp.Common.{
  ℕ, nat_has_eq, option_has_eq, Bool, true, false, Option, none, some, List, [], ◌∷◌, ◌++◌, map,
  not, ◌==◌, filter, find?, contains, unique, get_or_else,
}

module _ {P : Type 0} (id : P → Option ℕ) where
  abbrev pub defined_ids : List P → List ℕ
  defined_ids [] = []
  defined_ids (p ∷ ps) = elim (id p) [ none ↦ defined_ids ps | some n ↦ n ∷ defined_ids ps ]

  pub proposal_id_set : List P → List ℕ
  proposal_id_set proposals = unique (defined_ids proposals)

  -- `set.has(id as ProposalId)`
  abbrev pub has_id : List ℕ → Option ℕ → Bool
  has_id ids none = false
  has_id ids (some n) = contains ids n

  pub exclude_proposals : List P → List P → List P
  unfolding proposal_id_set
  exclude_proposals proposals exclusion =
      let exclude_ids = proposal_id_set exclusion in
      filter (λ p. not (has_id exclude_ids (id p))) proposals

  pub concatenate_unique_proposals : List P → List P → List P
  concatenate_unique_proposals old_proposals new_proposals =
      old_proposals ++ exclude_proposals new_proposals old_proposals

  -- `newProposals.find(({ id }) => id === proposal.id) ?? proposal`
  abbrev pub newest_of : List P → P → P
  newest_of new_proposals p = get_or_else (find? (λ q. id q == id p) new_proposals) p

  pub replace_proposals : List P → List P → List P
  replace_proposals old_proposals new_proposals = map (newest_of new_proposals) old_proposals

  pub replace_and_concatenate_proposals : List P → List P → List P
  replace_and_concatenate_proposals old_proposals new_proposals =
      let updated_proposals = map (newest_of new_proposals) old_proposals in
      let new_state_proposals_ids = map id updated_proposals in
      let brand_new_proposals =
        filter (λ p. not (contains new_state_proposals_ids (id p))) new_proposals in
      concatenate_unique_proposals updated_proposals brand_new_proposals
