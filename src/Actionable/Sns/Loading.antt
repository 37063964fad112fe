-- ===== src/Actionable/Sns/Loading.antt =====
-- The loop over pages of frontend/src/lib/services/actionable-sns-proposals.services.ts, where the
-- canister lists its proposals in descending order of their ids.
use nns_dapp.Common.{
  ℕ, ◌*◌, ◌<◌, ◌≡◌, refl, true, Option, some, List, [], ◌∷◌, take, All-map, nonpos, Outcome,
  returns, arith,
}
use nns_dapp.Sorting.{sort}
use nns_dapp.Sorting.Sorted.{IsSorted, sort-sorted}
use nns_dapp.Actionable.{max_actionable_request_count}
use nns_dapp.Actionable.Pages.{Descending, below, Ordered, load_pages-eq}
use nns_dapp.Actionable.Sns.{
  default_sns_proposals_page_size, compare_sns_ids, sort_sns_proposals_by_id, last_sns_proposal_id,
  query_sns_proposals,
}

module _ {P : Type 0} (id : P → Option ℕ) (number : P → ℕ)
    (ids : (p : P) → id p ≡ some (number p)) where
  compare_sns-nonpos : (x y : P) → number y < number x → nonpos (compare_sns_ids id x y) ≡ true
  unfolding compare_sns_ids
  compare_sns-nonpos x y h = ground (arith, ids x, ids y)

  sns-IsSorted : (xs : List P) → Descending number xs → IsSorted (compare_sns_ids id) xs
  sns-IsSorted [] d = tt
  sns-IsSorted (x ∷ xs) (h, d) = (
    All-map _ _ (λ y (k : number y < number x). compare_sns-nonpos x y k) xs h,
    sns-IsSorted xs d,
  )

  sns-sorted : (xs : List P) → Descending number xs → sort_sns_proposals_by_id id xs ≡ xs
  unfolding sort_sns_proposals_by_id
  sns-sorted xs d = sort-sorted (compare_sns_ids id) xs (sns-IsSorted xs d)

  sns-Ordered : Ordered number (last_sns_proposal_id id) (sort_sns_proposals_by_id id)
  unfolding last_sns_proposal_id sort_sns_proposals_by_id sort
  sns-Ordered = record {
    at_start = refl;
    last = λ xs {x} d e. rw (last_sns_proposal_id, sns-sorted xs d, e) (ids x);
    sorted = sns-sorted;
  }

  -- For an SNS project the loop loads the first 100 proposals of the list, in its order, and ends.
  pub query_sns_proposals-eq-take :
      {E : Type 0} (query : ℕ → Option ℕ → Outcome E (List P)) (all : List P)
      → Descending number all
      → ((k : ℕ) (before : Option ℕ)
          → query k before
            ≡ returns (take default_sns_proposals_page_size (below number before all)))
      → query_sns_proposals id query
        ≡ returns (take (max_actionable_request_count * default_sns_proposals_page_size) all)
  unfolding query_sns_proposals
  query_sns_proposals-eq-take query all d answers =
      load_pages-eq number default_sns_proposals_page_size query sns-Ordered all d answers
        max_actionable_request_count 0 [] all refl
