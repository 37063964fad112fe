-- ===== src/Actionable/Complete.antt =====
-- What is loaded by frontend/src/lib/services/actionable-proposals.services.ts from a canister that
-- lists its proposals in descending order of their ids.
use nns_dapp.Common.{
  ℕ, ◌*◌, ◌≤◌, ◌<◌, nat_has_eq, ◌==◌, ◌≡◌, refl, true, false, Option, some, List, [], ◌∷◌, ◌++◌,
  Perm, length, filter, take, take_all, All-map, nonpos, Outcome, returns, arith,
}
use nns_dapp.Sorting.{nat_comparable, create_descending_comparator}
use nns_dapp.Sorting.Sorted.{IsSorted, sort-sorted}
use nns_dapp.Neurons.{NeuronsStore}
use nns_dapp.NnsNeurons.{NeuronInfo}
use nns_dapp.NnsNeurons.Amounts.{defined_neurons}
use nns_dapp.Navigation.{compare_ids, sort_proposals_by_id_descending_order}
use nns_dapp.Navigation.Steps.{id_or_zero, sort_proposals-IsSorted}
use nns_dapp.Actionable.{
  default_list_pagination_limit, max_actionable_request_count, last_proposal_id, query_proposals,
  ensure_neurons, is_votable, load_votable, load_actionable_proposals, set_actionable,
}
use nns_dapp.Actionable.Pages.{Descending, below, Ordered, load_pages-eq}

abbrev pub most : ℕ
most = max_actionable_request_count * default_list_pagination_limit

-- every proposal has an id, its number
module _ {P : Type 0} (id : P → Option ℕ) (number : P → ℕ)
    (ids : (p : P) → id p ≡ some (number p)) where
  compare-nonpos : (x y : P) → number y < number x → nonpos (compare_ids id x y) ≡ true
  unfolding compare_ids
  compare-nonpos x y h = ground (arith, ids x, ids y)

  Descending-IsSorted : (xs : List P) → Descending number xs → IsSorted (compare_ids id) xs
  Descending-IsSorted [] d = tt
  Descending-IsSorted (x ∷ xs) (h, d) = (
    All-map _ _ (λ y (k : number y < number x). compare-nonpos x y k) xs h,
    Descending-IsSorted xs d,
  )

  nns-Ordered : Ordered number (last_proposal_id id) (sort_proposals_by_id_descending_order id)
  unfolding last_proposal_id sort_proposals_by_id_descending_order
  nns-Ordered = record {
    at_start = refl;
    last = λ xs {x} d e. rw (last_proposal_id, e) (ids x);
    sorted = λ xs d. sort-sorted (compare_ids id) xs (Descending-IsSorted xs d);
  }

  -- how the canister answers requests, the number of a request being of no account
  abbrev pub Answers : {E : Type 0} → (ℕ → Option ℕ → Outcome E (List P)) → List P → Type 0
  Answers query all =
      (k : ℕ) (before : Option ℕ)
      → query k before ≡ returns (take default_list_pagination_limit (below number before all))

  -- The loop loads the first 500 proposals of the list, in its order, and ends.
  pub query_proposals-eq-take :
      {E : Type 0} (query : ℕ → Option ℕ → Outcome E (List P)) (all : List P)
      → Descending number all
      → Answers query all
      → query_proposals id query ≡ returns (take most all)
  unfolding query_proposals
  query_proposals-eq-take query all d answers =
      load_pages-eq number default_list_pagination_limit query nns-Ordered all d answers
        max_actionable_request_count 0 [] all refl

  module _ {E : Type 0} (votable_neurons : List NeuronInfo → P → List NeuronInfo)
      (accept_votes neuron_management : ℕ → Option ℕ → Outcome E (List P))
      (accepting managing : List P) (accepting-few : length accepting ≤ most)
      (managing-few : length managing ≤ most) (accepting-Descending : Descending number accepting)
      (managing-Descending : Descending number managing)
      (accepting-answers : Answers accept_votes accepting)
      (managing-answers : Answers neuron_management managing) where
    load_votable-eq :
        (neurons : List NeuronInfo)
        → load_votable id votable_neurons neurons accept_votes neuron_management
          ≡ returns (
              sort_proposals_by_id_descending_order id
                (filter (is_votable id votable_neurons neurons) (accepting ++ managing)))
    unfolding load_votable
    load_votable-eq neurons = rw (
      query_proposals-eq-take accept_votes accepting accepting-Descending accepting-answers,
      query_proposals-eq-take neuron_management managing managing-Descending managing-answers,
      take_all most accepting accepting-few,
      take_all most managing managing-few,
    )

    -- Where the user has neurons, the store holds afterwards exactly the proposals of both kinds that
    -- one of the neurons can vote on, by descending id. The canister holds at most 500 of each kind.
    pub load_actionable_proposals_complete :
        (store loaded : NeuronsStore NeuronInfo)
        (list_neurons : Outcome E (NeuronsStore NeuronInfo)) (actionable : Option (List P))
        → ensure_neurons store list_neurons ≡ returns loaded
        → (length (defined_neurons loaded.neurons) == 0) ≡ false
        → (ps : List P) × (load_actionable_proposals id votable_neurons store list_neurons
              accept_votes neuron_management actionable
            ≡ returns (some ps))
          × IsSorted (create_descending_comparator (id_or_zero id)) ps
          × Perm ps (
              filter
                (is_votable id votable_neurons (defined_neurons loaded.neurons))
                (accepting ++ managing))
    unfolding load_actionable_proposals set_actionable
    load_actionable_proposals_complete store loaded list_neurons actionable here some_neurons =
        let votable =
          filter (is_votable id votable_neurons (defined_neurons loaded.neurons))
            (accepting ++ managing) in
        let (sorted, same) = sort_proposals-IsSorted id votable in
        (
          sort_proposals_by_id_descending_order id votable,
          rw (here, some_neurons, load_votable-eq (defined_neurons loaded.neurons)) refl,
          sorted,
          same,
        )
