-- ===== src/Actionable.antt =====
-- The proposals that the user can vote on: frontend/src/lib/services/actionable-proposals.services.ts
-- with frontend/src/lib/stores/actionable-nns-proposals.store.ts. What the governance canister
-- answers to the request number k of a load is given by a function of k; `votable_neurons` is that
-- of @dfinity/nns. The identity of the user and the message on the console are not modelled.
pub mod Pages
pub mod Complete
pub mod Sns
mod Tests
use nns_dapp.Common.{
  ℕ, zero, suc, nat_has_eq, ◌==◌, ◌≡◌, Bool, true, false, Option, none, some, List, [], ◌∷◌, ◌++◌,
  length, filter, last?, ltb, get_or_else, Outcome, returns, throws, ◌>>=◌, is_some, if◌then◌else◌,
}
use nns_dapp.Neurons.{NeuronsStore}
use nns_dapp.NnsNeurons.{NeuronInfo}
use nns_dapp.NnsNeurons.Amounts.{defined_neurons}
use nns_dapp.Navigation.{sort_proposals_by_id_descending_order}

abbrev pub default_list_pagination_limit : ℕ
default_list_pagination_limit = 100

abbrev pub max_actionable_request_count : ℕ
max_actionable_request_count = 5

-- The loop over the pages, as often as `rounds`: it ends with a page that is not full.
module _ {P E : Type 0} (limit : ℕ) (last_id : List P → Option ℕ) (sort_by_id : List P → List P)
    (query : ℕ → Option ℕ → Outcome E (List P)) where
  pub load_pages : ℕ → ℕ → List P → Outcome E (List P)
  load_pages zero pages_loaded sorted_proposals = returns sorted_proposals
  load_pages (suc rounds) pages_loaded sorted_proposals =
      elim (query pages_loaded (last_id sorted_proposals)) [
        | throws e ↦ throws e
        | returns page ↦
            let sorted = sort_by_id (sorted_proposals ++ page) in
            let rest = load_pages rounds (suc pages_loaded) sorted in
            if length page == limit then rest else returns sorted
      ]

module _ {P : Type 0} (id : P → Option ℕ) where
  pub last_proposal_id : List P → Option ℕ
  last_proposal_id proposals = elim (last? proposals) [ none ↦ none | some p ↦ id p ]

  pub query_proposals : {E : Type 0} → (ℕ → Option ℕ → Outcome E (List P)) → Outcome E (List P)
  unfolding load_pages last_proposal_id
  query_proposals query =
      load_pages default_list_pagination_limit last_proposal_id
        (sort_proposals_by_id_descending_order id) query max_actionable_request_count 0 []

-- frontend/src/lib/stores/actionable-nns-proposals.store.ts
module _ {P : Type 0} where
  pub set_actionable : List P → Option (List P) → Option (List P)
  set_actionable proposals s = some proposals

  reset_actionable : Option (List P) → Option (List P)
  reset_actionable s = none

-- `queryNeurons`: the store of neurons after the call, which is loaded if it holds no neurons
pub ensure_neurons :
    {E : Type 0}
    → NeuronsStore NeuronInfo
    → Outcome E (NeuronsStore NeuronInfo)
    → Outcome E (NeuronsStore NeuronInfo)
ensure_neurons store list_neurons = if is_some store.neurons then returns store else list_neurons

module _ {P : Type 0} (id : P → Option ℕ)
    (votable_neurons : List NeuronInfo → P → List NeuronInfo) where
  abbrev pub is_votable : List NeuronInfo → P → Bool
  is_votable neurons p = ltb 0 (length (votable_neurons neurons p))

  -- the proposals for the store, from what is loaded for at least one neuron
  pub load_votable :
      {E : Type 0}
      → List NeuronInfo
      → (ℕ → Option ℕ → Outcome E (List P))
      → (ℕ → Option ℕ → Outcome E (List P))
      → Outcome E (List P)
  unfolding query_proposals
  load_votable neurons accept_votes neuron_management = do
    accepting ← query_proposals id accept_votes
    managing ← query_proposals id neuron_management
    returns (
        sort_proposals_by_id_descending_order id
          (filter (is_votable neurons) (accepting ++ managing)))

  -- the store of actionable proposals after the call
  pub load_actionable_proposals :
      {E : Type 0}
      → NeuronsStore NeuronInfo
      → Outcome E (NeuronsStore NeuronInfo)
      → (ℕ → Option ℕ → Outcome E (List P))
      → (ℕ → Option ℕ → Outcome E (List P))
      → Option (List P)
      → Outcome E (Option (List P))
  unfolding ensure_neurons load_votable defined_neurons set_actionable
  load_actionable_proposals store list_neurons accept_votes neuron_management actionable = do
    loaded ← ensure_neurons store list_neurons
    let neurons = defined_neurons loaded.neurons
    if length neurons == 0 then returns (set_actionable [] actionable) else (do
      proposals ← load_votable neurons accept_votes neuron_management
      returns (set_actionable proposals actionable))
