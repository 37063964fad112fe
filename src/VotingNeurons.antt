-- ===== src/VotingNeurons.antt =====
-- frontend/src/lib/stores/vote-registration.store.ts, `initNeuronSelectStore`, and the functions
-- of frontend/src/lib/utils/proposals.utils.ts on the selected neurons.
pub mod Selection
pub mod Tracking
pub mod Power
mod Tests
use nns_dapp.Common.{
  ℕ, ◌+◌, Bool, true, false, List, [], ◌∷◌, ◌++◌, String, string_has_eq, not, ◌==◌, map, filter,
  contains, unique, if◌then◌else◌,
}

pub record VotingNeuron : Type 0 where
  pub neuron_id_string : String
  pub voting_power : ℕ

pub record NeuronSelection : Type 0 where
  pub neurons : List VotingNeuron
  pub selected_ids : List String

abbrev pub id_of : VotingNeuron → String
id_of n = n.neuron_id_string

preserve_neuron_selection_after_update :
    List String → List VotingNeuron → List VotingNeuron → List String
preserve_neuron_selection_after_update selected_ids neurons updated_neurons =
    let new_ids = unique (map id_of updated_neurons) in
    let old_ids = unique (map id_of neurons) in
    let preserved_selection = filter (λ i. contains new_ids i) selected_ids in
    let new_neurons_selection = filter (λ i. not (contains old_ids i)) new_ids in
    preserved_selection ++ new_neurons_selection

pub init : NeuronSelection
init = record { neurons = []; selected_ids = [] }

pub set : List VotingNeuron → NeuronSelection → NeuronSelection
set neurons s = record { neurons = neurons; selected_ids = map id_of neurons }

-- "Used for testing purpose"
pub reset : NeuronSelection → NeuronSelection
unfolding set
reset s = set [] s

pub update_neurons : List VotingNeuron → NeuronSelection → NeuronSelection
unfolding preserve_neuron_selection_after_update
update_neurons neurons s = record {
  neurons = neurons;
  selected_ids = preserve_neuron_selection_after_update s.selected_ids s.neurons neurons;
}

abbrev toggled : String → List String → List String
toggled neuron_id selected_ids =
    if contains selected_ids neuron_id
    then filter (λ i. not (i == neuron_id)) selected_ids
    else unique (selected_ids ++ neuron_id ∷ [])

pub toggle_selection : String → NeuronSelection → NeuronSelection
toggle_selection neuron_id s = record s { selected_ids = toggled neuron_id s.selected_ids }

pub sum_power : List VotingNeuron → ℕ
sum_power [] = 0
sum_power (n ∷ ns) = n.voting_power + sum_power ns

pub selected_neurons_voting_power : List VotingNeuron → List String → ℕ
unfolding sum_power
selected_neurons_voting_power neurons selected_ids =
    sum_power (filter (λ n. contains selected_ids n.neuron_id_string) neurons)
