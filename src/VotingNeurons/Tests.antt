-- ===== src/VotingNeurons/Tests.antt =====
-- A selection among two neurons, and the theorems at it.
use nns_dapp.Common.{◌≡◌, refl, true, false, List, contains, [], ◌∷◌, string_has_eq, unique_from}
use nns_dapp.VotingNeurons.{
  VotingNeuron, NeuronSelection, init, set, update_neurons, toggle_selection,
  selected_neurons_voting_power,
}
use nns_dapp.VotingNeurons.Selection.{listed}
use nns_dapp.VotingNeurons.Tracking.{
  StoreCall, load_call, change_call, click_call, run, followed, unseen, contains-run,
}

abbrev one : VotingNeuron
one = record { neuron_id_string = "1"; voting_power = 10 }

abbrev two : VotingNeuron
two = record { neuron_id_string = "2"; voting_power = 7 }

abbrev three : VotingNeuron
three = record { neuron_id_string = "3"; voting_power = 5 }

abbrev loaded : NeuronSelection
loaded = set (one ∷ two ∷ []) init

abbrev clicked : NeuronSelection
clicked = toggle_selection "1" loaded

abbrev updated : NeuronSelection
updated = update_neurons (one ∷ two ∷ three ∷ []) clicked

updated_ids : updated.selected_ids ≡ "2" ∷ "3" ∷ []
unfolding set toggle_selection update_neurons unique_from
updated_ids = refl

updated_power : selected_neurons_voting_power updated.neurons updated.selected_ids ≡ 12
unfolding set toggle_selection update_neurons unique_from selected_neurons_voting_power
updated_power = refl

-- a neuron that is not listed is clicked, and one is loaded twice
abbrev history : List StoreCall
history =
    load_call (one ∷ one ∷ two ∷ [])
    ∷ click_call "1"
    ∷ click_call "9"
    ∷ change_call (one ∷ three ∷ [])
    ∷ []

contains-run_example :
    (contains (run history init).selected_ids "3" ≡ (followed "3" history unseen).chosen)
    × (listed (run history init).neurons "3" ≡ (followed "3" history unseen).known)
contains-run_example = contains-run "3" history

three_chosen : (followed "3" history unseen).chosen ≡ true
unfolding followed
three_chosen = refl

-- the neuron that was listed and deselected stays so
one_not_chosen : (followed "1" history unseen).chosen ≡ false
unfolding followed
one_not_chosen = refl
