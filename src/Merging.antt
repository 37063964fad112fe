-- ===== src/Merging.antt =====
-- Merging neurons: frontend/src/lib/utils/neuron.utils.ts, from `isMergeableNeuron` to
-- `mapNeuronIds`, and the script of
-- frontend/src/lib/components/neurons/SelectNeuronsToMerge.svelte, which selects the neurons.
-- The message keys are values of `MessageKey`. The topic `Topic.NeuronManagement`, a number of
-- @dfinity/nns, is a parameter.
pub mod Rules
pub mod Positions
pub mod Selection
mod Tests
use nns_dapp.Common.{
  HasEq, pos, negsuc, ◌||◌, ℕ, nat_has_eq, Bool, true, false, Option, none, some, List, [], ◌∷◌,
  ◌++◌, map, String, string_has_eq, option_has_eq, not, ◌==◌, ◌&&◌, find?, filter, contains, unique,
  length, is_some, nat_beq, leb, text_ltb, decimal, join, if◌then◌else◌, get_or_else,
}
use nns_dapp.Sorting.{Comparable, Comparator, create_ascending_comparator, sort}
use nns_dapp.NnsNeurons.{
  Followees, Neuron, NeuronInfo, IcpAccounts, has_joined_community_fund, is_spawning, is_locked,
  is_neuron_controllable,
}

pub data MessageKey : Type 0 where
  cannot_merge_neuron_community cannot_merge_neuron_spawning : MessageKey
  cannot_merge_neuron_hotkey cannot_merge_neuron_state only_merge_two : MessageKey
  merge_neurons_same_id merge_neurons_different_types : MessageKey
  merge_neurons_not_same_controller : MessageKey
  merge_neurons_not_same_manage_neuron_followees : MessageKey

abbrev max_neurons_merged : ℕ
max_neurons_merged = 2

pub is_mergeable_neuron : NeuronInfo → IcpAccounts → Bool
is_mergeable_neuron neuron accounts =
    not (has_joined_community_fund neuron)
    && not (is_spawning neuron)
    && is_locked neuron
    && is_neuron_controllable neuron none accounts

pub get_mergeable_neuron_message_key : NeuronInfo → IcpAccounts → Option MessageKey
get_mergeable_neuron_message_key neuron accounts =
    if has_joined_community_fund neuron
    then some cannot_merge_neuron_community
    else if is_spawning neuron
    then some cannot_merge_neuron_spawning
    else if not (is_neuron_controllable neuron none accounts)
    then some cannot_merge_neuron_hotkey
    else if not (is_locked neuron)
    then some cannot_merge_neuron_state
    else none

-- `new Set(xs).size === 1`
abbrev pub has_one_value : {A : Type 0} ⦃e : HasEq A⦄ → List A → Bool
has_one_value xs = nat_beq (length (unique xs)) 1

abbrev pub controller_key : NeuronInfo → Option String
controller_key n = elim n.full_neuron [ none ↦ some (decimal n.neuron_id) | some f ↦ f.controller ]

pub same_controller : List NeuronInfo → Bool
same_controller neurons = has_one_value (map controller_key neurons)

pub same_id : List NeuronInfo → Bool
same_id neurons = has_one_value (map (λ (n : NeuronInfo). n.neuron_id) neurons)

pub same_neuron_type : List NeuronInfo → Bool
same_neuron_type neurons = has_one_value (map (λ (n : NeuronInfo). n.neuron_type) neurons)

pub all_have_same_followees : List (List ℕ) → Bool
all_have_same_followees sorted_followees_lists =
    has_one_value (map (λ l. join (map decimal l)) sorted_followees_lists)

abbrev full_neurons : List NeuronInfo → List Neuron
full_neurons [] = []
full_neurons (n ∷ ns) = elim n.full_neuron [ none ↦ full_neurons ns | some f ↦ f ∷ full_neurons ns ]

-- `followees.sort()` compares the texts of the ids. It also reorders the array in place, which is
-- not modelled: nothing that is stated here depends on the order of those followees.
abbrev pub compare_texts : Comparator ℕ
compare_texts a b =
    if text_ltb (decimal a) (decimal b)
    then negsuc 0
    else if text_ltb (decimal b) (decimal a)
    then pos 1
    else pos 0

pub record Merge : Type 0 where
  pub is_valid : Bool
  message_key : Option MessageKey

abbrev refused : MessageKey → Merge
refused key = record { is_valid = false; message_key = some key }

pub record MergeableNeuron : Type 0 where
  pub mergeable : Bool
  pub selected : Bool
  message_key : Option MessageKey
  pub neuron : NeuronInfo

-- the first pass of `mapMergeableNeurons`: the neuron on itself
pub considered_alone : IcpAccounts → List NeuronInfo → NeuronInfo → MergeableNeuron
unfolding is_mergeable_neuron get_mergeable_neuron_message_key
considered_alone accounts selected_neurons neuron = record {
  mergeable = is_mergeable_neuron neuron accounts;
  selected = contains (map (λ (n : NeuronInfo). n.neuron_id) selected_neurons) neuron.neuron_id;
  message_key = get_mergeable_neuron_message_key neuron accounts;
  neuron = neuron;
}

pub map_neuron_ids : List ℕ → List NeuronInfo → List NeuronInfo
map_neuron_ids [] neurons = []
map_neuron_ids (i ∷ ids) neurons = elim (find? (λ (n : NeuronInfo). n.neuron_id == i) neurons) [
  | none ↦ map_neuron_ids ids neurons
  | some n ↦ n ∷ map_neuron_ids ids neurons
]

pub is_max_selection : List ℕ → Bool
is_max_selection selected_ids = leb max_neurons_merged (length selected_ids)

pub toggle_neuron_id : ℕ → List ℕ → List ℕ
unfolding is_max_selection
toggle_neuron_id neuron_id selected_ids =
    if contains selected_ids neuron_id
    then filter (λ i. not (i == neuron_id)) selected_ids
    else if not (is_max_selection selected_ids)
    then selected_ids ++ neuron_id ∷ []
    else selected_ids

-- a click on a card: only the cards of mergeable neurons take it
pub click : MergeableNeuron → List ℕ → List ℕ
unfolding toggle_neuron_id
click m selected_ids =
    if m.mergeable then toggle_neuron_id m.neuron.neuron_id selected_ids else selected_ids

-- `confirmSelection`: the neurons that are sent, where the button is not disabled
pub confirm_selection : List MergeableNeuron → List ℕ → Option (List NeuronInfo)
unfolding is_max_selection map_neuron_ids
confirm_selection shown selected_ids =
    if is_max_selection selected_ids
    then some (map_neuron_ids selected_ids (map (λ (m : MergeableNeuron). m.neuron) shown))
    else none

module _ (neuron_management : ℕ) where
  abbrev pub management_followees : Neuron → List ℕ
  management_followees n =
      elim (find? (λ (f : Followees). f.topic == neuron_management) n.followees) [
        | none ↦ []
        | some f ↦ f.followees
      ]

  pub same_manage_neuron_followees : List NeuronInfo → Bool
  unfolding all_have_same_followees
  same_manage_neuron_followees neurons =
      let full = full_neurons neurons in
      if nat_beq (length full) 0
      then false
      else all_have_same_followees (map (λ n. sort compare_texts (management_followees n)) full)

  pub can_be_merged : List NeuronInfo → Merge
  unfolding same_id same_neuron_type same_controller same_manage_neuron_followees
  can_be_merged neurons =
      if not (nat_beq (length neurons) max_neurons_merged)
      then record { is_valid = false; message_key = none }
      else if same_id neurons
      then refused merge_neurons_same_id
      else if not (same_neuron_type neurons)
      then refused merge_neurons_different_types
      else if not (same_controller neurons)
      then refused merge_neurons_not_same_controller
      else if same_manage_neuron_followees neurons
      then record { is_valid = true; message_key = none }
      else refused merge_neurons_not_same_manage_neuron_followees

  -- the comparison with the current selection, of a neuron that is neither excluded nor selected
  abbrev pub compared : List NeuronInfo → MergeableNeuron → MergeableNeuron
  compared [] m = m
  compared (s ∷ []) m =
      let merge = can_be_merged (s ∷ m.neuron ∷ []) in
      record m { mergeable = merge.is_valid; message_key = merge.message_key }
  compared (s ∷ t ∷ selected_neurons) m = record m {
    mergeable = false;
    message_key = some only_merge_two;
  }

  -- the second pass: the neuron with the current selection
  pub with_selection : List NeuronInfo → MergeableNeuron → MergeableNeuron
  unfolding can_be_merged
  with_selection selected_neurons m =
      if not m.mergeable || m.selected then m else compared selected_neurons m

  pub map_mergeable_neurons : List NeuronInfo → IcpAccounts → List NeuronInfo → List MergeableNeuron
  unfolding considered_alone with_selection
  map_mergeable_neurons neurons accounts selected_neurons =
      map (with_selection selected_neurons)
        (map (considered_alone accounts selected_neurons) neurons)

  -- the component's `neurons`, a reactive statement
  pub shown_neurons : List NeuronInfo → IcpAccounts → List ℕ → List MergeableNeuron
  unfolding map_mergeable_neurons map_neuron_ids
  shown_neurons neurons accounts selected_ids =
      map_mergeable_neurons neurons accounts (map_neuron_ids selected_ids neurons)
