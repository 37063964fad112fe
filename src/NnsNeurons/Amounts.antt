-- ===== src/NnsNeurons/Amounts.antt =====
-- frontend/src/lib/utils/neuron.utils.ts, maturity and valid stakes, and `definedNeuronsStore` of
-- frontend/src/lib/derived/neurons.derived.ts.
use nns_dapp.Common.{ℕ, ◌+◌, Bool, false, Option, none, some, List, [], filter, get_or_else, ltb}
use nns_dapp.NnsNeurons.{NeuronInfo}

abbrev pub default_transaction_fee_e8s : ℕ
default_transaction_fee_e8s = 10_000

pub neuron_available_maturity : NeuronInfo → ℕ
neuron_available_maturity neuron = elim neuron.full_neuron [
  | none ↦ 0
  | some n ↦ n.maturity_e8s_equivalent
]

pub neuron_staked_maturity : NeuronInfo → ℕ
neuron_staked_maturity neuron = elim neuron.full_neuron [
  | none ↦ 0
  | some n ↦ get_or_else n.staked_maturity_e8s_equivalent 0
]

unfoldable pub has_valid_stake : NeuronInfo → Bool
unfolding neuron_available_maturity neuron_staked_maturity
has_valid_stake neuron = elim neuron.full_neuron [
  | none ↦ false
  | some n ↦
      ltb default_transaction_fee_e8s
        (n.cached_neuron_stake + neuron_available_maturity neuron + neuron_staked_maturity neuron)
]

unfoldable pub defined_neurons : Option (List NeuronInfo) → List NeuronInfo
unfolding has_valid_stake
defined_neurons neurons = filter has_valid_stake (get_or_else neurons [])
