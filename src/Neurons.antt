-- ===== src/Neurons.antt =====
-- frontend/src/lib/stores/neurons.store.ts: the store of the user's neurons. Its operations look
-- at a neuron's `neuronId` only.
pub mod ById
pub mod Ids
mod Tests
use nns_dapp.Common.{
  ℕ, nat_has_eq, Bool, Option, none, some, List, [], ◌∷◌, ◌++◌, map, not, filter, contains,
  get_or_else, lookup, insert, remove_keys, unique, if◌then◌else◌, is_some,
}

pub record NeuronsStore (N : Type 0) : Type 0 where
  pub neurons : Option (List N)
  pub certified : Option Bool

module _ {N : Type 0} where
  pub init : NeuronsStore N
  init = record { neurons = none; certified = none }

  pub set_neurons : List N → Option Bool → NeuronsStore N → NeuronsStore N
  set_neurons neurons certified s = record { neurons = some neurons; certified = certified }

  pub reset : NeuronsStore N → NeuronsStore N
  reset s = record { neurons = none; certified = none }

-- `new Map(entries)`: a later entry takes the place of an earlier one with its key
pub from_entries : {N : Type 0} → List (ℕ × N) → List (ℕ × N) → List (ℕ × N)
from_entries m [] = m
from_entries m ((k, n) ∷ entries) = from_entries (insert k n m) entries

module _ {N : Type 0} (neuron_id : N → ℕ) where
  -- the lists that `pushNeurons` and `replaceNeurons` put into the store
  pub pushed : List N → List N → List N
  pushed neurons old_neurons =
      let new_ids = unique (map neuron_id neurons) in
      filter (λ n. not (contains new_ids (neuron_id n))) old_neurons ++ neurons

  abbrev pub entry : N → ℕ × N
  entry n = (neuron_id n, n)

  -- `if (newNeuron) newNeurons.delete(neuronId)`
  abbrev pub delete_used : N → List (ℕ × N) → List (ℕ × N)
  delete_used old new_neurons =
      if is_some (lookup (neuron_id old) new_neurons)
      then remove_keys (neuron_id old ∷ []) new_neurons
      else new_neurons

  -- `newNeuron ?? old`
  abbrev pub newest_of : List (ℕ × N) → N → N
  newest_of new_neurons old = get_or_else (lookup (neuron_id old) new_neurons) old

  -- the callback of `oldNeurons?.map`, which deletes from the map what it has used
  pub update_old : List N → List (ℕ × N) → List N × List (ℕ × N)
  update_old [] new_neurons = ([], new_neurons)
  update_old (old ∷ olds) new_neurons =
      let (updated, rest) = update_old olds (delete_used old new_neurons) in
      (newest_of new_neurons old ∷ updated, rest)

  abbrev pub values : List (ℕ × N) → List N
  values m = map (λ e. e.1) m

  pub replaced : List N → List N → List N
  unfolding from_entries update_old
  replaced neurons old_neurons =
      let (updated, rest) = update_old old_neurons (from_entries [] (map entry neurons)) in
      updated ++ values rest

  pub push_neurons : List N → Option Bool → NeuronsStore N → NeuronsStore N
  unfolding pushed
  push_neurons neurons certified s = record {
    neurons = some (pushed neurons (get_or_else s.neurons []));
    certified = certified;
  }

  pub replace_neurons : List N → NeuronsStore N → NeuronsStore N
  unfolding replaced
  replace_neurons neurons s = record s {
    neurons = some (replaced neurons (get_or_else s.neurons []));
  }
