-- ===== src/Neurons/Tests.antt =====
-- A small store of neurons, and the theorems at it. A neuron is its id with a stake.
use nns_dapp.Common.{
  ℕ, nat_has_eq, ◌≡◌, refl, true, some, List, [], ◌∷◌, or_else, unique_from, remove_keys,
}
use nns_dapp.Neurons.{NeuronsStore, init, set_neurons, replace_neurons, pushed, replaced}
use nns_dapp.Neurons.ById.{find_id, find_last, find_id-replaced}
use nns_dapp.Neurons.Ids.{Reaches, start, set, replace}

abbrev Staked : Type 0
Staked = ℕ × ℕ

abbrev id : Staked → ℕ
id n = n.0

abbrev three : List Staked
three = (1, 10) ∷ (2, 20) ∷ (3, 30) ∷ []

abbrev update : List Staked
update = (4, 1) ∷ (2, 2) ∷ (2, 3) ∷ []

replaced-three : replaced id update three ≡ (1, 10) ∷ (2, 3) ∷ (3, 30) ∷ (4, 1) ∷ []
unfolding replaced remove_keys
replaced-three = refl

pushed-three : pushed id update three ≡ (1, 10) ∷ (3, 30) ∷ (4, 1) ∷ (2, 2) ∷ (2, 3) ∷ []
unfolding pushed unique_from
pushed-three = refl

find_id-replaced_example :
    find_id id 2 (replaced id update three) ≡ or_else (find_last id 2 update) (find_id id 2 three)
find_id-replaced_example = find_id-replaced id 2 update three

abbrev replaced_store : NeuronsStore Staked
replaced_store = replace_neurons id update (set_neurons three (some true) init)

replaced_store-Reaches : Reaches id replaced_store
replaced_store-Reaches = replace update (set three (some true) start (refl, (refl, (refl, tt))))
