-- ===== src/Merging/Positions.antt =====
-- The cards of frontend/src/lib/components/neurons/SelectNeuronsToMerge.svelte by their position
-- in the list.
use nns_dapp.Common.{
  ℕ, zero, suc, ◌≡◌, refl, inl, inr, nat_has_eq, eqb_refl, eq_of_eqb, true, Option, none, some,
  List, [], ◌∷◌, map, ◌==◌, find?, contains, Distinct, arith, Bool-cases,
}
use nns_dapp.NnsNeurons.{NeuronInfo}

unfoldable pub get_elem? : {A : Type 0} → List A → ℕ → Option A
get_elem? [] k = none
get_elem? (x ∷ xs) zero = some x
get_elem? (x ∷ xs) (suc k) = get_elem? xs k

abbrev pub id_of : NeuronInfo → ℕ
id_of n = n.neuron_id

pub get_elem?-map :
    {A B : Type 0} (f : A → B) (xs : List A) (k : ℕ) {y : B}
    → get_elem? (map f xs) k ≡ some y
    → (x : A) × ((get_elem? xs k ≡ some x) × (f x ≡ y))
unfolding get_elem?
get_elem?-map f [] k e = cc
get_elem?-map f (x ∷ xs) zero e = (x, (refl, cc))
get_elem?-map f (x ∷ xs) (suc k) e = get_elem?-map f xs k e

contains-get_elem? :
    (ns : List NeuronInfo) (k : ℕ) {n : NeuronInfo}
    → get_elem? ns k ≡ some n
    → contains (map id_of ns) n.neuron_id ≡ true
unfolding get_elem?
contains-get_elem? [] k e = cc
contains-get_elem? (m ∷ ns) zero {n} e =
    let same : m ≡ n = cc in rw (← same) (ground (arith, eqb_refl m.neuron_id))
contains-get_elem? (m ∷ ns) (suc k) {n} e = ground (arith, contains-get_elem? ns k {n = n} e)

-- where the ids are distinct, a listed neuron is the one that its id finds
pub find?-get_elem? :
    (ns : List NeuronInfo) (k : ℕ) {n : NeuronInfo}
    → Distinct (map id_of ns)
    → get_elem? ns k ≡ some n
    → find? (λ (m : NeuronInfo). m.neuron_id == n.neuron_id) ns ≡ some n
unfolding get_elem?
find?-get_elem? [] k d e = cc
find?-get_elem? (m ∷ ns) zero {n} d e =
    let same : m ≡ n = cc in rw (← same) (ground (arith, eqb_refl m.neuron_id))
find?-get_elem? (m ∷ ns) (suc k) {n} (d, ds) e =
    let listed = contains-get_elem? ns k {n = n} e in
    elim (Bool-cases (m.neuron_id == n.neuron_id)) [
      | inl same ↦
          let equal : m.neuron_id ≡ n.neuron_id = eq_of_eqb m.neuron_id n.neuron_id same in cc
      | inr other ↦ rw other (find?-get_elem? ns k {n = n} ds e)
    ]
