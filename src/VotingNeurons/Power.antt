-- ===== src/VotingNeurons/Power.antt =====
-- The voting power of the selection.
use nns_dapp.Common.{
  ℕ, ◌+◌, ◌≡◌, refl, sym, ap, ◌∙◌, Bool, false, some, List, [], ◌∷◌, String, string_has_eq, not,
  ◌==◌, map, filter, find?, contains, if◌then◌else◌, arith, Distinct, Bool-cases, inl, inr,
}
use nns_dapp.VotingNeurons.{
  VotingNeuron, NeuronSelection, id_of, toggle_selection, sum_power, selected_neurons_voting_power,
}
use nns_dapp.VotingNeurons.Selection.{contains-toggle_selection}

abbrev power_by : (String → Bool) → List VotingNeuron → ℕ
power_by p ns = sum_power (filter (λ n. p n.neuron_id_string) ns)

-- Two tests that differ at one id alone agree on neurons without it.
power_by-congr :
    (p q : String → Bool) (n : String) (ns : List VotingNeuron)
    → ((i : String) → (n == i) ≡ false → q i ≡ p i)
    → contains (map id_of ns) n ≡ false
    → power_by q ns ≡ power_by p ns
unfolding sum_power
power_by-congr p q n [] agree h = refl
power_by-congr p q n (v ∷ ns) agree h =
    let other : (n == v.neuron_id_string) ≡ false = ground (
      arith,
      string_has_eq.eqb_iff n v.neuron_id_string,
      string_has_eq.eqb_iff v.neuron_id_string n,
    ) in
    ground (arith, agree v.neuron_id_string other, power_by-congr p q n ns agree (ground arith))

power_by-flip :
    (p q : String → Bool) (n : String) (ns : List VotingNeuron) (v : VotingNeuron)
    → ((i : String) → (n == i) ≡ false → q i ≡ p i)
    → q n ≡ not (p n)
    → Distinct (map id_of ns)
    → find? (λ w. w.neuron_id_string == n) ns ≡ some v
    → power_by q ns + (if p n then v.voting_power else 0)
      ≡ power_by p ns + (if p n then 0 else v.voting_power)
unfolding sum_power
power_by-flip p q n [] v agree flip d h = cc
power_by-flip p q n (w ∷ ns) v agree flip (m, d) h = elim (Bool-cases (w.neuron_id_string == n)) [
  | inl same ↦
      let e : w.neuron_id_string ≡ n = (string_has_eq.eqb_iff w.neuron_id_string n).0 same in
      let wv : w ≡ v = ground arith in
      let rest = power_by-congr p q n ns agree (ap (contains (map id_of ns)) (sym e) ∙ m) in
      ground (arith, rest, ap p e, ap q e, ap (λ x. x.voting_power) wv)
  | inr other ↦
      let apart : (n == w.neuron_id_string) ≡ false = ground (
        arith,
        string_has_eq.eqb_iff n w.neuron_id_string,
        string_has_eq.eqb_iff w.neuron_id_string n,
      ) in
      ground (
        arith,
        agree w.neuron_id_string apart,
        power_by-flip p q n ns v agree flip d (rw other at h),
      )
]

-- A click on a listed neuron adds its voting power to that of the selection, or takes it off.
pub power-toggle_selection :
    (n : String) (s : NeuronSelection) (v : VotingNeuron)
    → Distinct (map id_of s.neurons)
    → find? (λ w. w.neuron_id_string == n) s.neurons ≡ some v
    → selected_neurons_voting_power s.neurons (toggle_selection n s).selected_ids
        + (if contains s.selected_ids n then v.voting_power else 0)
      ≡ selected_neurons_voting_power s.neurons s.selected_ids
        + (if contains s.selected_ids n then 0 else v.voting_power)
unfolding selected_neurons_voting_power
power-toggle_selection n s v d h =
    power_by-flip (contains s.selected_ids) (contains (toggle_selection n s).selected_ids) n
      s.neurons v (λ i apart. contains-toggle_selection n i s ∙ rw apart)
      (contains-toggle_selection n n s ∙ ground (arith, string_has_eq.eqb_iff n n)) d h
