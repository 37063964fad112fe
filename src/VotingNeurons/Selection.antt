-- ===== src/VotingNeurons/Selection.antt =====
-- Which neurons are selected after each operation.
use nns_dapp.Common.{
  ◌≡◌, refl, ap, subst, ◌∙◌, Bool, true, List, [], ◌∷◌, ◌++◌, String, string_has_eq, not, ◌==◌,
  ◌&&◌, ◌||◌, map, filter, contains, contains-append, contains-filter, contains-unique, unique,
  if◌then◌else◌, arith, Distinct, Distinct-append, Distinct-filter, Distinct-unique, Disjoint-intro,
  Bool-cases, inl, inr,
}
use nns_dapp.VotingNeurons.{
  VotingNeuron, NeuronSelection, id_of, init, set, update_neurons, toggle_selection,
}

-- Toggling selects a neuron that was not selected, deselects one that was, and leaves all others.
pub contains-toggle_selection :
    (n m : String) (s : NeuronSelection)
    → contains (toggle_selection n s).selected_ids m
      ≡ (if n == m then not (contains s.selected_ids m) else contains s.selected_ids m)
unfolding toggle_selection
contains-toggle_selection n m s =
    let ids = s.selected_ids in
    elim (Bool-cases (n == m)) [
      | inl same ↦
          let e : n ≡ m = (string_has_eq.eqb_iff n m).0 same in
          ground (
            arith,
            ap (contains ids) e,
            contains-filter (λ i. not (i == n)) ids m,
            contains-unique (ids ++ n ∷ []) m,
            contains-append ids (n ∷ []) m,
            string_has_eq.eqb_iff m n,
          )
      | inr other ↦ ground (
        arith,
        contains-filter (λ i. not (i == n)) ids m,
        contains-unique (ids ++ n ∷ []) m,
        contains-append ids (n ∷ []) m,
        string_has_eq.eqb_iff m n,
        string_has_eq.eqb_iff n m,
      )
    ]

abbrev pub listed : List VotingNeuron → String → Bool
listed ns i = contains (map id_of ns) i

-- After an update exactly those are selected that were selected and are still listed, and those
-- that are newly listed.
pub contains-update_neurons :
    (ns : List VotingNeuron) (s : NeuronSelection) (i : String)
    → contains (update_neurons ns s).selected_ids i
      ≡ listed ns i && (contains s.selected_ids i || not (listed s.neurons i))
unfolding update_neurons
contains-update_neurons ns s i =
    contains-append (filter (λ j. contains (unique (map id_of ns)) j) s.selected_ids)
      (filter (λ j. not (contains (unique (map id_of s.neurons)) j)) (unique (map id_of ns))) i
    ∙ ground (
      arith,
      contains-filter (λ j. contains (unique (map id_of ns)) j) s.selected_ids i,
      contains-filter (λ j. not (contains (unique (map id_of s.neurons)) j)) (unique (map id_of ns))
          i,
      contains-unique (map id_of ns) i,
      contains-unique (map id_of s.neurons) i,
    )

-- every selected id is listed, and none is selected twice
pub record IsValid (s : NeuronSelection) : Type 0 where
  within : (i : String) → contains s.selected_ids i ≡ true → listed s.neurons i ≡ true
  once : Distinct s.selected_ids

-- the selections that the operations lead to, where a load lists neurons with different ids and a
-- click toggles a neuron that is listed
pub data Reaches : NeuronSelection → Type 0 where
  start : Reaches init
  setting :
      (ns : List VotingNeuron) {s : NeuronSelection}
      → Reaches s
      → Distinct (map id_of ns)
      → Reaches (set ns s)
  updating :
      (ns : List VotingNeuron) {s : NeuronSelection} → Reaches s → Reaches (update_neurons ns s)
  toggling :
      (n : String) {s : NeuronSelection}
      → Reaches s
      → listed s.neurons n ≡ true
      → Reaches (toggle_selection n s)

update_neurons-once :
    (ns : List VotingNeuron) (s : NeuronSelection)
    → IsValid s
    → Distinct (update_neurons ns s).selected_ids
unfolding update_neurons
update_neurons-once ns s v =
    let new_ids = unique (map id_of ns) in
    let f = λ (j : String). contains new_ids j in
    let g = λ (j : String). not (contains (unique (map id_of s.neurons)) j) in
    Distinct-append (filter f s.selected_ids) (filter g new_ids)
      (Distinct-filter f s.selected_ids v.once)
      (Distinct-filter g new_ids (Distinct-unique (map id_of ns)))
      (Disjoint-intro (filter f s.selected_ids) (filter g new_ids) (λ i h.
        contains-filter g new_ids i
        ∙ ground (
          arith,
          contains-filter f s.selected_ids i,
          v.within i,
          contains-unique (map id_of s.neurons) i,
        )))

toggle_selection-once :
    (n : String) (s : NeuronSelection) → IsValid s → Distinct (toggle_selection n s).selected_ids
unfolding toggle_selection
toggle_selection-once n s v = elim (Bool-cases (contains s.selected_ids n)) [
  | inl selected ↦ rw selected (Distinct-filter (λ i. not (i == n)) s.selected_ids v.once)
  | inr free ↦ rw free (Distinct-unique (s.selected_ids ++ n ∷ []))
]

toggle_selection-neurons :
    (n : String) (s : NeuronSelection) → (toggle_selection n s).neurons ≡ s.neurons
unfolding toggle_selection
toggle_selection-neurons n s = refl

toggle_selection-IsValid :
    (n : String) (s : NeuronSelection)
    → IsValid s
    → listed s.neurons n ≡ true
    → IsValid (toggle_selection n s)
toggle_selection-IsValid n s v l = record {
  within = λ i h.
      ap (λ ns. listed ns i) (toggle_selection-neurons n s) ∙ elim (Bool-cases (n == i)) [
        | inl same ↦ subst (λ j. listed s.neurons j ≡ true) ((string_has_eq.eqb_iff n i).0 same) l
        | inr other ↦ v.within i (ground (arith, contains-toggle_selection n i s))
      ];
  once = toggle_selection-once n s v;
}

update_neurons-neurons :
    (ns : List VotingNeuron) (s : NeuronSelection) → (update_neurons ns s).neurons ≡ ns
unfolding update_neurons
update_neurons-neurons ns s = refl

-- After loads of neurons with different ids, updates and clicks on listed neurons the selected ids
-- are different, and each is the id of a neuron that is listed.
pub selection-IsValid : {s : NeuronSelection} → Reaches s → IsValid s
unfolding init set
selection-IsValid start = record { within = λ i h. h; once = tt }
selection-IsValid (setting ns r d) = record { within = λ i h. h; once = d }
selection-IsValid (updating ns {s} r) =
    let v = selection-IsValid r in
    record {
      within = λ i h.
          ap (λ l. listed l i) (update_neurons-neurons ns s)
          ∙ ground (arith, contains-update_neurons ns s i);
      once = update_neurons-once ns s v;
    }
selection-IsValid (toggling n {s} r l) = toggle_selection-IsValid n s (selection-IsValid r) l
