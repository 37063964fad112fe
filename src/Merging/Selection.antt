-- ===== src/Merging/Selection.antt =====
-- frontend/src/lib/components/neurons/SelectNeuronsToMerge.svelte: what any sequence of clicks
-- can select, for a list of neurons and accounts that stay the same.
use mathlib.Core.Option.{some-injective}
use nns_dapp.Common.{
  ap₂, sym, ℕ, ◌≡◌, refl, ◌∙◌, ap, inl, inr, nat_has_eq, eqb_comm, eq_of_eqb, true, false, Option,
  none, some, List, [], ◌∷◌, map, not, ◌==◌, ◌||◌, find?, find?-holds, All, Distinct, if◌then◌else◌,
  arith, Option-cases, Bool-cases,
}
use nns_dapp.Merging.Positions.{get_elem?, id_of, get_elem?-map, find?-get_elem?}
use nns_dapp.NnsNeurons.{NeuronInfo, IcpAccounts}
use nns_dapp.Merging.{
  MergeableNeuron, is_mergeable_neuron, considered_alone, with_selection, map_mergeable_neurons,
  compared, map_neuron_ids, shown_neurons, is_max_selection, toggle_neuron_id, click,
  confirm_selection, can_be_merged,
}

module _ (nm : ℕ) (neurons : List NeuronInfo) (accounts : IcpAccounts) where
  -- a click on the card at a position, of those that are shown
  click_at : ℕ → List ℕ → List ℕ
  unfolding get_elem?
  click_at k selected_ids = elim (get_elem? (shown_neurons nm neurons accounts selected_ids) k) [
    | none ↦ selected_ids
    | some m ↦ click m selected_ids
  ]

  unfoldable pub click_all : List ℕ → List ℕ → List ℕ
  unfolding click_at
  click_all [] selected_ids = selected_ids
  click_all (k ∷ ks) selected_ids = click_all ks (click_at k selected_ids)

  abbrev pub find_id : ℕ → Option NeuronInfo
  find_id i = find? (λ (m : NeuronInfo). m.neuron_id == i) neurons

  -- the neuron that a selected id stands for
  pub record Selected (i : ℕ) : Type 0 where
    pub neuron : NeuronInfo
    pub found : find_id i ≡ some neuron
    alone : is_mergeable_neuron neuron accounts ≡ true

  abbrev ValidSelection : List ℕ → Type 0
  ValidSelection [] = Unit
  ValidSelection (i ∷ []) = Selected i
  ValidSelection (i ∷ j ∷ []) =
      (s : Selected i) × ((t : Selected j) × ((can_be_merged nm (s.neuron ∷ t.neuron ∷ [])).is_valid
          ≡ true))
  ValidSelection (i ∷ j ∷ k ∷ is) = ⊥

  -- what can be clicked beside the neurons that are selected
  card-is_valid :
      (n s : NeuronInfo)
      → (n.neuron_id == s.neuron_id) ≡ false
      → (with_selection nm (s ∷ []) (considered_alone accounts (s ∷ []) n)).mergeable ≡ true
      → (is_mergeable_neuron n accounts ≡ true) × ((can_be_merged nm (s ∷ n ∷ [])).is_valid ≡ true)
  unfolding with_selection considered_alone
  card-is_valid n s other h = ground (arith, eqb_comm n.neuron_id s.neuron_id)

  card-alone :
      (n : NeuronInfo)
      → (with_selection nm [] (considered_alone accounts [] n)).mergeable ≡ true
      → is_mergeable_neuron n accounts ≡ true
  unfolding with_selection considered_alone
  card-alone n h = ground arith

  compared-neuron :
      (sel : List NeuronInfo) (m : MergeableNeuron) → (compared nm sel m).neuron ≡ m.neuron
  compared-neuron [] m = refl
  compared-neuron (s ∷ []) m = refl
  compared-neuron (s ∷ t ∷ sel) m = refl

  abbrev card : List NeuronInfo → NeuronInfo → MergeableNeuron
  card sel n = with_selection nm sel (considered_alone accounts sel n)

  with_selection-neuron :
      (sel : List NeuronInfo) (m : MergeableNeuron) → (with_selection nm sel m).neuron ≡ m.neuron
  unfolding with_selection
  with_selection-neuron sel m = elim (Bool-cases (not m.mergeable || m.selected)) [
    | inl e ↦ rw e
    | inr e ↦ rw e (compared-neuron sel m)
  ]

  -- the cards show the listed neurons
  shown-neuron :
      (sel : List NeuronInfo) (ns : List NeuronInfo)
      → map (λ (m : MergeableNeuron). m.neuron) (map_mergeable_neurons nm ns accounts sel) ≡ ns
  unfolding map_mergeable_neurons considered_alone
  shown-neuron sel [] = refl
  shown-neuron sel (n ∷ ns) =
      ap₂ (λ m ms. m ∷ ms) (with_selection-neuron sel (considered_alone accounts sel n))
        (shown-neuron sel ns)

  shown_neurons-neuron :
      (ids : List ℕ)
      → map (λ (m : MergeableNeuron). m.neuron) (shown_neurons nm neurons accounts ids) ≡ neurons
  unfolding shown_neurons
  shown_neurons-neuron ids = shown-neuron (map_neuron_ids ids neurons) neurons

  click-card :
      (sel : List NeuronInfo) (n : NeuronInfo) (ids : List ℕ)
      → click (card sel n) ids
        ≡ (if (card sel n).mergeable then toggle_neuron_id n.neuron_id ids else ids)
  unfolding click considered_alone
  click-card sel n ids = rw (with_selection-neuron sel (considered_alone accounts sel n))

  toggle-one :
      (n : NeuronInfo) (i : ℕ)
      → find_id n.neuron_id ≡ some n
      → (s : Selected i)
      → ((n.neuron_id == s.neuron.neuron_id) ≡ false
          → (is_mergeable_neuron n accounts ≡ true)
            × ((can_be_merged nm (s.neuron ∷ n ∷ [])).is_valid ≡ true))
      → ValidSelection (toggle_neuron_id n.neuron_id (i ∷ []))
  unfolding toggle_neuron_id is_max_selection
  toggle-one n i f s beside = elim (Bool-cases (i == n.neuron_id)) [
    | inl e ↦ rw e tt
    | inr e ↦
        let is_s = find?-holds (λ (m : NeuronInfo). m.neuron_id == i) neurons s.found in
        let differs : (n.neuron_id == s.neuron.neuron_id) ≡ false =
          rw (eq_of_eqb s.neuron.neuron_id i is_s) (eqb_comm n.neuron_id i ∙ e) in
        let (alone, valid) = beside differs in
        rw e (s, (record { neuron = n; found = f; alone = alone }, valid))
  ]

  toggle-two :
      (k i j : ℕ) (v : ValidSelection (i ∷ j ∷ []))
      → ValidSelection (toggle_neuron_id k (i ∷ j ∷ []))
  unfolding toggle_neuron_id is_max_selection
  toggle-two k i j (s, (t, valid)) = elim (Bool-cases (i == k)) [
    | inl e ↦ elim (Bool-cases (j == k)) [ inl e' ↦ rw (e, e') tt | inr e' ↦ rw (e, e') t ]
    | inr e ↦ elim (Bool-cases (j == k)) [
      | inl e' ↦ rw (e, e') s
      | inr e' ↦ rw (e, e') (s, (t, valid))
    ]
  ]

  toggle-none :
      (n : NeuronInfo)
      → find_id n.neuron_id ≡ some n
      → is_mergeable_neuron n accounts ≡ true
      → ValidSelection (toggle_neuron_id n.neuron_id [])
  unfolding toggle_neuron_id is_max_selection
  toggle-none n f alone = record { neuron = n; found = f; alone = alone }

  map-none : map_neuron_ids [] neurons ≡ []
  unfolding map_neuron_ids
  map-none = refl

  map-one : (i : ℕ) (s : Selected i) → map_neuron_ids (i ∷ []) neurons ≡ s.neuron ∷ []
  unfolding map_neuron_ids
  map-one i s = rw (map_neuron_ids, s.found)

  map-two :
      (i j : ℕ) (s : Selected i) (t : Selected j)
      → map_neuron_ids (i ∷ j ∷ []) neurons ≡ s.neuron ∷ t.neuron ∷ []
  unfolding map_neuron_ids
  map-two i j s t = rw (map_neuron_ids, s.found, t.found)

  -- one click, on the card of a neuron that its id finds
  click-ValidSelection :
      (n : NeuronInfo) (ids : List ℕ)
      → find_id n.neuron_id ≡ some n
      → ValidSelection ids
      → ValidSelection (click (card (map_neuron_ids ids neurons) n) ids)
  click-ValidSelection n [] f v =
      rw (map-none, click-card [] n [])
        elim (Bool-cases (card [] n).mergeable) [
          | inl h ↦ rw h (toggle-none n f (card-alone n h))
          | inr h ↦ rw h tt
        ]
  click-ValidSelection n (i ∷ []) f s =
      rw (map-one i s, click-card (s.neuron ∷ []) n (i ∷ []))
        elim (Bool-cases (card (s.neuron ∷ []) n).mergeable) [
          | inl h ↦ rw h (toggle-one n i f s (λ other. card-is_valid n s.neuron other h))
          | inr h ↦ rw h s
        ]
  click-ValidSelection n (i ∷ j ∷ []) f v =
      let sel = map_neuron_ids (i ∷ j ∷ []) neurons in
      rw (click-card sel n (i ∷ j ∷ [])) elim (Bool-cases (card sel n).mergeable) [
        | inl h ↦ rw h (toggle-two n.neuron_id i j v)
        | inr h ↦ rw h v
      ]
  click-ValidSelection n (i ∷ j ∷ k ∷ is) f v = elim v [ ]

  shown-card :
      (k : ℕ) (ids : List ℕ) {m : MergeableNeuron}
      → get_elem? (shown_neurons nm neurons accounts ids) k ≡ some m
      → (n : NeuronInfo) × ((get_elem? neurons k ≡ some n)
          × (card (map_neuron_ids ids neurons) n ≡ m))
  unfolding shown_neurons map_mergeable_neurons
  shown-card k ids {m} e =
      let sel = map_neuron_ids ids neurons in
      let (m', (e', same)) =
        get_elem?-map (with_selection nm sel) (map (considered_alone accounts sel) neurons) k
          {y = m} e in
      let (n, (e'', same')) = get_elem?-map (considered_alone accounts sel) neurons k {y = m'} e' in
      (n, (e'', ap (with_selection nm sel) same' ∙ same))

  module _ (distinct : Distinct (map id_of neurons)) where
    click_at-ValidSelection :
        (k : ℕ) (ids : List ℕ) → ValidSelection ids → ValidSelection (click_at k ids)
    unfolding click_at
    click_at-ValidSelection k ids v =
        elim (Option-cases (get_elem? (shown_neurons nm neurons accounts ids) k)) [
          | inl e ↦ rw (click_at, e) v
          | inr (m, e) ↦
              let (n, (listed, same)) = shown-card k ids {m = m} e in
              rw (click_at, e, ← same)
                (click-ValidSelection n ids (find?-get_elem? neurons k {n = n} distinct listed) v)
        ]

    click_all-ValidSelection :
        (ks ids : List ℕ) → ValidSelection ids → ValidSelection (click_all ks ids)
    unfolding click_all
    click_all-ValidSelection [] ids v = v
    click_all-ValidSelection (k ∷ ks) ids v =
        click_all-ValidSelection ks (click_at k ids) (click_at-ValidSelection k ids v)

    confirmed-is_valid :
        (ids : List ℕ)
        → ValidSelection ids
        → (ns : List NeuronInfo)
        → confirm_selection (shown_neurons nm neurons accounts ids) ids ≡ some ns
        → ((can_be_merged nm ns).is_valid ≡ true)
          × All (λ n. is_mergeable_neuron n accounts ≡ true) ns
    unfolding confirm_selection is_max_selection
    confirmed-is_valid [] v ns e = cc
    confirmed-is_valid (i ∷ []) v ns e = cc
    confirmed-is_valid (i ∷ j ∷ []) (s, (t, valid)) ns e =
        let same : s.neuron ∷ t.neuron ∷ [] ≡ ns = rw (← map-two i j s t) (
          ap (map_neuron_ids (i ∷ j ∷ [])) (sym (shown_neurons-neuron (i ∷ j ∷ [])))
          ∙ some-injective _ _ e) in
        rw (← same) (valid, (s.alone, (t.alone, tt)))
    confirmed-is_valid (i ∷ j ∷ k ∷ is) v ns e = elim v [ ]

    -- Whatever cards the user clicks, starting from no selection, the neurons that are sent to be
    -- merged are two neurons that can be merged with each other, each of which is mergeable on
    -- itself. The ids of the listed neurons are distinct.
    pub confirmed_selection_is_valid :
        (clicks : List ℕ) (ns : List NeuronInfo)
        → confirm_selection
            (shown_neurons nm neurons accounts (click_all clicks []))
            (click_all clicks [])
          ≡ some ns
        → ((can_be_merged nm ns).is_valid ≡ true)
          × All (λ n. is_mergeable_neuron n accounts ≡ true) ns
    confirmed_selection_is_valid clicks =
        confirmed-is_valid (click_all clicks []) (click_all-ValidSelection clicks [] tt)
