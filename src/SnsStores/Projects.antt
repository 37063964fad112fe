-- ===== src/SnsStores/Projects.antt =====
-- frontend/src/lib/stores/sns-proposals.store.ts and frontend/src/lib/stores/sns-neurons.store.ts:
-- what a project lists after `addProposals` and `addNeurons`.
use nns_dapp.Common.{
  ℕ, ◌≡◌, refl, ◌∙◌, ap, inl, inr, HasEq, eqb_comm, eq_of_eqb, nat_has_eq, option_has_eq,
  string_has_eq, Bool, true, false, not, ◌==◌, Option, none, List, [], ◌∷◌, String, map, filter,
  find?, find?-append, contains, contains-unique, unique, or_else, lookup, lookup-insert,
  if◌then◌else◌, Bool-cases, arith,
}
use nns_dapp.SnsStores.{
  ProjectProposalData, ProjectNeuronStore, put_first, proposals_of, neurons_of, add_proposals,
  add_neurons,
}

module _ {A I : Type 0} ⦃e : HasEq I⦄ (id : A → I) where
  abbrev pub find_id : I → List A → Option A
  find_id i items = find? (λ a. id a == i) items

  find_id-kept :
      (ids : List I) (i : I) (old : List A)
      → find_id i (filter (λ a. not (contains ids (id a))) old)
        ≡ (if contains ids i then none else find_id i old)
  find_id-kept ids i [] = ground arith
  find_id-kept ids i (a ∷ old) = elim (Bool-cases (id a == i)) [
    | inl same ↦
        let equal : contains ids (id a) ≡ contains ids i =
          ap (contains ids) (eq_of_eqb (id a) i same) in
        ground (arith, find_id-kept ids i old)
    | inr other ↦ ground (arith, find_id-kept ids i old)
  ]

  find_id-listed :
      (i : I) (items : List A) → contains (map id items) i ≡ false → find_id i items ≡ none
  find_id-listed i [] h = refl
  find_id-listed i (a ∷ items) h = ground (arith, find_id-listed i items, eqb_comm i (id a))

  find_id-unlisted :
      (i : I) (items : List A)
      → contains (map id items) i ≡ true
      → (o : Option A) → or_else (find_id i items) none ≡ or_else (find_id i items) o
  find_id-unlisted i [] h o = cc
  find_id-unlisted i (a ∷ items) h o = ground (
    arith,
    λ (k : contains (map id items) i ≡ true). find_id-unlisted i items k o,
    eqb_comm i (id a),
  )

  find_id-put_first :
      (i : I) (items old : List A)
      → find_id i (put_first id items old) ≡ or_else (find_id i items) (find_id i old)
  unfolding put_first
  find_id-put_first i items old =
      let ids = unique (map id items) in
      find?-append (λ a. id a == i) items (filter (λ a. not (contains ids (id a))) old)
      ∙ rw (find_id-kept ids i old, contains-unique (map id items) i)
          elim (Bool-cases (contains (map id items) i)) [
            | inl there ↦ rw there (find_id-unlisted i items there (find_id i old))
            | inr apart ↦ rw apart
          ]

-- `addProposals` overrides the map from ids to proposals of one project by the given proposals,
-- and leaves the other projects as they are.
pub find_id-add_proposals :
    {P : Type 0} (id : P → Option ℕ) (root other : String) (proposals : List P)
    (certified : Option Bool) (completed : Bool) (s : List (String × ProjectProposalData P))
    (i : Option ℕ)
    → find_id id i
        (proposals_of (lookup other (add_proposals id root proposals certified completed s)))
      ≡ (if root == other
          then or_else (find_id id i proposals) (find_id id i (proposals_of (lookup other s)))
          else find_id id i (proposals_of (lookup other s)))
unfolding add_proposals
find_id-add_proposals id root other proposals certified completed s i =
    rw (lookup-insert root other _ s) elim (Bool-cases (root == other)) [
      | inl same ↦
          let equal : root ≡ other = eq_of_eqb root other same in
          rw (same, ← equal) (find_id-put_first id i proposals (proposals_of (lookup root s)))
      | inr apart ↦ rw apart
    ]

-- `addNeurons` overrides the map from ids to neurons of one project by the given neurons, and
-- leaves the other projects as they are.
pub find_id-add_neurons :
    {N : Type 0} (id : N → String) (root other : String) (neurons : List N)
    (certified : Option Bool) (s : List (String × ProjectNeuronStore N)) (i : String)
    → find_id id i (neurons_of (lookup other (add_neurons id root neurons certified s))) ≡ (
        if root == other
        then or_else (find_id id i neurons) (find_id id i (neurons_of (lookup other s)))
        else find_id id i (neurons_of (lookup other s)))
unfolding add_neurons
find_id-add_neurons id root other neurons certified s i =
    rw (lookup-insert root other _ s) elim (Bool-cases (root == other)) [
      | inl same ↦
          let equal : root ≡ other = eq_of_eqb root other same in
          rw (same, ← equal) (find_id-put_first id i neurons (neurons_of (lookup root s)))
      | inr apart ↦ rw apart
    ]
