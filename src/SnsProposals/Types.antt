-- ===== src/SnsProposals/Types.antt =====
-- frontend/src/lib/utils/sns-proposals.utils.ts: the types that are excluded from a request, by the
-- filter that `generateSnsProposalTypesFilterData` makes.
use nns_dapp.Common.{
  ℕ, ◌≡◌, ◌↔◌, ltb, refl, ap, ◌∙◌, Bool, true, false, not, ◌&&◌, ◌||◌, List, [], ◌∷◌, ◌++◌, String,
  string_has_eq, nat_has_eq, ◌==◌, map, filter, contains, contains-append, contains-filter, length,
  leb, decimal, decimal-ne-word, arith, if◌then◌else◌, inl, inr, Bool-cases, eq_of_eqb, eqb_refl,
}
use nns_dapp.SnsNeurons.Permissions.{some_of}
use nns_dapp.SnsProposals.{
  SnsNervousSystemFunction, Filter, all_sns_generic_proposal_types_id, is_native_id,
  is_sns_native_nervous_system_function, is_sns_generic_nervous_system_function, function_id,
  is_selected, to_exclude_type_parameter, get_checked_state, native_entry, generic_entry,
  generate_sns_proposal_types_filter_data,
}
use nns_dapp.SnsProposals.Unchecked.{TurnedOff, unchecked-get, get-unchecked}

map-filter :
    (p : ℕ → Bool) (fs : List SnsNervousSystemFunction)
    → map function_id (filter (λ f. p f.id) fs) ≡ filter p (map function_id fs)
map-filter p [] = refl
map-filter p (f ∷ fs) = ground (arith, map-filter p fs)

some_of-append :
    {A : Type 0} (p : A → Bool) (xs ys : List A)
    → some_of p (xs ++ ys) ≡ some_of p xs || some_of p ys
some_of-append p [] ys = refl
some_of-append p (x ∷ xs) ys = ground (arith, some_of-append p xs ys)

module _ (state : List Filter) where
  -- an entry of a native type is for its own text only
  native-selected :
      (t : String) (fs : List SnsNervousSystemFunction)
      → is_selected (map (native_entry state) fs) t ≡ (
          some_of (λ (f : SnsNervousSystemFunction). decimal f.id == t) fs
          && get_checked_state state t)
  native-selected t [] = refl
  native-selected t (f ∷ fs) = elim (Bool-cases (decimal f.id == t)) [
    | inl own ↦
        ground (
          arith,
          native-selected t fs,
          ap (get_checked_state state) (eq_of_eqb (decimal f.id) t own),
        )
    | inr other ↦ ground (arith, native-selected t fs)
  ]

  no_word :
      (fs : List SnsNervousSystemFunction)
      → some_of
          (λ (f : SnsNervousSystemFunction). decimal f.id == all_sns_generic_proposal_types_id)
          fs
        ≡ false
  no_word [] = refl
  no_word (f ∷ fs) = ground (
    arith,
    no_word fs,
    eq_of_eqb (decimal f.id) all_sns_generic_proposal_types_id,
    decimal-ne-word f.id "all_sns_generic_type",
  )

  some_own :
      (id : ℕ) (fs : List SnsNervousSystemFunction)
      → contains (map function_id fs) id ≡ true
      → some_of (λ (f : SnsNervousSystemFunction). decimal f.id == decimal id) fs ≡ true
  some_own id [] h = cc
  some_own id (f ∷ fs) h = elim (Bool-cases (f.id == id)) [
    | inl own ↦ ground (
      arith,
      ap decimal (eq_of_eqb f.id id own),
      eqb_refl (decimal id),
      ap (λ t. t == decimal id) (ap decimal (eq_of_eqb f.id id own)),
    )
    | inr other ↦ ground (arith, some_own id fs (ground arith))
  ]

  generic-some :
      (id : ℕ) (fs : List SnsNervousSystemFunction)
      → is_native_id id ≡ false
      → contains (map function_id fs) id ≡ true
      → some_of is_sns_generic_nervous_system_function fs ≡ true
  generic-some id [] n h = cc
  generic-some id (f ∷ fs) n h = ground (arith, generic-some id fs n)

  some_of-nonzero :
      (id : ℕ) (fs : List SnsNervousSystemFunction)
      → is_native_id id ≡ true
      → (id == 0) ≡ false
      → contains (map function_id fs) id ≡ true
      → contains
          (map function_id (
            filter
              (λ (f : SnsNervousSystemFunction). not (f.id == 0))
              (filter is_sns_native_nervous_system_function fs)))
          id
        ≡ true
  some_of-nonzero id fs native nonzero here =
      ap (λ l. contains l id)
        (map-filter (λ i. not (i == 0)) (filter is_sns_native_nervous_system_function fs)
          ∙ ap (filter (λ i. not (i == 0))) (map-filter is_native_id fs))
      ∙ contains-filter (λ i. not (i == 0)) (filter is_native_id (map function_id fs)) id
      ∙ ground (arith, contains-filter is_native_id (map function_id fs) id, native, nonzero, here)

  -- the text of the entry that a type belongs to
  abbrev pub entry_id : ℕ → String
  entry_id id = if ltb id 1_000 then decimal id else "all_sns_generic_types"

  module _ (fs : List SnsNervousSystemFunction) (label : String) where
    abbrev natives : List SnsNervousSystemFunction
    natives = filter (λ f. not (f.id == 0)) (filter is_sns_native_nervous_system_function fs)

    selected-native :
        (id : ℕ)
        → is_native_id id ≡ true
        → (id == 0) ≡ false
        → contains (map function_id fs) id ≡ true
        → is_selected (generate_sns_proposal_types_filter_data fs state label) (decimal id)
          ≡ get_checked_state state (decimal id)
    unfolding generate_sns_proposal_types_filter_data
    selected-native id native nonzero here =
        some_of-append _ (map (native_entry state) natives) _
        ∙ ground (
          arith,
          native-selected (decimal id) natives,
          some_own id natives (some_of-nonzero id fs native nonzero here),
          eq_of_eqb all_sns_generic_proposal_types_id (decimal id),
          decimal-ne-word id "all_sns_generic_type",
        )

    selected-generic :
        some_of is_sns_generic_nervous_system_function fs ≡ true
        → is_selected
            (generate_sns_proposal_types_filter_data fs state label)
            all_sns_generic_proposal_types_id
          ≡ get_checked_state state all_sns_generic_proposal_types_id
    unfolding generate_sns_proposal_types_filter_data
    selected-generic some_generic =
        some_of-append _ (map (native_entry state) natives) _
        ∙ ground (
          arith,
          native-selected all_sns_generic_proposal_types_id natives,
          no_word natives,
          some_generic,
          eqb_refl all_sns_generic_proposal_types_id,
        )

    not_empty :
        (id : ℕ) (xs : List SnsNervousSystemFunction) (ys : List Filter)
        → contains (map function_id xs) id ≡ true
        → (length (map (native_entry state) xs ++ ys) == 0) ≡ false
    not_empty id [] ys h = cc
    not_empty id (x ∷ xs) ys h = ground arith

    not_empty_last : (xs : List Filter) (y : Filter) → (length (xs ++ y ∷ []) == 0) ≡ false
    not_empty_last [] y = ground arith
    not_empty_last (x ∷ xs) y = ground arith

    some_entry :
        (id : ℕ)
        → (id == 0) ≡ false
        → contains (map function_id fs) id ≡ true
        → (length (generate_sns_proposal_types_filter_data fs state label) == 0) ≡ false
    unfolding generate_sns_proposal_types_filter_data
    some_entry id nonzero here = elim (Bool-cases (is_native_id id)) [
      | inl native ↦ not_empty id natives _ (some_of-nonzero id fs native nonzero here)
      | inr generic ↦ ground (
        arith,
        generic-some id fs generic here,
        not_empty_last (map (native_entry state) natives) (generic_entry state label),
      )
    ]

    excluded-not_checked :
        (id : ℕ)
        → (id == 0) ≡ false
        → contains (map function_id fs) id ≡ true
        → contains
            (to_exclude_type_parameter (generate_sns_proposal_types_filter_data fs state label) fs)
            id
          ≡ not (get_checked_state state (entry_id id))
    unfolding to_exclude_type_parameter
    excluded-not_checked id nonzero here =
        let entries = generate_sns_proposal_types_filter_data fs state label in
        let native_ids = map function_id (filter is_sns_native_nervous_system_function fs) in
        let generic_ids = map function_id (filter is_sns_generic_nervous_system_function fs) in
        let excluded = filter (λ i. not (is_selected entries (decimal i))) native_ids in
        let generics =
          if is_selected entries all_sns_generic_proposal_types_id then [] else generic_ids in
        ground (
          arith,
          some_entry id nonzero here,
          contains-filter (λ i. not (i == 0)) (excluded ++ generics) id,
          contains-append excluded generics id,
          contains-filter (λ i. not (is_selected entries (decimal i))) native_ids id,
          contains-filter is_native_id (map function_id fs) id,
          ap (λ l. contains l id) (map-filter is_native_id fs),
          contains-filter (leb 1_000) (map function_id fs) id,
          ap (λ l. contains l id) (map-filter (leb 1_000) fs),
          nonzero,
          here,
          selected-native id,
          selected-generic,
          generic-some id fs,
        )

    -- With the filter that is generated for the functions of a project, one of these functions
    -- whose id is not 0 is excluded if and only if the first entry for it in the state before was
    -- there and not checked: that with the text of its id below 1000, and that of the generic types
    -- from 1000 on. What had no entry before is not excluded.
    pub excluded-iff_unchecked :
        (id : ℕ)
        → (id == 0) ≡ false
        → contains (map function_id fs) id ≡ true
        → (contains
              (to_exclude_type_parameter
                (generate_sns_proposal_types_filter_data fs state label)
                fs)
              id
            ≡ true)
          ↔ TurnedOff state (entry_id id)
    excluded-iff_unchecked id nonzero here =
        let excluded = excluded-not_checked id nonzero here in
        (
          λ h. unchecked-get state (entry_id id) (ground (arith, excluded, h)),
          λ (before, e, after, eq, others, own, off).
              let off_before : get_checked_state state (entry_id id) ≡ false =
                ap (λ s. get_checked_state s (entry_id id)) eq
                ∙ get-unchecked before e after (entry_id id) others own off in
              ground (arith, excluded, off_before),
        )
