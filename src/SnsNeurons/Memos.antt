-- ===== src/SnsNeurons/Memos.antt =====
-- frontend/src/lib/utils/sns-neuron.utils.ts, `nextMemo`: the first number whose subaccount belongs
-- to none of the neurons. `subaccount` is `neuronSubaccount` of @dfinity/sns for the controller.
use nns_dapp.Common.{
  ℕ, zero, suc, ◌+◌, ◌⊎◌, ◌^◌, ◌≤◌, ◌<◌, ◌≡◌, refl, ap, ◌∙◌, Bool, true, false, Option, none, some,
  List, [], ◌∷◌, String, string_has_eq, nat_beq, nat_beq_iff, map, contains, length, is_some,
  Outcome, returns, throws, if◌then◌else◌, arith, inl, inr, Bool-cases, eq_of_eqb, All, Distinct,
}
use nns_dapp.Hex.{bytes_to_hex_string-injective}
use nns_dapp.SnsNeurons.{
  SnsNeuron, subaccount_to_hex_string, get_sns_neuron_id_as_hex_string, get_sns_neuron_by_hex_id,
}
use nns_dapp.SnsNeurons.Permissions.{every}
use nns_dapp.SnsNeurons.Permissions.Hotkeys.{length-Distinct}

abbrev pub max_neurons_subaccounts : ℕ
max_neurons_subaccounts = 2 ^ 16

pub data MemoError : Type 0 where
  next_memo_not_found : MemoError

module _ (subaccount : ℕ → List ℕ) (neurons : List SnsNeuron) where
  abbrev pub is_free : ℕ → Bool
  is_free index =
      not_some (get_sns_neuron_by_hex_id (subaccount_to_hex_string (subaccount index)) neurons)
    where
      not_some : Option SnsNeuron → Bool
      not_some none = true
      not_some (some n) = false

  -- the loop from an index on, with the rounds that are left
  pub memo_from : ℕ → ℕ → Outcome MemoError ℕ
  unfolding get_sns_neuron_by_hex_id
  memo_from zero index = throws next_memo_not_found
  memo_from (suc rounds) index =
      let rest = memo_from rounds (suc index) in if is_free index then returns index else rest

  pub next_memo : Outcome MemoError ℕ
  unfolding memo_from
  next_memo = memo_from max_neurons_subaccounts 0

  length-map : (f : SnsNeuron → String) (ns : List SnsNeuron) → length (map f ns) ≡ length ns
  length-map f [] = refl
  length-map f (n ∷ ns) = ap suc (length-map f ns)

  -- the texts of the subaccounts from an index on
  texts : ℕ → ℕ → List String
  texts zero index = []
  texts (suc rounds) index = subaccount_to_hex_string (subaccount index) ∷ texts rounds (suc index)

  length-texts : (rounds index : ℕ) → length (texts rounds index) ≡ rounds
  unfolding texts
  length-texts zero index = refl
  length-texts (suc rounds) index = ap suc (length-texts rounds (suc index))

  abbrev neuron_text : SnsNeuron → String
  neuron_text n = get_sns_neuron_id_as_hex_string n

  contains-neurons :
      (k : String) (ns : List SnsNeuron)
      → contains (map neuron_text ns) k ≡ is_some (get_sns_neuron_by_hex_id k ns)
  unfolding get_sns_neuron_by_hex_id
  contains-neurons k [] = refl
  contains-neurons k (n ∷ ns) = ground (arith, contains-neurons k ns)

  -- the loop finds the first free index, or none is free
  memo_from-cases :
      (rounds index : ℕ)
      → ((i : ℕ) × (memo_from rounds index ≡ returns i)
          × (is_free i ≡ true)
          × (i < index + rounds)
          × ((j : ℕ) → index ≤ j → j < i → is_free j ≡ false))
        ⊎ (every (λ k. contains (map neuron_text neurons) k) (texts rounds index) ≡ true)
  unfolding memo_from texts
  memo_from-cases zero index = inr refl
  memo_from-cases (suc rounds) index = elim (Bool-cases (is_free index)) [
    | inl free ↦ inl (index, rw free refl, free, omega arith, λ j low high. absurd (omega arith))
    | inr used ↦ elim (memo_from-cases rounds (suc index)) [
      | inl (i, found, free, bound, first) ↦ inl (
        i,
        rw used found,
        free,
        omega arith,
        λ j low high. elim (Bool-cases (nat_beq j index)) [
          | inl same ↦ ap is_free ((nat_beq_iff j index).0 same) ∙ used
          | inr other ↦ first j (ground arith) high
        ],
      )
      | inr all_used ↦ inr (
          ground (
            arith,
            contains-neurons (subaccount_to_hex_string (subaccount index)) neurons,
            used,
            all_used,
          ))
    ]
  ]

  -- the subaccounts that the loop asks for are bytes, and different for different numbers: a hash
  -- has no collision among these
  pub record Distinguishes : Type 0 where
    pub bytes : (i : ℕ) → i < max_neurons_subaccounts → All (λ byte. byte < 256) (subaccount i)
    pub apart :
        (i j : ℕ)
        → i < max_neurons_subaccounts
        → j < max_neurons_subaccounts
        → subaccount i ≡ subaccount j
        → i ≡ j

  texts_apart :
      Distinguishes
      → (i j : ℕ) → i < max_neurons_subaccounts
      → j < max_neurons_subaccounts
      → subaccount_to_hex_string (subaccount i) ≡ subaccount_to_hex_string (subaccount j)
      → i ≡ j
  unfolding subaccount_to_hex_string
  texts_apart d i j hi hj e =
      d.apart i j hi hj (
        bytes_to_hex_string-injective (subaccount i) (subaccount j) (d.bytes i hi) (d.bytes j hj) e)

  not-contains-texts :
      Distinguishes
      → (i rounds index : ℕ) → i < index
      → index + rounds ≤ max_neurons_subaccounts
      → contains (texts rounds index) (subaccount_to_hex_string (subaccount i)) ≡ false
  unfolding texts
  not-contains-texts d i zero index h bound = refl
  not-contains-texts d i (suc rounds) index h bound = ground (
    arith,
    not-contains-texts d i rounds (suc index) (omega arith) (omega arith),
    eq_of_eqb (subaccount_to_hex_string (subaccount index))
        (subaccount_to_hex_string (subaccount i)),
    texts_apart d index i (omega arith) (omega arith),
  )

  texts-Distinct :
      Distinguishes
      → (rounds index : ℕ) → index + rounds ≤ max_neurons_subaccounts
      → Distinct (texts rounds index)
  unfolding texts
  texts-Distinct d zero index bound = tt
  texts-Distinct d (suc rounds) index bound = (
    not-contains-texts d index rounds (suc index) (omega arith) (omega arith),
    texts-Distinct d rounds (suc index) (omega arith),
  )

  -- A user with fewer than 65536 neurons gets the first number whose subaccount is free, if the
  -- subaccounts of the numbers below 65536 are bytes and no two of them are the same.
  pub next_memo-first_free :
      Distinguishes
      → length neurons < max_neurons_subaccounts
      → (i : ℕ) × (next_memo ≡ returns i)
        × (is_free i ≡ true)
        × (i < max_neurons_subaccounts)
        × ((j : ℕ) → j < i → is_free j ≡ false)
  unfolding next_memo
  next_memo-first_free d few = elim (memo_from-cases max_neurons_subaccounts 0) [
    | inl (i, found, free, bound, first) ↦
        (i, found, free, omega arith, λ j h. first j (omega arith) h)
    | inr all_used ↦
        let at_least =
          length-Distinct (texts max_neurons_subaccounts 0) (map neuron_text neurons)
            (texts-Distinct d max_neurons_subaccounts 0 (omega arith)) all_used in
        absurd (
          omega (
            arith,
            length-texts max_neurons_subaccounts 0,
            at_least,
            length-map neuron_text neurons,
          ))
  ]
