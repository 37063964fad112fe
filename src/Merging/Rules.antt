-- ===== src/Merging/Rules.antt =====
-- frontend/src/lib/utils/neuron.utils.ts: when a neuron can be merged at all, and when two can.
use nns_dapp.Common.{
  ℕ, ◌≡◌, refl, sym, ◌∙◌, inl, inr, HasEq, nat_has_eq, string_has_eq, option_has_eq, eqb_comm, Bool,
  true, false, Option, none, some, [], ◌∷◌, map, String, not, ◌==◌, ◌&&◌, unique_from, is_some,
  decimal, join, arith, Option-cases,
}
use nns_dapp.Sorting.{sort}
use nns_dapp.NnsNeurons.{NeuronInfo, Neuron, IcpAccounts}
use nns_dapp.Merging.{
  is_mergeable_neuron, get_mergeable_neuron_message_key, has_one_value, controller_key,
  same_controller, same_id, same_neuron_type, all_have_same_followees, same_manage_neuron_followees,
  management_followees, compare_texts, can_be_merged,
}

-- A neuron is mergeable on itself if and only if there is no message that says why it is not.
pub is_mergeable-eq-no-message :
    (neuron : NeuronInfo) (accounts : IcpAccounts)
    → is_mergeable_neuron neuron accounts
      ≡ not (is_some (get_mergeable_neuron_message_key neuron accounts))
unfolding is_mergeable_neuron get_mergeable_neuron_message_key
is_mergeable-eq-no-message neuron accounts = ground arith

has_one_value-pair : {A : Type 0} ⦃e : HasEq A⦄ (x y : A) → has_one_value (x ∷ y ∷ []) ≡ (x == y)
unfolding unique_from
has_one_value-pair x y = ground (arith, eqb_comm x y)

has_one_value_comm :
    {A : Type 0} ⦃e : HasEq A⦄ (x y : A) → has_one_value (x ∷ y ∷ []) ≡ has_one_value (y ∷ x ∷ [])
has_one_value_comm x y = has_one_value-pair x y ∙ eqb_comm x y ∙ sym (has_one_value-pair y x)

module _ (nm : ℕ) where
  -- the text that is compared for a neuron's followees on the management of neurons
  abbrev followees_text : Neuron → String
  followees_text n = join (map decimal (sort compare_texts (management_followees nm n)))

  -- what is known of the followees of two neurons
  abbrev pub agree : Option Neuron → Option Neuron → Bool
  agree none none = false
  agree none (some m) = true
  agree (some n) none = true
  agree (some n) (some m) = followees_text n == followees_text m

  same_followees-pair :
      (a b : NeuronInfo)
      → same_manage_neuron_followees nm (a ∷ b ∷ []) ≡ agree a.full_neuron b.full_neuron
  unfolding same_manage_neuron_followees all_have_same_followees unique_from
  same_followees-pair a b = elim (Option-cases a.full_neuron) [
    | inl ea ↦ elim (Option-cases b.full_neuron) [
      | inl eb ↦ rw (ea, eb)
      | inr (m, eb) ↦ rw (ea, eb)
    ]
    | inr (n, ea) ↦ elim (Option-cases b.full_neuron) [
      | inl eb ↦ rw (ea, eb)
      | inr (m, eb) ↦ rw (ea, eb) (has_one_value-pair (followees_text n) (followees_text m))
    ]
  ]

  -- Two neurons can be merged if and only if they have different ids, the same type, the same
  -- controller, where a neuron of which only the public part is known counts as controlled by
  -- itself, and the same followees on the management of neurons, as far as they are known.
  pub can_be_merged-pair :
      (a b : NeuronInfo)
      → (can_be_merged nm (a ∷ b ∷ [])).is_valid ≡ (
          not (a.neuron_id == b.neuron_id)
          && (a.neuron_type == b.neuron_type)
          && (controller_key a == controller_key b)
          && agree a.full_neuron b.full_neuron)
  unfolding can_be_merged same_id same_neuron_type same_controller
  can_be_merged-pair a b = ground (
    arith,
    has_one_value-pair a.neuron_id b.neuron_id,
    has_one_value-pair a.neuron_type b.neuron_type,
    has_one_value-pair (controller_key a) (controller_key b),
    same_followees-pair a b,
  )

  agree_comm : (n m : Option Neuron) → agree n m ≡ agree m n
  agree_comm none none = refl
  agree_comm none (some m) = refl
  agree_comm (some n) none = refl
  agree_comm (some n) (some m) = eqb_comm (followees_text n) (followees_text m)

  -- Whether two neurons can be merged, and the message if not, does not depend on their order.
  pub can_be_merged_comm :
      (a b : NeuronInfo) → can_be_merged nm (a ∷ b ∷ []) ≡ can_be_merged nm (b ∷ a ∷ [])
  unfolding can_be_merged same_id same_neuron_type same_controller
  can_be_merged_comm a b = rw (
    has_one_value_comm a.neuron_id b.neuron_id,
    has_one_value_comm a.neuron_type b.neuron_type,
    has_one_value_comm (controller_key a) (controller_key b),
    same_followees-pair a b,
    same_followees-pair b a,
    agree_comm a.full_neuron b.full_neuron,
  )
