-- ===== src/SnsNeurons/Permissions/Hotkeys.antt =====
-- frontend/src/lib/utils/sns-neuron.utils.ts, `getSnsNeuronHotkeys` and `comparePermissions`: what
-- a hotkey may do.
use nns_dapp.Common.{
  ℕ, suc, ◌≤◌, ◌≡◌, ◌⊎◌, refl, ap, Bool, true, false, Option, some, List, [], ◌∷◌, ◌++◌, String,
  string_has_eq, option_has_eq, nat_has_eq, HasEq, ◌==◌, map, filter, find?, contains, length,
  arith, inl, inr, Bool-cases, eq_of_eqb, eqb_comm, Distinct, All, All-find?, if◌then◌else◌,
}
use nns_dapp.SnsNeurons.{
  NeuronPermissionType, permission_vote, permission_disburse, permission_split,
  permission_disburse_maturity, permission_stake_maturity, permission_configure_dissolve_state,
  permission_manage_voting_permission, NeuronPermission, SnsNeuron,
}
use nns_dapp.SnsNeurons.Permissions.{
  permission_has_eq, hotkey_permissions, every, has_permissions, has_permission_to_disburse,
  has_permission_to_dissolve, has_permission_to_vote, has_permission_to_stake_maturity,
  has_permission_to_disburse_maturity, has_permission_to_split, compare_permissions,
  is_hotkey_entry, principals, get_sns_neuron_hotkeys, is_user_hotkey,
}

module _ {A : Type 0} ⦃e : HasEq A⦄ where
  remove_one : A → List A → List A
  remove_one x [] = []
  remove_one x (y ∷ ys) = if e.eqb y x then ys else y ∷ remove_one x ys

  length-remove_one :
      (x : A) (ys : List A) → contains ys x ≡ true → suc (length (remove_one x ys)) ≡ length ys
  unfolding remove_one
  length-remove_one x [] h = cc
  length-remove_one x (y ∷ ys) h = ground (arith, length-remove_one x ys)

  contains-remove_one :
      (x a : A) (ys : List A) → e.eqb x a ≡ false → contains (remove_one x ys) a ≡ contains ys a
  unfolding remove_one
  contains-remove_one x a [] n = refl
  contains-remove_one x a (y ∷ ys) n = elim (Bool-cases (e.eqb y x)) [
    | inl same ↦ ground (arith, ap (λ z. e.eqb z a) (eq_of_eqb y x same))
    | inr other ↦ ground (arith, contains-remove_one x a ys n)
  ]

  every-remove_one :
      (x : A) (xs ys : List A)
      → contains xs x ≡ false
      → every (λ a. contains ys a) xs ≡ true
      → every (λ a. contains (remove_one x ys) a) xs ≡ true
  every-remove_one x [] ys n h = refl
  every-remove_one x (z ∷ xs) ys n h =
      ground
        (arith, every-remove_one x xs ys (ground arith), contains-remove_one x z ys, eqb_comm x z)

  -- Different values that all stand in a list of their number are all of it.
  pub same_members :
      (xs ys : List A) (a : A)
      → Distinct xs
      → length xs ≡ length ys
      → every (λ b. contains ys b) xs ≡ true
      → contains xs a ≡ contains ys a
  same_members [] [] a d l h = refl
  same_members [] (y ∷ ys) a d l h = absurd (omega arith)
  same_members (x ∷ xs) ys a (n, d) l h =
      let here : contains ys x ≡ true = ground arith in
      let rest =
        same_members xs (remove_one x ys) a d (omega (arith, length-remove_one x ys here, l))
          (every-remove_one x xs ys n (ground arith)) in
      elim (Bool-cases (e.eqb x a)) [
        | inl same ↦ ground (arith, ap (contains ys) (eq_of_eqb x a same))
        | inr other ↦ ground (arith, rest, contains-remove_one x a ys other)
      ]

  -- Different values that all stand in a list are no more than its items.
  pub length-Distinct :
      (xs ys : List A) → Distinct xs → every (λ b. contains ys b) xs ≡ true → length xs ≤ length ys
  length-Distinct [] ys d h = omega arith
  length-Distinct (x ∷ xs) ys (n, d) h =
      let here : contains ys x ≡ true = ground arith in
      omega (
        arith,
        length-remove_one x ys here,
        length-Distinct xs (remove_one x ys) d (every-remove_one x xs ys n (ground arith)),
      )

abbrev entry_principal : NeuronPermission → Option String
entry_principal entry = entry.principal

contains-principals :
    (es : List NeuronPermission) (u : String)
    → contains (principals (filter is_hotkey_entry es)) u ≡ true
    → contains (map entry_principal es) (some u) ≡ true
contains-principals [] u h = cc
contains-principals (x ∷ es) u h = ground (arith, contains-principals es u)

-- where no two entries are for one principal, the entry of a hotkey is the one that is found
hotkey-entry :
    (es : List NeuronPermission) (u : String)
    → Distinct (map entry_principal es)
    → contains (principals (filter is_hotkey_entry es)) u ≡ true
    → (x : NeuronPermission) × (find? (λ y. y.principal == some u) es ≡ some x)
      × (is_hotkey_entry x ≡ true)
hotkey-entry [] u d h = cc
hotkey-entry (x ∷ es) u (n, d) h = elim (Bool-cases (x.principal == some u)) [
  | inl own ↦
      let same = eq_of_eqb x.principal (some u) own in
      (
        x,
        ground arith,
        ground (arith, contains-principals es u, ap (contains (map entry_principal es)) same, n),
      )
  | inr other ↦ let (y, found, hot) = hotkey-entry es u d (ground arith) in (y, ground arith, hot)
]

-- exactly what a hotkey's entry allows
hotkey-permissions :
    (x : NeuronPermission) (p : NeuronPermissionType)
    → Distinct x.permission_type
    → is_hotkey_entry x ≡ true
    → (contains x.permission_type p ≡ contains hotkey_permissions p)
      ⊎ (contains x.permission_type p
          ≡ contains (hotkey_permissions ++ permission_manage_voting_permission ∷ []) p)
unfolding is_hotkey_entry compare_permissions
hotkey-permissions x p d h =
    elim (Bool-cases (compare_permissions x.permission_type hotkey_permissions)) [
      | inl two ↦
          inl (same_members x.permission_type hotkey_permissions p d (ground arith) (ground arith))
      | inr more ↦ inr (
          same_members x.permission_type
            (hotkey_permissions ++ permission_manage_voting_permission ∷ []) p d (ground arith)
            (ground arith))
    ]

abbrev InEither : NeuronPermissionType → Bool → Type 0
InEither p b =
    (b ≡ contains hotkey_permissions p)
    ⊎ (b ≡ contains (hotkey_permissions ++ permission_manage_voting_permission ∷ []) p)

-- A hotkey of a neuron that has an id may vote, and may neither disburse stake or maturity, nor
-- dissolve, split or stake maturity. No two entries of the neuron are for one principal, and none
-- lists a permission twice.
pub hotkey_powers :
    (neuron : SnsNeuron) (u : String) {i : List ℕ}
    → neuron.id ≡ some i
    → Distinct (map entry_principal neuron.permissions)
    → All (λ (x : NeuronPermission). Distinct x.permission_type) neuron.permissions
    → is_user_hotkey neuron (some u) ≡ true
    → (has_permission_to_vote neuron (some u) ≡ true)
      × (has_permission_to_disburse neuron (some u) ≡ false)
      × (has_permission_to_dissolve neuron (some u) ≡ false)
      × (has_permission_to_split neuron (some u) ≡ false)
      × (has_permission_to_stake_maturity neuron (some u) ≡ false)
      × (has_permission_to_disburse_maturity neuron (some u) ≡ false)
unfolding is_user_hotkey get_sns_neuron_hotkeys has_permission_to_vote has_permission_to_disburse
    has_permission_to_dissolve has_permission_to_split has_permission_to_stake_maturity
    has_permission_to_disburse_maturity has_permissions
hotkey_powers neuron u known d ds h =
    let (x, found, hot) = hotkey-entry neuron.permissions u d h in
    let distinct =
      All-find? (λ (y : NeuronPermission). Distinct y.permission_type) _ neuron.permissions ds
        found in
    let allows : (p : NeuronPermissionType) → InEither p (contains x.permission_type p) =
      λ p. hotkey-permissions x p distinct hot in
    ground (
      arith,
      known,
      found,
      allows permission_vote,
      allows permission_disburse,
      allows permission_configure_dissolve_state,
      allows permission_split,
      allows permission_stake_maturity,
      allows permission_disburse_maturity,
    )
