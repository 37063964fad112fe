-- ===== src/SnsNeurons/Permissions.antt =====
-- frontend/src/lib/utils/sns-neuron.utils.ts, who may do what with a neuron. `principal` is the
-- text of the principal of an identity, `none` where there is no identity.
pub mod Hotkeys
use nns_dapp.Common.{
  ℕ, zero, suc, ◌≡◌, ◌↔◌, refl, ap, sym, ◌∙◌, Bool, true, false, Option, none, some, List, [], ◌∷◌,
  ◌++◌, String, string_has_eq, option_has_eq, nat_has_eq, HasEq, nat_beq, nat_beq_iff, ◌==◌, not,
  ◌&&◌, ◌||◌, map, filter, find?, contains, length, get_or_else, is_some, arith,
}
use nns_dapp.SnsNeurons.{
  NeuronPermissionType, permission_unspecified, permission_configure_dissolve_state,
  permission_manage_principals, permission_submit_proposal, permission_vote, permission_disburse,
  permission_split, permission_merge_maturity, permission_disburse_maturity,
  permission_stake_maturity, permission_manage_voting_permission, NeuronPermission, SnsNeuron,
}

-- the values of the enum
abbrev pub code : NeuronPermissionType → ℕ
code permission_unspecified = 0
code permission_configure_dissolve_state = 1
code permission_manage_principals = 2
code permission_submit_proposal = 3
code permission_vote = 4
code permission_disburse = 5
code permission_split = 6
code permission_merge_maturity = 7
code permission_disburse_maturity = 8
code permission_stake_maturity = 9
code permission_manage_voting_permission = 10

decode : ℕ → NeuronPermissionType
decode zero = permission_unspecified
decode (suc zero) = permission_configure_dissolve_state
decode (suc (suc zero)) = permission_manage_principals
decode (suc (suc (suc zero))) = permission_submit_proposal
decode (suc (suc (suc (suc zero)))) = permission_vote
decode (suc (suc (suc (suc (suc zero))))) = permission_disburse
decode (suc (suc (suc (suc (suc (suc zero)))))) = permission_split
decode (suc (suc (suc (suc (suc (suc (suc zero))))))) = permission_merge_maturity
decode (suc (suc (suc (suc (suc (suc (suc (suc zero)))))))) = permission_disburse_maturity
decode (suc (suc (suc (suc (suc (suc (suc (suc (suc zero))))))))) = permission_stake_maturity
decode (suc (suc (suc (suc (suc (suc (suc (suc (suc (suc n)))))))))) =
    permission_manage_voting_permission

decode-code : (p : NeuronPermissionType) → decode (code p) ≡ p
unfolding decode
decode-code permission_unspecified = refl
decode-code permission_configure_dissolve_state = refl
decode-code permission_manage_principals = refl
decode-code permission_submit_proposal = refl
decode-code permission_vote = refl
decode-code permission_disburse = refl
decode-code permission_split = refl
decode-code permission_merge_maturity = refl
decode-code permission_disburse_maturity = refl
decode-code permission_stake_maturity = refl
decode-code permission_manage_voting_permission = refl

pub code_iff : (p q : NeuronPermissionType) → (nat_beq (code p) (code q) ≡ true) ↔ (p ≡ q)
code_iff p q = (
  λ h. sym (decode-code p) ∙ ap decode ((nat_beq_iff (code p) (code q)).0 h) ∙ decode-code q,
  λ e. (nat_beq_iff (code p) (code q)).1 (ap code e),
)

instance abbrev pub permission_has_eq : HasEq NeuronPermissionType
permission_has_eq = record { eqb = λ p q. nat_beq (code p) (code q); eqb_iff = code_iff }

abbrev pub hotkey_permissions : List NeuronPermissionType
hotkey_permissions = permission_vote ∷ permission_submit_proposal ∷ []

abbrev pub manage_hotkey_permissions : List NeuronPermissionType
manage_hotkey_permissions = permission_manage_voting_permission ∷ permission_manage_principals ∷ []

-- `xs.every(p)` and `xs.some(p)`
abbrev pub every {ℓ} : {A : Type ℓ} → (A → Bool) → List A → Bool
every p [] = true
every p (x ∷ xs) = p x && every p xs

abbrev pub some_of {ℓ} : {A : Type ℓ} → (A → Bool) → List A → Bool
some_of p [] = false
some_of p (x ∷ xs) = p x || some_of p xs

-- `Boolean(permission)`
abbrev truthy : Option NeuronPermissionType → Bool
truthy none = false
truthy (some p) = not (p == permission_unspecified)

-- the permissions of the first entry for a principal
abbrev pub permissions_of : String → List NeuronPermission → List NeuronPermissionType
permissions_of principal entries = elim (find? (λ e. e.principal == some principal) entries) [
  | none ↦ []
  | some e ↦ e.permission_type
]

unfoldable pub has_permissions : SnsNeuron → Option String → List NeuronPermissionType → Bool → Bool
has_permissions neuron none permissions any_permission = false
has_permissions neuron (some principal) permissions any_permission = elim neuron.id [
  | none ↦ false
  | some neuron_id ↦
      let principal_permissions = permissions_of principal neuron.permissions in
      elim any_permission [
        | true ↦ truthy (find? (λ p. contains principal_permissions p) permissions)
        | false ↦ not (some_of (λ p. not (contains principal_permissions p)) permissions)
      ]
]

unfoldable pub has_permission_to_disburse : SnsNeuron → Option String → Bool
unfolding has_permissions
has_permission_to_disburse neuron principal =
    has_permissions neuron principal (permission_disburse ∷ []) false

unfoldable pub has_permission_to_dissolve : SnsNeuron → Option String → Bool
unfolding has_permissions
has_permission_to_dissolve neuron principal =
    has_permissions neuron principal (permission_configure_dissolve_state ∷ []) false

unfoldable pub has_permission_to_vote : SnsNeuron → Option String → Bool
unfolding has_permissions
has_permission_to_vote neuron principal =
    has_permissions neuron principal (permission_vote ∷ []) false

unfoldable pub has_permission_to_stake_maturity : SnsNeuron → Option String → Bool
unfolding has_permissions
has_permission_to_stake_maturity neuron principal =
    has_permissions neuron principal (permission_stake_maturity ∷ []) false

unfoldable pub has_permission_to_disburse_maturity : SnsNeuron → Option String → Bool
unfolding has_permissions
has_permission_to_disburse_maturity neuron principal =
    has_permissions neuron principal (permission_disburse_maturity ∷ []) false

unfoldable pub has_permission_to_split : SnsNeuron → Option String → Bool
unfolding has_permissions
has_permission_to_split neuron principal =
    has_permissions neuron principal (permission_split ∷ []) false

-- `grantable` are the permissions that the parameters of the project allow to grant
unfoldable pub can_identity_manage_hotkeys :
    SnsNeuron → Option String → List NeuronPermissionType → Bool
unfolding has_permissions
can_identity_manage_hotkeys neuron principal grantable =
    has_permissions neuron principal manage_hotkey_permissions true
    && every (λ p. contains grantable p) hotkey_permissions

unfoldable pub compare_permissions : List NeuronPermissionType → List NeuronPermissionType → Bool
compare_permissions a b = (length a == length b) && every (λ p. contains b p) a

abbrev pub hotkey_combinations : List (List NeuronPermissionType)
hotkey_combinations =
    hotkey_permissions ∷ (hotkey_permissions ++ permission_manage_voting_permission ∷ []) ∷ []

unfoldable pub is_hotkey_entry : NeuronPermission → Bool
unfolding compare_permissions
is_hotkey_entry entry = is_some (
    find? (λ combination. compare_permissions entry.permission_type combination)
      hotkey_combinations)

abbrev principals : List NeuronPermission → List String
principals [] = []
principals (e ∷ es) = elim e.principal [ none ↦ principals es | some p ↦ p ∷ principals es ]

unfoldable pub get_sns_neuron_hotkeys : SnsNeuron → List String
unfolding is_hotkey_entry
get_sns_neuron_hotkeys neuron = principals (filter is_hotkey_entry neuron.permissions)

unfoldable pub is_user_hotkey : SnsNeuron → Option String → Bool
unfolding get_sns_neuron_hotkeys
is_user_hotkey neuron none = false
is_user_hotkey neuron (some principal) = contains (get_sns_neuron_hotkeys neuron) principal
