-- ===== src/NnsNeurons.antt =====
-- frontend/src/lib/utils/neuron.utils.ts: what the code reads of a neuron of the NNS, its stake,
-- who controls it, and the order of lists of neurons. `NeuronInfo` and `Neuron` have the fields
-- of @dfinity/nns that these functions read. A stake is a signed number: the fees are
-- subtracted from the cached stake without a test.
pub mod Following
pub mod Stakes
pub mod Amounts
pub mod Rewards
mod Tests
use nns_dapp.Common.{
  ℕ, ◌≡◌, nat_has_eq, Bool, true, false, Option, none, some, List, [], ◌∷◌, String, string_has_eq,
  option_has_eq, not, ◌==◌, ◌&&◌, ◌||◌, find?, is_some, get_or_else, if◌then◌else◌, ltb, leb, ◌+◌,
  ◌*◌, ℤ, pos, negsuc, difference, ltb_ℤ,
}
use nns_dapp.Sorting.{
  Comparable, nat_comparable, int_comparable, Comparator, merge_comparators,
  create_ascending_comparator, create_descending_comparator, sort,
}

-- the states of `stateInfoMapper`
pub data NeuronState : Type 0 where
  unspecified locked dissolving dissolved spawning : NeuronState

pub record Followees : Type 0 where
  pub topic : ℕ
  pub followees : List ℕ

pub record Neuron : Type 0 where
  pub controller : Option String
  pub hot_keys : List String
  pub cached_neuron_stake : ℕ
  pub neuron_fees : ℕ
  pub maturity_e8s_equivalent : ℕ
  pub staked_maturity_e8s_equivalent : Option ℕ
  pub followees : List Followees
  pub voting_power_refreshed_timestamp_seconds : Option ℕ

pub record NeuronInfo : Type 0 where
  pub neuron_id : ℕ
  pub neuron_type : Option ℕ
  pub state : NeuronState
  pub dissolve_delay_seconds : ℕ
  pub created_timestamp_seconds : ℕ
  pub joined_community_fund_timestamp_seconds : Option ℕ
  pub full_neuron : Option Neuron

pub data AccountType : Type 0 where
  main sub_account hardware_wallet : AccountType

pub record Account : Type 0 where
  pub account_type : AccountType
  pub principal : Option String

pub record IcpAccounts : Type 0 where
  pub main_account : Option Account
  pub hardware_wallets : Option (List Account)

unfoldable pub has_joined_community_fund : NeuronInfo → Bool
has_joined_community_fund neuron = is_some neuron.joined_community_fund_timestamp_seconds

abbrev state_is_spawning : NeuronState → Bool
state_is_spawning spawning = true
state_is_spawning _ = false

abbrev state_is_locked : NeuronState → Bool
state_is_locked locked = true
state_is_locked _ = false

unfoldable pub is_spawning : NeuronInfo → Bool
is_spawning neuron = state_is_spawning neuron.state

unfoldable pub is_locked : NeuronInfo → Bool
is_locked neuron = state_is_locked neuron.state

abbrev controller_of : Option Neuron → Option String
controller_of none = none
controller_of (some n) = n.controller

-- `main?.principal?.toText()`
abbrev principal_of : Option Account → Option String
principal_of none = none
principal_of (some a) = a.principal

get_account_by_principal : String → IcpAccounts → Option Account
get_account_by_principal principal accounts =
    if principal_of accounts.main_account == some principal
    then accounts.main_account
    else find? (λ a. a.principal == some principal) (get_or_else accounts.hardware_wallets [])

-- `identity` is the text of the principal of an identity
unfoldable pub is_neuron_controllable : NeuronInfo → Option String → IcpAccounts → Bool
unfolding get_account_by_principal
is_neuron_controllable neuron identity accounts = elim (controller_of neuron.full_neuron) [
  | none ↦ false
  | some controller ↦
      some controller == identity || is_some (get_account_by_principal controller accounts)
]

abbrev is_main_type : AccountType → Bool
is_main_type main = true
is_main_type _ = false

is_neuron_controllable_by_user : NeuronInfo → Option Account → Bool
is_neuron_controllable_by_user neuron main_account = elim (controller_of neuron.full_neuron) [
  | none ↦ false
  | some controller ↦ elim main_account [
    | none ↦ false
    | some account ↦ is_main_type account.account_type && some controller == account.principal
  ]
]

pub neuron_stake : NeuronInfo → ℤ
neuron_stake neuron = elim neuron.full_neuron [
  | none ↦ pos 0
  | some n ↦ difference n.cached_neuron_stake n.neuron_fees
]

-- `compare` of two neurons, field by field
pub compare_neurons : Comparator NeuronInfo
compare_neurons a b =
    let stake_a = neuron_stake a in
    let stake_b = neuron_stake b in
    let dissolve_delay_a = a.dissolve_delay_seconds in
    let dissolve_delay_b = b.dissolve_delay_seconds in
    let created_a = a.created_timestamp_seconds in
    let created_b = b.created_timestamp_seconds in
    if ltb_ℤ stake_b stake_a
    then negsuc 0
    else if ltb_ℤ stake_a stake_b
    then pos 1
    else if ltb dissolve_delay_b dissolve_delay_a
    then negsuc 0
    else if ltb dissolve_delay_a dissolve_delay_b
    then pos 1
    else if ltb created_b created_a
    then negsuc 0
    else if ltb created_a created_b
    then pos 1
    else pos 0

abbrev refreshed_of : Option Neuron → ℕ
refreshed_of none = 0
refreshed_of (some n) = get_or_else n.voting_power_refreshed_timestamp_seconds 0

abbrev pub refreshed_at : NeuronInfo → ℕ
refreshed_at neuron = refreshed_of neuron.full_neuron

pub sort_neurons_by_stake : List NeuronInfo → List NeuronInfo
unfolding compare_neurons
sort_neurons_by_stake neurons = sort compare_neurons neurons

abbrev pub compare_by_refreshed_timeout : Comparator NeuronInfo
compare_by_refreshed_timeout =
    merge_comparators (create_ascending_comparator refreshed_at ∷ compare_neurons ∷ [])

pub sort_neurons_by_voting_power_refreshed_timeout : List NeuronInfo → List NeuronInfo
sort_neurons_by_voting_power_refreshed_timeout neurons = sort compare_by_refreshed_timeout neurons
