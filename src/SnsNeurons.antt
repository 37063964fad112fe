-- ===== src/SnsNeurons.antt =====
-- frontend/src/lib/utils/sns-neuron.utils.ts: what the code reads of a neuron of an SNS project,
-- its amounts, and the lists of those that may or may not vote. `SnsNeuron` and `SnsProposalData`
-- have the fields of @dfinity/sns that these functions read; an optional field is `none` for an
-- empty array. A subaccount is a list of bytes.
pub mod Permissions
pub mod Dissolving
pub mod Splitting
pub mod Voting
pub mod Memos
mod Tests
use nns_dapp.Hex.{bytes_to_hex_string}
use nns_dapp.Common.{
  ℕ, ◌+◌, Bool, false, Option, none, some, List, [], ◌∷◌, String, string_has_eq, ◌==◌, find?,
  get_or_else, ltb, leb, is_some, not, nat_has_eq, ℤ, difference, ltb_ℤ, pos,
}

pub data DissolveState : Type 0 where
  dissolve_delay_seconds when_dissolved_timestamp_seconds : ℕ → DissolveState

pub data NeuronPermissionType : Type 0 where
  permission_unspecified permission_configure_dissolve_state permission_manage_principals
        permission_submit_proposal permission_vote permission_disburse permission_split
        permission_merge_maturity permission_disburse_maturity permission_stake_maturity
        permission_manage_voting_permission :
      NeuronPermissionType

pub record NeuronPermission : Type 0 where
  pub principal : Option String
  pub permission_type : List NeuronPermissionType

pub record SnsNeuron : Type 0 where
  pub id : Option (List ℕ)
  pub permissions : List NeuronPermission
  pub cached_neuron_stake_e8s : ℕ
  pub neuron_fees_e8s : ℕ
  pub maturity_e8s_equivalent : ℕ
  pub staked_maturity_e8s_equivalent : Option ℕ
  pub dissolve_state : Option DissolveState
  pub followees : List (ℕ × List (List ℕ))
  pub created_timestamp_seconds : ℕ
  pub vesting_period_seconds : Option ℕ
  pub auto_stake_maturity : Option Bool
  pub source_nns_neuron_id : Option ℕ
  pub disburse_maturity_in_progress : List ℕ

pub data SnsVote : Type 0 where
  vote_unspecified vote_yes vote_no : SnsVote

pub record Ballot : Type 0 where
  pub vote : SnsVote
  pub cast_timestamp_seconds : ℕ
  pub voting_power : ℕ

pub record SnsTally : Type 0 where
  pub yes : ℕ
  pub no : ℕ
  pub total : ℕ

pub record SnsProposalData : Type 0 where
  pub id : Option ℕ
  pub ballots : List (String × Ballot)
  pub proposal_creation_timestamp_seconds : ℕ
  pub initial_voting_period_seconds : ℕ
  pub current_deadline_timestamp_seconds : Option ℕ
  pub latest_tally : Option SnsTally
  pub decided_timestamp_seconds : ℕ
  pub executed_timestamp_seconds : ℕ
  pub failed_timestamp_seconds : ℕ
  pub reward_event_round : ℕ
  pub reward_event_end_timestamp_seconds : Option ℕ
  pub is_eligible_for_rewards : Bool
  pub minimum_yes_proportion_of_total : Option ℕ
  pub minimum_yes_proportion_of_exercised : Option ℕ

-- `cached_neuron_stake_e8s - neuron_fees_e8s`, a bigint that may be negative
unfoldable pub get_sns_neuron_stake : SnsNeuron → ℤ
get_sns_neuron_stake neuron = difference neuron.cached_neuron_stake_e8s neuron.neuron_fees_e8s

pub get_sns_neuron_available_maturity : SnsNeuron → ℕ
get_sns_neuron_available_maturity neuron = neuron.maturity_e8s_equivalent

pub get_sns_neuron_staked_maturity : SnsNeuron → ℕ
get_sns_neuron_staked_maturity neuron = get_or_else neuron.staked_maturity_e8s_equivalent 0

has_valid_stake : SnsNeuron → Bool
unfolding get_sns_neuron_available_maturity get_sns_neuron_staked_maturity
has_valid_stake neuron = ltb 0 (
    neuron.cached_neuron_stake_e8s
    + get_sns_neuron_available_maturity neuron
    + get_sns_neuron_staked_maturity neuron)

has_auto_stake_maturity_on : Option SnsNeuron → Bool
has_auto_stake_maturity_on none = false
has_auto_stake_maturity_on (some neuron) = get_or_else neuron.auto_stake_maturity false

has_enough_maturity_to_stake : Option SnsNeuron → Bool
has_enough_maturity_to_stake none = false
has_enough_maturity_to_stake (some neuron) = ltb 0 neuron.maturity_e8s_equivalent

has_staked_maturity : Option SnsNeuron → Bool
has_staked_maturity none = false
has_staked_maturity (some neuron) = is_some neuron.staked_maturity_e8s_equivalent

pub is_community_fund : SnsNeuron → Bool
is_community_fund neuron = is_some neuron.source_nns_neuron_id

needs_refresh : SnsNeuron → ℕ → Bool
needs_refresh neuron balance_e8s = not (balance_e8s == neuron.cached_neuron_stake_e8s)

abbrev sum : List ℕ → ℕ
sum [] = 0
sum (x ∷ xs) = x + sum xs

total_disbursing_maturity : SnsNeuron → ℕ
total_disbursing_maturity neuron = sum neuron.disburse_maturity_in_progress

unfoldable pub subaccount_to_hex_string : List ℕ → String
unfolding bytes_to_hex_string
subaccount_to_hex_string subaccount = bytes_to_hex_string subaccount

unfoldable pub get_sns_neuron_id_as_hex_string : SnsNeuron → String
unfolding subaccount_to_hex_string
get_sns_neuron_id_as_hex_string neuron = subaccount_to_hex_string (get_or_else neuron.id [])

unfoldable pub get_sns_neuron_by_hex_id : String → List SnsNeuron → Option SnsNeuron
unfolding get_sns_neuron_id_as_hex_string
get_sns_neuron_by_hex_id neuron_id_hex neurons =
    find? (λ n. get_sns_neuron_id_as_hex_string n == neuron_id_hex) neurons
