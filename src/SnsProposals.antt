-- ===== src/SnsProposals.antt =====
-- frontend/src/lib/utils/sns-proposals.utils.ts: the decision on a proposal of an SNS project, its
-- reward status, and the filter by types of proposals.
pub mod Decisions
pub mod Unchecked
pub mod Types
mod Tests
use nns_dapp.Common.{
  ℕ, ◌+◌, ◌*◌, Bool, true, false, not, ◌&&◌, ◌||◌, Option, none, some, List, [], ◌∷◌, ◌++◌, String,
  string_has_eq, nat_has_eq, ◌==◌, map, filter, find?, contains, length, is_some, get_or_else, ltb,
  leb, decimal, if◌then◌else◌,
}
use nns_dapp.SnsNeurons.{SnsProposalData, SnsTally, SnsVote, vote_unspecified, vote_yes, vote_no}
use nns_dapp.SnsNeurons.Permissions.{some_of}

abbrev pub minimum_yes_proportion_of_total_voting_power : ℕ
minimum_yes_proportion_of_total_voting_power = 300

abbrev pub minimum_yes_proportion_of_exercised_voting_power : ℕ
minimum_yes_proportion_of_exercised_voting_power = 5_000

unfoldable pub minimum_yes_proportion_of_total : SnsProposalData → ℕ
minimum_yes_proportion_of_total proposal =
    get_or_else proposal.minimum_yes_proportion_of_total
      minimum_yes_proportion_of_total_voting_power

unfoldable pub minimum_yes_proportion_of_exercised : SnsProposalData → ℕ
minimum_yes_proportion_of_exercised proposal =
    get_or_else proposal.minimum_yes_proportion_of_exercised
      minimum_yes_proportion_of_exercised_voting_power

-- The second test is on `10_000n - required`, which may be negative: it is added on the other side.
unfoldable pub majority_decision : ℕ → ℕ → ℕ → ℕ → SnsVote
majority_decision yes_votes no_votes total required =
    if ltb (total * required) (yes_votes * 10_000)
    then vote_yes
    else if leb (total * 10_000) (no_votes * 10_000 + total * required)
    then vote_no
    else vote_unspecified

abbrev is_vote_yes : SnsVote → Bool
is_vote_yes vote_yes = true
is_vote_yes _ = false

unfoldable pub is_accepted : SnsProposalData → Bool
unfolding majority_decision minimum_yes_proportion_of_total minimum_yes_proportion_of_exercised
is_accepted proposal = elim proposal.latest_tally [
  | none ↦ false
  | some tally ↦
      let majority_met = is_vote_yes (
        majority_decision tally.yes tally.no (tally.yes + tally.no)
          (minimum_yes_proportion_of_exercised proposal)) in
      let quorum_met =
        leb (tally.total * minimum_yes_proportion_of_total proposal) (tally.yes * 10_000) in
      quorum_met && majority_met
]

pub data SnsProposalDecisionStatus : Type 0 where
  status_open status_rejected status_adopted status_executed status_failed :
      SnsProposalDecisionStatus

unfoldable pub sns_decision_status : SnsProposalData → SnsProposalDecisionStatus
unfolding is_accepted
sns_decision_status proposal =
    if proposal.decided_timestamp_seconds == 0
    then status_open
    else if is_accepted proposal
    then if ltb 0 proposal.executed_timestamp_seconds
      then status_executed
      else if ltb 0 proposal.failed_timestamp_seconds
      then status_failed
      else status_adopted
    else status_rejected

pub data SnsProposalRewardStatus : Type 0 where
  reward_accept_votes reward_ready_to_settle reward_settled : SnsProposalRewardStatus

unfoldable pub deadline_of : SnsProposalData → ℕ
deadline_of proposal =
    get_or_else proposal.current_deadline_timestamp_seconds
      (proposal.proposal_creation_timestamp_seconds + proposal.initial_voting_period_seconds)

unfoldable pub sns_reward_status : ℕ → SnsProposalData → SnsProposalRewardStatus
unfolding deadline_of
sns_reward_status now proposal =
    if is_some proposal.reward_event_end_timestamp_seconds || ltb 0 proposal.reward_event_round
    then reward_settled
    else if ltb now (deadline_of proposal)
    then reward_accept_votes
    else if proposal.is_eligible_for_rewards
    then reward_ready_to_settle
    else reward_settled

abbrev is_accept_votes : SnsProposalRewardStatus → Bool
is_accept_votes reward_accept_votes = true
is_accept_votes _ = false

unfoldable pub sns_proposal_accepting_votes : ℕ → SnsProposalData → Bool
unfolding sns_reward_status
sns_proposal_accepting_votes now proposal = is_accept_votes (sns_reward_status now proposal)

-- `UniversalProposalStatus`
pub data UniversalProposalStatus : Type 0 where
  universal_open universal_rejected universal_adopted universal_executed universal_failed :
      UniversalProposalStatus

get_universal_proposal_status : SnsProposalData → UniversalProposalStatus
unfolding sns_decision_status
get_universal_proposal_status proposal = elim (sns_decision_status proposal) [
  | status_open ↦ universal_open
  | status_rejected ↦ universal_rejected
  | status_adopted ↦ universal_adopted
  | status_executed ↦ universal_executed
  | status_failed ↦ universal_failed
]

pub record SnsNervousSystemFunction : Type 0 where
  pub id : ℕ
  pub name : String

pub record Filter : Type 0 where
  pub id : String
  pub name : String
  pub value : String
  pub checked : Bool

abbrev pub all_sns_generic_proposal_types_id : String
all_sns_generic_proposal_types_id = "all_sns_generic_types"

abbrev pub min_valid_sns_generic_nervous_system_function_id : ℕ
min_valid_sns_generic_nervous_system_function_id = 1_000

abbrev pub is_native_id : ℕ → Bool
is_native_id id = ltb id min_valid_sns_generic_nervous_system_function_id

abbrev pub is_sns_native_nervous_system_function : SnsNervousSystemFunction → Bool
is_sns_native_nervous_system_function f = is_native_id f.id

abbrev pub is_sns_generic_nervous_system_function : SnsNervousSystemFunction → Bool
is_sns_generic_nervous_system_function f = leb min_valid_sns_generic_nervous_system_function_id f.id

abbrev pub function_id : SnsNervousSystemFunction → ℕ
function_id f = f.id

-- whether an entry with the id is checked
abbrev pub is_selected : List Filter → String → Bool
is_selected entries id = some_of (λ (e : Filter). e.id == id && e.checked) entries

pub to_exclude_type_parameter : List Filter → List SnsNervousSystemFunction → List ℕ
to_exclude_type_parameter entries sns_functions =
    let native_ids = map function_id (filter is_sns_native_nervous_system_function sns_functions) in
    let excluded_native_ids = filter (λ id. not (is_selected entries (decimal id))) native_ids in
    let generic_ids =
      map function_id (filter is_sns_generic_nervous_system_function sns_functions) in
    let excluded_generic_ids =
      if is_selected entries all_sns_generic_proposal_types_id then [] else generic_ids in
    if length entries == 0
    then []
    else filter (λ id. not (id == 0)) (excluded_native_ids ++ excluded_generic_ids)

-- `find(…)?.checked !== false`
abbrev pub get_checked_state : List Filter → String → Bool
get_checked_state state id = elim (find? (λ (e : Filter). id == e.id) state) [
  | none ↦ true
  | some e ↦ e.checked
]

abbrev pub native_entry : List Filter → SnsNervousSystemFunction → Filter
native_entry state f = record {
  id = decimal f.id;
  name = f.name;
  value = decimal f.id;
  checked = get_checked_state state (decimal f.id);
}

abbrev pub generic_entry : List Filter → String → Filter
generic_entry state label = record {
  id = all_sns_generic_proposal_types_id;
  name = label;
  value = all_sns_generic_proposal_types_id;
  checked = get_checked_state state all_sns_generic_proposal_types_id;
}

-- with the label of the generic types, which names the project
pub generate_sns_proposal_types_filter_data :
    List SnsNervousSystemFunction → List Filter → String → List Filter
generate_sns_proposal_types_filter_data ns_functions types_filter_state label =
    map (native_entry types_filter_state)
      (filter (λ f. not (f.id == 0)) (filter is_sns_native_nervous_system_function ns_functions))
    ++ (if some_of is_sns_generic_nervous_system_function ns_functions
        then generic_entry types_filter_state label ∷ []
        else [])
