-- ===== src/SnsNeurons/Voting.antt =====
-- frontend/src/lib/utils/sns-neuron.utils.ts, which neurons may vote on a proposal and which have
-- voted, with `ballotVotingPower` of frontend/src/lib/utils/sns-proposals.utils.ts and
-- `proposalAfterVote` of frontend/src/lib/services/sns-vote-registration.services.ts.
pub mod Partition
pub mod AfterVote
use nns_dapp.Common.{
  ℕ, Bool, true, false, not, ◌&&◌, ◌||◌, Option, none, some, List, [], ◌∷◌, ◌++◌, String,
  string_has_eq, ◌==◌, map, filter, find?, contains, unique, is_some, get_or_else, ltb,
  if◌then◌else◌,
}
use nns_dapp.VotingNeurons.{VotingNeuron}
use nns_dapp.SnsNeurons.{
  SnsNeuron, SnsVote, vote_unspecified, vote_yes, vote_no, Ballot, SnsProposalData,
  get_sns_neuron_id_as_hex_string,
}
use nns_dapp.SnsNeurons.Permissions.{has_permission_to_vote}

pub data NeuronIneligibilityReason : Type 0 where
  since short no_permission : NeuronIneligibilityReason

abbrev pub is_unspecified : SnsVote → Bool
is_unspecified vote_unspecified = true
is_unspecified _ = false

-- `vote === Vote.Yes || vote === Vote.No`
abbrev pub is_cast : SnsVote → Bool
is_cast vote_unspecified = false
is_cast _ = true

abbrev pub head? {ℓ} : {A : Type ℓ} → List A → Option A
head? [] = none
head? (x ∷ xs) = some x

pub record CompactNeuronInfo : Type 0 where
  pub id_string : String
  pub voting_power : ℕ
  pub vote : SnsVote

pub record IneligibleNeuronData : Type 0 where
  pub neuron_id_string : String
  pub reason : Option NeuronIneligibilityReason

abbrev pub ballot_id : String × Ballot → String
ballot_id b = b.0

abbrev pub ballot_vote : String × Ballot → SnsVote
ballot_vote b = b.1.vote

abbrev pub text_id : SnsNeuron → String
text_id neuron = get_sns_neuron_id_as_hex_string neuron

-- the ballot of a neuron
abbrev pub ballot_of : SnsProposalData → SnsNeuron → Option (String × Ballot)
ballot_of proposal neuron = find? (λ b. ballot_id b == text_id neuron) proposal.ballots

pub sns_neurons_ineligibility_reasons :
    SnsNeuron → SnsProposalData → String → Option NeuronIneligibilityReason
sns_neurons_ineligibility_reasons neuron proposal principal =
    if ltb proposal.proposal_creation_timestamp_seconds neuron.created_timestamp_seconds
    then some since
    else if not (has_permission_to_vote neuron (some principal))
    then some no_permission
    else if not (is_some (ballot_of proposal neuron))
    then some short
    else none

pub ineligible_sns_neurons : List SnsNeuron → SnsProposalData → String → List SnsNeuron
unfolding sns_neurons_ineligibility_reasons
ineligible_sns_neurons neurons proposal principal =
    filter (λ n. is_some (sns_neurons_ineligibility_reasons n proposal principal)) neurons

abbrev pub first_vote : SnsNeuron → SnsProposalData → Option SnsVote
first_vote neuron proposal =
    head? (map ballot_vote (filter (λ b. text_id neuron == ballot_id b) proposal.ballots))

abbrev is_unspecified_vote : Option SnsVote → Bool
is_unspecified_vote none = false
is_unspecified_vote (some v) = is_unspecified v

abbrev pub is_votable : SnsProposalData → String → SnsNeuron → Bool
is_votable proposal principal neuron =
    not (is_some (sns_neurons_ineligibility_reasons neuron proposal principal))
    && is_unspecified_vote (first_vote neuron proposal)

unfoldable pub votable_sns_neurons : List SnsNeuron → SnsProposalData → String → List SnsNeuron
unfolding sns_neurons_ineligibility_reasons
votable_sns_neurons neurons proposal principal = filter (is_votable proposal principal) neurons

abbrev pub voted_neuron_ids : SnsProposalData → List String
voted_neuron_ids proposal =
    unique (map ballot_id (filter (λ b. is_cast (ballot_vote b)) proposal.ballots))

pub voted_sns_neurons : List SnsNeuron → SnsProposalData → List SnsNeuron
voted_sns_neurons neurons proposal =
    filter (λ n. contains (voted_neuron_ids proposal) (text_id n)) neurons

pub get_sns_neuron_vote : SnsNeuron → SnsProposalData → Option SnsVote
get_sns_neuron_vote neuron proposal = elim (ballot_of proposal neuron) [
  | none ↦ none
  | some b ↦ some b.1.vote
]

pub ballot_voting_power : SnsProposalData → SnsNeuron → ℕ
ballot_voting_power proposal neuron = elim (ballot_of proposal neuron) [
  | none ↦ 0
  | some b ↦ b.1.voting_power
]

abbrev with_vote : String → ℕ → Option SnsVote → List CompactNeuronInfo → List CompactNeuronInfo
with_vote id power none rest = rest
with_vote id power (some v) rest = record { id_string = id; voting_power = power; vote = v } ∷ rest

-- the details of neurons, without those whose vote is not found
pub details : List SnsNeuron → SnsProposalData → List CompactNeuronInfo
unfolding ballot_voting_power get_sns_neuron_vote
details [] proposal = []
details (n ∷ ns) proposal =
    with_vote (text_id n) (ballot_voting_power proposal n) (get_sns_neuron_vote n proposal)
      (details ns proposal)

pub voted_sns_neuron_details : List SnsNeuron → SnsProposalData → List CompactNeuronInfo
unfolding voted_sns_neurons details
voted_sns_neuron_details neurons proposal = details (voted_sns_neurons neurons proposal) proposal

sns_neurons_to_ineligible_neuron_data :
    List SnsNeuron → SnsProposalData → String → List IneligibleNeuronData
unfolding sns_neurons_ineligibility_reasons
sns_neurons_to_ineligible_neuron_data neurons proposal principal =
    map
      (λ n. record {
        neuron_id_string = text_id n;
        reason = sns_neurons_ineligibility_reasons n proposal principal;
      })
      neurons

sns_neuron_to_voting_neuron : SnsNeuron → SnsProposalData → VotingNeuron
unfolding ballot_voting_power
sns_neuron_to_voting_neuron neuron proposal = record {
  neuron_id_string = text_id neuron;
  voting_power = ballot_voting_power proposal neuron;
}

abbrev pub optimistic_ballot : SnsProposalData → SnsVote → ℕ → SnsNeuron → String × Ballot
optimistic_ballot proposal v time n = (
  text_id n,
  record { vote = v; cast_timestamp_seconds = time; voting_power = ballot_voting_power proposal n },
)

-- `time` is the rounded time of the clock, in seconds
pub proposal_after_vote : ℕ → SnsProposalData → List SnsNeuron → SnsVote → SnsProposalData
unfolding ballot_voting_power
proposal_after_vote time proposal neurons v =
    let voted_ids = unique (map text_id neurons) in
    record proposal {
      ballots =
          filter (λ b. not (contains voted_ids (ballot_id b))) proposal.ballots
          ++ map (optimistic_ballot proposal v time) neurons;
    }
