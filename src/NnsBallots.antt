-- ===== src/NnsBallots.antt =====
-- frontend/src/lib/utils/proposals.utils.ts, the ballots and the tally of a proposal of the NNS, and
-- frontend/src/lib/utils/neuron.utils.ts, the votes of neurons that have voted. `votedNeurons` of
-- @dfinity/nns is an argument.
pub mod Tallies
mod Tests
use nns_dapp.Common.{
  ℕ, ◌+◌, Bool, true, false, not, Option, none, some, List, [], ◌∷◌, ◌++◌, String, nat_has_eq,
  option_has_eq, ◌==◌, map, filter, find?, is_some, length, ltb, get_or_else, decimal,
  if◌then◌else◌,
}

pub data NnsVote : Type 0 where
  nns_unspecified nns_yes nns_no : NnsVote

abbrev pub is_nns_yes : NnsVote → Bool
is_nns_yes nns_yes = true
is_nns_yes _ = false

abbrev pub is_nns_no : NnsVote → Bool
is_nns_no nns_no = true
is_nns_no _ = false

pub record NnsBallot : Type 0 where
  pub neuron_id : ℕ
  pub vote : NnsVote
  pub voting_power : ℕ

pub record NnsTally : Type 0 where
  pub yes : ℕ
  pub no : ℕ

pub record NnsProposal : Type 0 where
  pub id : Option ℕ
  pub ballots : List NnsBallot
  pub latest_tally : Option NnsTally

pub record BallotInfo : Type 0 where
  pub proposal_id : Option ℕ
  pub vote : NnsVote

pub record NnsVoter : Type 0 where
  pub neuron_id : ℕ
  pub voting_power : ℕ
  pub recent_ballots : List BallotInfo

abbrev pub yes_of : Option NnsTally → ℕ
yes_of none = 0
yes_of (some t) = t.yes

abbrev pub no_of : Option NnsTally → ℕ
no_of none = 0
no_of (some t) = t.no

abbrev pub cast_ballot : NnsVoter → NnsVote → NnsBallot
cast_ballot neuron v = record {
  neuron_id = neuron.neuron_id;
  vote = v;
  voting_power = neuron.voting_power;
}

unfoldable pub update_proposal_vote : NnsProposal → NnsVoter → NnsVote → NnsProposal
update_proposal_vote proposal neuron v = record proposal {
  ballots =
      filter (λ (b : NnsBallot). not (b.neuron_id == neuron.neuron_id)) proposal.ballots
      ++ cast_ballot neuron v ∷ [];
  latest_tally = some (record {
    yes =
        if is_nns_yes v
        then yes_of proposal.latest_tally + neuron.voting_power
        else yes_of proposal.latest_tally;
    no =
        if is_nns_no v
        then no_of proposal.latest_tally + neuron.voting_power
        else no_of proposal.latest_tally;
  });
}

unfoldable pub get_voting_ballot : ℕ → NnsProposal → Option NnsBallot
get_voting_ballot neuron_id proposal =
    find? (λ (b : NnsBallot). b.neuron_id == neuron_id) proposal.ballots

unfoldable pub get_voting_power : NnsVoter → NnsProposal → ℕ
unfolding get_voting_ballot
get_voting_power neuron proposal = elim (get_voting_ballot neuron.neuron_id proposal) [
  | none ↦ neuron.voting_power
  | some b ↦ b.voting_power
]

abbrev get_recent_ballot : NnsVoter → Option ℕ → Option BallotInfo
get_recent_ballot neuron proposal_id =
    find? (λ (b : BallotInfo). b.proposal_id == proposal_id) neuron.recent_ballots

unfoldable pub get_vote : NnsVoter → NnsProposal → Option NnsVote
unfolding get_voting_ballot
get_vote neuron proposal = elim (get_recent_ballot neuron proposal.id) [
  | some b ↦ some b.vote
  | none ↦ elim (get_voting_ballot neuron.neuron_id proposal) [ none ↦ none | some b ↦ some b.vote ]
]

pub record VoteOfNeuron : Type 0 where
  pub id_string : String
  pub voting_power : ℕ
  pub vote : NnsVote

abbrev with_nns_vote : String → ℕ → Option NnsVote → List VoteOfNeuron → List VoteOfNeuron
with_nns_vote id power none rest = rest
with_nns_vote id power (some v) rest =
    record { id_string = id; voting_power = power; vote = v } ∷ rest

-- the details of neurons, without those whose vote is not found
nns_details : List NnsVoter → NnsProposal → List VoteOfNeuron
unfolding get_voting_power get_vote
nns_details [] proposal = []
nns_details (n ∷ ns) proposal =
    with_nns_vote (decimal n.neuron_id) (get_voting_power n proposal) (get_vote n proposal)
      (nns_details ns proposal)

voted_neuron_details :
    (List NnsVoter → NnsProposal → List NnsVoter) → List NnsVoter → NnsProposal → List VoteOfNeuron
unfolding nns_details
voted_neuron_details voted_neurons neurons proposal =
    nns_details (voted_neurons neurons proposal) proposal

neurons_voting_power : List VoteOfNeuron → ℕ
neurons_voting_power [] = 0
neurons_voting_power (n ∷ ns) = n.voting_power + neurons_voting_power ns
