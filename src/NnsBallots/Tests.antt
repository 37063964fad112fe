-- ===== src/NnsBallots/Tests.antt =====
-- A vote on a proposal with two ballots.
use nns_dapp.Common.{◌≡◌, refl, some, [], ◌∷◌}
use nns_dapp.NnsBallots.{
  nns_unspecified, nns_yes, nns_no, NnsProposal, NnsVoter, update_proposal_vote, get_voting_ballot,
  cast_ballot, yes_of,
}
use nns_dapp.NnsBallots.Tallies.{IsTallied, update_proposal_vote-IsTallied}

abbrev proposal : NnsProposal
proposal = record {
  id = some 9;
  ballots =
      record { neuron_id = 1; vote = nns_unspecified; voting_power = 30 }
      ∷ record { neuron_id = 2; vote = nns_no; voting_power = 50 }
      ∷ [];
  latest_tally = some (record { yes = 0; no = 50 });
}

abbrev neuron : NnsVoter
neuron = record { neuron_id = 1; voting_power = 30; recent_ballots = [] }

proposal-IsTallied : IsTallied proposal
proposal-IsTallied = record { yes = refl; no = refl }

update_proposal_vote-IsTallied_example :
    IsTallied (update_proposal_vote proposal neuron nns_yes)
    × (get_voting_ballot 1 (update_proposal_vote proposal neuron nns_yes)
        ≡ some (cast_ballot neuron nns_yes))
update_proposal_vote-IsTallied_example =
    update_proposal_vote-IsTallied proposal neuron nns_yes proposal-IsTallied refl

-- the tally counts a vote that is repeated twice
repeated-example :
    yes_of
      (update_proposal_vote
        (update_proposal_vote proposal neuron nns_yes)
        neuron
        nns_yes).latest_tally
    ≡ 60
unfolding update_proposal_vote
repeated-example = refl
