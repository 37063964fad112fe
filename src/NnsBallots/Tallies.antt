-- ===== src/NnsBallots/Tallies.antt =====
-- frontend/src/lib/utils/proposals.utils.ts, `updateProposalVote`: the ballots and the tally after a
-- vote.
use nns_dapp.Common.{
  ℕ, ◌+◌, ◌≡◌, refl, Bool, true, false, not, some, List, [], ◌∷◌, ◌++◌, nat_has_eq, ◌==◌, ◌&&◌,
  ◌||◌, filter, find?, arith, if◌then◌else◌, eqb_refl,
}
use nns_dapp.NnsBallots.{
  NnsVote, is_nns_yes, is_nns_no, NnsBallot, NnsProposal, NnsVoter, yes_of, no_of, cast_ballot,
  update_proposal_vote, get_voting_ballot,
}

-- the voting power of the ballots with a vote
abbrev pub total : (NnsVote → Bool) → List NnsBallot → ℕ
total p [] = 0
total p (b ∷ bs) = (if p b.vote then b.voting_power else 0) + total p bs

-- no ballot of the neuron is cast
abbrev pub has_not_voted : ℕ → List NnsBallot → Bool
has_not_voted id [] = true
has_not_voted id (b ∷ bs) =
    if (b.neuron_id == id) && (is_nns_yes b.vote || is_nns_no b.vote)
    then false
    else has_not_voted id bs

total-append :
    (p : NnsVote → Bool) (bs cs : List NnsBallot) → total p (bs ++ cs) ≡ total p bs + total p cs
total-append p [] cs = omega arith
total-append p (b ∷ bs) cs = omega (arith, total-append p bs cs)

abbrev others : ℕ → List NnsBallot → List NnsBallot
others id bs = filter (λ (b : NnsBallot). not (b.neuron_id == id)) bs

total-others :
    (id : ℕ) (bs : List NnsBallot)
    → has_not_voted id bs ≡ true
    → (total is_nns_yes (others id bs) ≡ total is_nns_yes bs)
      × (total is_nns_no (others id bs) ≡ total is_nns_no bs)
total-others id [] h = (refl, refl)
total-others id (b ∷ bs) h =
    let (for, against) = total-others id bs (ground (arith, h)) in
    (ground (arith, h, for), ground (arith, h, against))

find-others :
    (id : ℕ) (ballot : NnsBallot) (bs : List NnsBallot)
    → (ballot.neuron_id == id) ≡ true
    → find? (λ (b : NnsBallot). b.neuron_id == id) (others id bs ++ ballot ∷ []) ≡ some ballot
find-others id ballot [] h = rw h refl
find-others id ballot (b ∷ bs) h = ground (arith, find-others id ballot bs h)

-- the tally is the sum of the ballots
pub record IsTallied (proposal : NnsProposal) : Type 0 where
  pub yes : yes_of proposal.latest_tally ≡ total is_nns_yes proposal.ballots
  pub no : no_of proposal.latest_tally ≡ total is_nns_no proposal.ballots

-- If the tally of a proposal is the sum of its ballots and a neuron has not cast one of them, then
-- the tally is the sum of the ballots after the neuron's vote, too, and the neuron's ballot has
-- the vote.
pub update_proposal_vote-IsTallied :
    (proposal : NnsProposal) (neuron : NnsVoter) (v : NnsVote)
    → IsTallied proposal
    → has_not_voted neuron.neuron_id proposal.ballots ≡ true
    → IsTallied (update_proposal_vote proposal neuron v)
      × (get_voting_ballot neuron.neuron_id (update_proposal_vote proposal neuron v)
          ≡ some (cast_ballot neuron v))
unfolding update_proposal_vote get_voting_ballot
update_proposal_vote-IsTallied proposal neuron v tallied fresh =
    let (for, against) = total-others neuron.neuron_id proposal.ballots fresh in
    let kept = others neuron.neuron_id proposal.ballots in
    (
      record {
        yes =
            ground
              (arith, for, tallied.yes, total-append is_nns_yes kept (cast_ballot neuron v ∷ []));
        no =
            ground
              (arith, against, tallied.no, total-append is_nns_no kept (cast_ballot neuron v ∷ []));
      },
      find-others neuron.neuron_id (cast_ballot neuron v) proposal.ballots
          (eqb_refl neuron.neuron_id),
    )
