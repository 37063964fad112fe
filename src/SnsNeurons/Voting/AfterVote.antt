-- ===== src/SnsNeurons/Voting/AfterVote.antt =====
-- frontend/src/lib/services/sns-vote-registration.services.ts, `proposalAfterVote`: the proposal
-- that is shown until the next one is loaded.
use nns_dapp.Common.{
  ℕ, ◌≡◌, refl, ap, ◌∙◌, true, not, ◌&&◌, none, some, List, [], ◌∷◌, String, string_has_eq, ◌==◌,
  map, filter, find?, find?-append, contains, contains-unique, unique, arith, inl, inr, Bool-cases,
  eq_of_eqb, if◌then◌else◌,
}
use nns_dapp.SnsNeurons.{SnsNeuron, SnsVote, Ballot, SnsProposalData}
use nns_dapp.SnsNeurons.Voting.{
  is_cast, ballot_id, text_id, sns_neurons_ineligibility_reasons, is_votable, votable_sns_neurons,
  get_sns_neuron_vote, optimistic_ballot, proposal_after_vote,
}
use nns_dapp.SnsNeurons.Voting.Partition.{filter_congr, vote_in, first_vote-eq}

find?-other_ids :
    (ids : List String) (k : String) (bs : List (String × Ballot))
    → find? (λ b. ballot_id b == k) (filter (λ b. not (contains ids (ballot_id b))) bs)
      ≡ (if contains ids k then none else find? (λ b. ballot_id b == k) bs)
find?-other_ids ids k [] = ground arith
find?-other_ids ids k (b ∷ bs) = elim (Bool-cases (ballot_id b == k)) [
  | inl own ↦
      ground (arith, find?-other_ids ids k bs, ap (contains ids) (eq_of_eqb (ballot_id b) k own))
  | inr other ↦ ground (arith, find?-other_ids ids k bs)
]

module _ (time : ℕ) (proposal : SnsProposalData) (v : SnsVote) where
  vote_in-optimistic :
      (k : String) (neurons : List SnsNeuron)
      → vote_in (find? (λ b. ballot_id b == k) (map (optimistic_ballot proposal v time) neurons))
        ≡ (if contains (map (text_id) neurons) k then some v else none)
  vote_in-optimistic k [] = refl
  vote_in-optimistic k (n ∷ ns) = ground (arith, vote_in-optimistic k ns)

  vote_in-after :
      (k : String) (neurons : List SnsNeuron)
      → vote_in
          (find? (λ b. ballot_id b == k) (proposal_after_vote time proposal neurons v).ballots)
        ≡ (if contains (map (text_id) neurons) k
            then some v
            else vote_in (find? (λ b. ballot_id b == k) proposal.ballots))
  unfolding proposal_after_vote
  vote_in-after k neurons =
      let ids = unique (map (text_id) neurons) in
      let kept = filter (λ b. not (contains ids (ballot_id b))) proposal.ballots in
      ap vote_in (
        find?-append (λ b. ballot_id b == k) kept (map (optimistic_ballot proposal v time) neurons))
      ∙ ground (
        arith,
        find?-other_ids ids k proposal.ballots,
        contains-unique (map (text_id) neurons) k,
        vote_in-optimistic k neurons,
      )

  -- Afterwards the given neurons have the vote, whether or not it was registered, and all others
  -- the vote that they had.
  pub get_sns_neuron_vote-after :
      (neurons : List SnsNeuron) (n : SnsNeuron)
      → get_sns_neuron_vote n (proposal_after_vote time proposal neurons v) ≡ (
          if contains (map (text_id) neurons) (text_id n)
          then some v
          else get_sns_neuron_vote n proposal)
  unfolding get_sns_neuron_vote
  get_sns_neuron_vote-after neurons n = ground (arith, vote_in-after (text_id n) neurons)

  created_same :
      (neurons : List SnsNeuron)
      → (proposal_after_vote time proposal neurons v).proposal_creation_timestamp_seconds
        ≡ proposal.proposal_creation_timestamp_seconds
  unfolding proposal_after_vote
  created_same neurons = refl

  -- After a vote for or against, exactly those neurons may still vote that could before and that are
  -- not among the given ones.
  pub votable-after_vote :
      (neurons voted : List SnsNeuron) (principal : String)
      → is_cast v ≡ true
      → votable_sns_neurons neurons (proposal_after_vote time proposal voted v) principal
        ≡ filter
            (λ n.
              is_votable proposal principal n && not (contains (map (text_id) voted) (text_id n)))
            neurons
  unfolding votable_sns_neurons sns_neurons_ineligibility_reasons
  votable-after_vote neurons voted principal cast = filter_congr _ _ neurons (λ n. each n)
    where
      each :
          (n : SnsNeuron)
          → is_votable (proposal_after_vote time proposal voted v) principal n
            ≡ (is_votable proposal principal n && not (contains (map (text_id) voted) (text_id n)))
      each n = ground (
        arith,
        created_same voted,
        first_vote-eq n proposal,
        first_vote-eq n (proposal_after_vote time proposal voted v),
        vote_in-after (text_id n) voted,
        cast,
      )
