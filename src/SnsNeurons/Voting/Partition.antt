-- ===== src/SnsNeurons/Voting/Partition.antt =====
-- frontend/src/lib/utils/sns-neuron.utils.ts: how `votableSnsNeurons`, `votedSnsNeurons` and
-- `ineligibleSnsNeurons` divide the neurons of a user.
use nns_dapp.Common.{
  ◌≡◌, refl, ap, sym, ◌∙◌, Bool, false, not, ◌&&◌, Option, none, some, List, [], ◌∷◌, String,
  string_has_eq, ◌==◌, map, filter, find?, contains, contains-unique, is_some, arith, inl, inr,
  Bool-cases, eqb_comm, eq_of_eqb, Distinct,
}
use nns_dapp.SnsNeurons.{SnsNeuron, SnsVote, Ballot, SnsProposalData}
use nns_dapp.SnsNeurons.Voting.{
  is_cast, head?, ballot_id, ballot_vote, text_id, ballot_of, first_vote,
  sns_neurons_ineligibility_reasons, is_votable, votable_sns_neurons, voted_neuron_ids,
}

pub filter_congr :
    {A : Type 0} (p q : A → Bool) (xs : List A) → ((x : A) → p x ≡ q x) → filter p xs ≡ filter q xs
filter_congr p q [] h = refl
filter_congr p q (x ∷ xs) h = ground (arith, h x, filter_congr p q xs h)

abbrev pub vote_in : Option (String × Ballot) → Option SnsVote
vote_in none = none
vote_in (some b) = some (ballot_vote b)

first_vote-find? :
    (k : String) (bs : List (String × Ballot))
    → head? (map ballot_vote (filter (λ b. k == ballot_id b) bs))
      ≡ vote_in (find? (λ b. ballot_id b == k) bs)
first_vote-find? k [] = refl
first_vote-find? k (b ∷ bs) = ground (arith, first_vote-find? k bs, eqb_comm k (ballot_id b))

-- the first ballot of a neuron is its vote
pub first_vote-eq :
    (n : SnsNeuron) (proposal : SnsProposalData)
    → first_vote n proposal ≡ vote_in (ballot_of proposal n)
first_vote-eq n proposal = first_vote-find? (text_id n) proposal.ballots

abbrev cast_vote : Option SnsVote → Bool
cast_vote none = false
cast_vote (some v) = is_cast v

not-contains-filter :
    (k : String) (bs : List (String × Ballot))
    → contains (map ballot_id bs) k ≡ false
    → contains (map ballot_id (filter (λ b. is_cast (ballot_vote b)) bs)) k ≡ false
not-contains-filter k [] n = refl
not-contains-filter k (b ∷ bs) n = ground (arith, not-contains-filter k bs)

voted-find? :
    (k : String) (bs : List (String × Ballot))
    → Distinct (map ballot_id bs)
    → contains (map ballot_id (filter (λ b. is_cast (ballot_vote b)) bs)) k
      ≡ cast_vote (vote_in (find? (λ b. ballot_id b == k) bs))
voted-find? k [] d = refl
voted-find? k (b ∷ bs) (n, d) = elim (Bool-cases (ballot_id b == k)) [
  | inl own ↦
      let gone = ap (contains (map ballot_id bs)) (sym (eq_of_eqb (ballot_id b) k own)) ∙ n in
      ground (arith, not-contains-filter k bs gone)
  | inr other ↦ ground (arith, voted-find? k bs d)
]

-- Where no two ballots are for one neuron, those may vote that are not ineligible and have not
-- voted.
pub votable_sns_neurons-eq :
    (neurons : List SnsNeuron) (proposal : SnsProposalData) (principal : String)
    → Distinct (map ballot_id proposal.ballots)
    → votable_sns_neurons neurons proposal principal
      ≡ filter
          (λ n.
            not (is_some (sns_neurons_ineligibility_reasons n proposal principal))
            && not (contains (voted_neuron_ids proposal) (text_id n)))
          neurons
unfolding votable_sns_neurons sns_neurons_ineligibility_reasons
votable_sns_neurons-eq neurons proposal principal d = filter_congr _ _ neurons (λ n. each n)
  where
    each :
        (n : SnsNeuron)
        → is_votable proposal principal n ≡ (
            not (is_some (sns_neurons_ineligibility_reasons n proposal principal))
            && not (contains (voted_neuron_ids proposal) (text_id n)))
    each n = ground (
      arith,
      first_vote-eq n proposal,
      contains-unique (map ballot_id (filter (λ b. is_cast (ballot_vote b)) proposal.ballots))
          (text_id n),
      voted-find? (text_id n) proposal.ballots d,
    )
