-- ===== src/SnsProposals/Tests.antt =====
-- A tally and a filter by types, and the theorems at them.
use nns_dapp.Common.{
  ℕ, ◌≡◌, ◌↔◌, decimal, refl, true, false, none, some, List, [], ◌∷◌, contains, nat_has_eq,
  string_has_eq,
}
use nns_dapp.SnsNeurons.{SnsProposalData, SnsTally}
use nns_dapp.SnsProposals.{
  SnsNervousSystemFunction, Filter, to_exclude_type_parameter,
  generate_sns_proposal_types_filter_data,
}
use nns_dapp.SnsProposals.Unchecked.{TurnedOff}
use nns_dapp.SnsProposals.Types.{excluded-iff_unchecked}

abbrev tally : ℕ → ℕ → SnsTally
tally for against = record { yes = for; no = against; total = 1_000 }

abbrev proposal : SnsProposalData
proposal = record {
  id = some 3;
  ballots = [];
  proposal_creation_timestamp_seconds = 100;
  initial_voting_period_seconds = 50;
  current_deadline_timestamp_seconds = none;
  latest_tally = some (tally 60 20);
  decided_timestamp_seconds = 0;
  executed_timestamp_seconds = 0;
  failed_timestamp_seconds = 0;
  reward_event_round = 0;
  reward_event_end_timestamp_seconds = none;
  is_eligible_for_rewards = true;
  minimum_yes_proportion_of_total = none;
  minimum_yes_proportion_of_exercised = none;
}

abbrev functions : List SnsNervousSystemFunction
functions =
    record { id = 0; name = "All Topics" }
    ∷ record { id = 1; name = "Motion" }
    ∷ record { id = 2; name = "Upgrade" }
    ∷ record { id = 1_003; name = "Call" }
    ∷ []

abbrev state : List Filter
state = record { id = "2"; name = "Upgrade"; value = "2"; checked = false } ∷ []

excluded-iff_unchecked_example :
    (contains
        (to_exclude_type_parameter
          (generate_sns_proposal_types_filter_data functions state "Specific")
          functions)
        2
      ≡ true)
    ↔ TurnedOff state "2"
unfolding decimal
excluded-iff_unchecked_example = excluded-iff_unchecked state functions "Specific" 2 refl refl
