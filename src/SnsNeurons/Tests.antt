-- ===== src/SnsNeurons/Tests.antt =====
-- A neuron of an SNS project with a hotkey, and the theorems at it.
use nns_dapp.Common.{
  ℕ, zero, suc, ◌/◌, ◌%◌, ◌<◌, ◌≡◌, refl, ap, true, false, not, ◌&&◌, none, some, List, [], ◌∷◌,
  string_has_eq, contains, filter, map, is_some, length, All, returns, pos, arith,
}
use nns_dapp.SnsNeurons.{
  when_dissolved_timestamp_seconds, permission_vote, permission_submit_proposal,
  permission_disburse, get_sns_neuron_id_as_hex_string, SnsNeuron, SnsVote, vote_yes,
  vote_unspecified, Ballot, SnsProposalData,
}
use nns_dapp.SnsNeurons.Permissions.{
  is_user_hotkey, has_permission_to_vote, has_permission_to_disburse, has_permission_to_dissolve,
  has_permission_to_split, has_permission_to_stake_maturity, has_permission_to_disburse_maturity,
}
use nns_dapp.SnsNeurons.Permissions.Hotkeys.{hotkey_powers}
use nns_dapp.SnsNeurons.Dissolving.{
  get_sns_dissolve_delay_seconds, get_sns_dissolve_delay_seconds-eq,
}
use nns_dapp.SnsNeurons.Voting.{
  text_id, sns_neurons_ineligibility_reasons, is_votable, votable_sns_neurons, voted_neuron_ids,
  proposal_after_vote,
}
use nns_dapp.SnsNeurons.Voting.Partition.{votable_sns_neurons-eq}
use nns_dapp.SnsNeurons.Voting.AfterVote.{votable-after_vote}
use nns_dapp.SnsNeurons.Memos.{
  Distinguishes, is_free, max_neurons_subaccounts, next_memo, next_memo-first_free,
}

abbrev neuron_of : ℕ → SnsNeuron
neuron_of byte = record {
  id = some (byte ∷ []);
  permissions =
      record {
        principal = some "owner";
        permission_type = permission_disburse ∷ permission_vote ∷ [];
      }
      ∷ record {
        principal = some "helper";
        permission_type = permission_submit_proposal ∷ permission_vote ∷ [];
      }
      ∷ [];
  cached_neuron_stake_e8s = 500;
  neuron_fees_e8s = 20;
  maturity_e8s_equivalent = 0;
  staked_maturity_e8s_equivalent = none;
  dissolve_state = some (when_dissolved_timestamp_seconds 1_000);
  followees = [];
  created_timestamp_seconds = 1;
  vesting_period_seconds = none;
  auto_stake_maturity = none;
  source_nns_neuron_id = none;
  disburse_maturity_in_progress = [];
}

hotkey_powers_example :
    (has_permission_to_vote (neuron_of 7) (some "helper") ≡ true)
    × (has_permission_to_disburse (neuron_of 7) (some "helper") ≡ false)
    × (has_permission_to_dissolve (neuron_of 7) (some "helper") ≡ false)
    × (has_permission_to_split (neuron_of 7) (some "helper") ≡ false)
    × (has_permission_to_stake_maturity (neuron_of 7) (some "helper") ≡ false)
    × (has_permission_to_disburse_maturity (neuron_of 7) (some "helper") ≡ false)
unfolding is_user_hotkey
hotkey_powers_example =
    hotkey_powers (neuron_of 7) "helper" refl (refl, (refl, tt))
      ((refl, (refl, tt)), ((refl, (refl, tt)), tt)) refl

get_sns_dissolve_delay_seconds-eq_example :
    get_sns_dissolve_delay_seconds 900 905 906 (neuron_of 7) ≡ pos 95
get_sns_dissolve_delay_seconds-eq_example =
    get_sns_dissolve_delay_seconds-eq 900 905 906 (neuron_of 7) (omega arith)

abbrev ballot : SnsVote → Ballot
ballot v = record { vote = v; cast_timestamp_seconds = 0; voting_power = 5 }

-- the second neuron has voted
abbrev proposal : SnsProposalData
proposal = record {
  id = some 3;
  ballots =
      ("07", ballot vote_unspecified)
      ∷ ("08", ballot vote_yes)
      ∷ ("09", ballot vote_unspecified)
      ∷ [];
  proposal_creation_timestamp_seconds = 100;
  initial_voting_period_seconds = 50;
  current_deadline_timestamp_seconds = none;
  latest_tally = none;
  decided_timestamp_seconds = 0;
  executed_timestamp_seconds = 0;
  failed_timestamp_seconds = 0;
  reward_event_round = 0;
  reward_event_end_timestamp_seconds = none;
  is_eligible_for_rewards = true;
  minimum_yes_proportion_of_total = none;
  minimum_yes_proportion_of_exercised = none;
}

abbrev neurons : List SnsNeuron
neurons = neuron_of 7 ∷ neuron_of 8 ∷ neuron_of 9 ∷ neuron_of 10 ∷ []

votable-example : votable_sns_neurons neurons proposal "owner" ≡ neuron_of 7 ∷ neuron_of 9 ∷ []
unfolding votable_sns_neurons has_permission_to_vote get_sns_neuron_id_as_hex_string
votable-example = refl

votable_sns_neurons-eq_example :
    votable_sns_neurons neurons proposal "owner"
    ≡ filter
        (λ n.
          not (is_some (sns_neurons_ineligibility_reasons n proposal "owner"))
          && not (contains (voted_neuron_ids proposal) (text_id n)))
        neurons
votable_sns_neurons-eq_example =
    votable_sns_neurons-eq neurons proposal "owner" (refl, (refl, (refl, tt)))

votable-after_vote_example :
    votable_sns_neurons neurons (proposal_after_vote 9 proposal (neuron_of 9 ∷ []) vote_yes) "owner"
    ≡ filter
        (λ n.
          is_votable proposal "owner" n
          && not (contains (map text_id (neuron_of 9 ∷ [])) (text_id n)))
        neurons
votable-after_vote_example =
    votable-after_vote 9 proposal vote_yes neurons (neuron_of 9 ∷ []) "owner" refl

-- a subaccount of 32 bytes: the last two are the number's
abbrev padded : ℕ → List ℕ → List ℕ
padded zero bytes = bytes
padded (suc n) bytes = 0 ∷ padded n bytes

abbrev two_bytes : ℕ → List ℕ
two_bytes i = i / 256 % 256 ∷ i % 256 ∷ []

abbrev subaccount : ℕ → List ℕ
subaccount i = padded 30 (two_bytes i)

subaccount-length : (i : ℕ) → length (subaccount i) ≡ 32
subaccount-length i = refl

byte_at : ℕ → List ℕ → ℕ
byte_at k [] = 0
byte_at zero (b ∷ bs) = b
byte_at (suc k) (b ∷ bs) = byte_at k bs

All-padded :
    (n : ℕ) (bytes : List ℕ)
    → All (λ byte. byte < 256) bytes
    → All (λ byte. byte < 256) (padded n bytes)
All-padded zero bytes h = h
All-padded (suc n) bytes h = (omega arith, All-padded n bytes h)

subaccount-apart :
    (i j : ℕ)
    → i < max_neurons_subaccounts
    → j < max_neurons_subaccounts
    → subaccount i ≡ subaccount j
    → i ≡ j
unfolding byte_at
subaccount-apart i j hi hj e =
    let high : i / 256 % 256 ≡ j / 256 % 256 = ap (byte_at 30) e in
    let low : i % 256 ≡ j % 256 = ap (byte_at 31) e in omega (arith, high, low)

subaccount-Distinguishes : Distinguishes subaccount neurons
subaccount-Distinguishes = record {
  bytes = λ i h. All-padded 30 (two_bytes i) (omega arith, (omega arith, tt));
  apart = subaccount-apart;
}

next_memo-first_free_example :
    (i : ℕ) × (next_memo subaccount neurons ≡ returns i)
    × (is_free subaccount neurons i ≡ true)
    × (i < max_neurons_subaccounts)
    × ((j : ℕ) → j < i → is_free subaccount neurons j ≡ false)
next_memo-first_free_example =
    next_memo-first_free subaccount neurons subaccount-Distinguishes (omega arith)
