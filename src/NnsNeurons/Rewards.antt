-- ===== src/NnsNeurons/Rewards.antt =====
-- frontend/src/lib/utils/neuron.utils.ts: when a neuron loses rewards, when it can be split and
-- topped up, whom it follows on a topic, and when maturity was distributed. `now` is the time of the
-- clock in seconds.
mod Tests
use nns_dapp.Common.{
  ℕ, ◌+◌, ◌*◌, ◌/◌, Bool, true, false, not, Option, none, some, List, [], ◌∷◌, nat_has_eq, ◌==◌,
  filter, find?, contains, length, ltb, leb, get_or_else, is_some, ℤ, pos, negsuc, difference,
  ltb_ℤ, nonpos, if◌then◌else◌,
}
use nns_dapp.NnsNeurons.{NeuronInfo, Followees, neuron_stake}

abbrev pub seconds_in_day : ℕ
seconds_in_day = 86_400

-- half of `SECONDS_IN_YEAR`, which is a quarter of four years of 365 days and one day
abbrev pub start_reducing_voting_power_after_seconds : ℕ
start_reducing_voting_power_after_seconds = (4 * 365 + 1) * seconds_in_day / 4 / 2

abbrev pub notification_period_before_reward_loss_starts_days : ℕ
notification_period_before_reward_loss_starts_days = 30

abbrev pub min_neuron_stake : ℕ
min_neuron_stake = 100_000_000

unfoldable pub get_voting_power_refreshed_timestamp_seconds : ℕ → NeuronInfo → ℕ
get_voting_power_refreshed_timestamp_seconds now neuron = elim neuron.full_neuron [
  | none ↦ now
  | some n ↦ get_or_else n.voting_power_refreshed_timestamp_seconds now
]

unfoldable pub seconds_until_losing_rewards : ℕ → NeuronInfo → ℤ
unfolding get_voting_power_refreshed_timestamp_seconds
seconds_until_losing_rewards now neuron =
    let reward_loss_start =
      get_voting_power_refreshed_timestamp_seconds now neuron
      + start_reducing_voting_power_after_seconds in
    difference reward_loss_start now

unfoldable pub is_neuron_losing_rewards : ℕ → NeuronInfo → Bool
unfolding seconds_until_losing_rewards
is_neuron_losing_rewards now neuron = nonpos (seconds_until_losing_rewards now neuron)

unfoldable pub should_display_reward_loss_notification : ℕ → NeuronInfo → Bool
unfolding seconds_until_losing_rewards
should_display_reward_loss_notification now neuron = not (
    ltb_ℤ (pos (notification_period_before_reward_loss_starts_days * seconds_in_day))
      (seconds_until_losing_rewards now neuron))

abbrev min_nns_neuron_splittable : ℕ → ℕ
min_nns_neuron_splittable fee = 2 * min_neuron_stake + fee

neuron_can_be_split : ℕ → NeuronInfo → Bool
unfolding neuron_stake
neuron_can_be_split fee neuron =
    not (ltb_ℤ (neuron_stake neuron) (pos (min_nns_neuron_splittable fee)))

is_enough_to_stake_neuron : ℕ → ℕ → Bool
is_enough_to_stake_neuron stake fee = leb (min_neuron_stake + fee) stake

-- the amount in e8s
valid_top_up_amount : ℕ → NeuronInfo → Bool
valid_top_up_amount amount neuron = elim neuron.full_neuron [
  | none ↦ ltb min_neuron_stake amount
  | some n ↦ ltb min_neuron_stake (amount + n.cached_neuron_stake)
]

followees_by_topic : NeuronInfo → ℕ → Option (List ℕ)
followees_by_topic neuron topic = elim neuron.full_neuron [
  | none ↦ none
  | some n ↦ elim (find? (λ (f : Followees). topic == f.topic) n.followees) [
    | none ↦ none
    | some f ↦ some f.followees
  ]
]

user_authorized_neuron : NeuronInfo → Bool
user_authorized_neuron neuron = is_some neuron.full_neuron

-- the fields of `RewardEvent` that are read, and the number of settled proposals
pub record RewardEvent : Type 0 where
  pub actual_timestamp_seconds : ℕ
  pub rounds_since_last_distribution : Option ℕ
  pub settled_proposals : ℕ

maturity_last_distribution : RewardEvent → ℤ
maturity_last_distribution e =
    if ltb 0 e.settled_proposals
    then pos e.actual_timestamp_seconds
    else difference e.actual_timestamp_seconds
        (get_or_else e.rounds_since_last_distribution 1 * seconds_in_day)
