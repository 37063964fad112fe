-- ===== src/NnsNeurons/Rewards/Tests.antt =====
-- A neuron that was refreshed long ago: a second before and at the two deadlines.
use nns_dapp.Common.{◌≡◌, refl, true, false, none, some, []}
use nns_dapp.NnsNeurons.{NeuronInfo, locked}
use nns_dapp.NnsNeurons.Rewards.{is_neuron_losing_rewards, should_display_reward_loss_notification}

abbrev neuron : NeuronInfo
neuron = record {
  neuron_id = 1;
  neuron_type = none;
  state = locked;
  dissolve_delay_seconds = 0;
  created_timestamp_seconds = 0;
  joined_community_fund_timestamp_seconds = none;
  full_neuron = some (record {
    controller = none;
    hot_keys = [];
    cached_neuron_stake = 100;
    neuron_fees = 0;
    maturity_e8s_equivalent = 0;
    staked_maturity_e8s_equivalent = none;
    followees = [];
    voting_power_refreshed_timestamp_seconds = some 1_000;
  });
}

not_yet_losing : is_neuron_losing_rewards 15_779_799 neuron ≡ false
unfolding is_neuron_losing_rewards
not_yet_losing = refl

losing : is_neuron_losing_rewards 15_779_800 neuron ≡ true
unfolding is_neuron_losing_rewards
losing = refl

not_yet_noticed : should_display_reward_loss_notification 13_187_799 neuron ≡ false
unfolding should_display_reward_loss_notification
not_yet_noticed = refl

noticed : should_display_reward_loss_notification 13_187_800 neuron ≡ true
unfolding should_display_reward_loss_notification
noticed = refl
