-- ===== src/NnsNeurons/Tests.antt =====
-- Runs on concrete neurons, for frontend/src/lib/utils/neuron.utils.ts.
use nns_dapp.Common.{ℕ, ◌≡◌, refl, nat_has_eq, none, some, List, [], ◌∷◌}
use nns_dapp.Sorting.{sort, insert_sorted}
use nns_dapp.NnsNeurons.{
  Followees, NeuronInfo, locked, compare_neurons, sort_neurons_by_stake, neuron_stake,
}
use nns_dapp.NnsNeurons.Following.{
  topics_for, followees_neurons, followed_topics, followees_of, topics_for-followees_neurons,
}

abbrev neuron_of : ℕ → ℕ → List Followees → NeuronInfo
neuron_of id stake follows = record {
  neuron_id = id;
  neuron_type = none;
  state = locked;
  dissolve_delay_seconds = 100;
  created_timestamp_seconds = id;
  joined_community_fund_timestamp_seconds = none;
  full_neuron = some record {
    controller = some "aaaaa-aa";
    hot_keys = [];
    cached_neuron_stake = stake;
    neuron_fees = 5;
    maturity_e8s_equivalent = 0;
    staked_maturity_e8s_equivalent = none;
    followees = follows;
    voting_power_refreshed_timestamp_seconds = none;
  };
}

abbrev follower : NeuronInfo
follower =
    neuron_of 1 10
      (record { topic = 4; followees = 7 ∷ 8 ∷ [] } ∷ record { topic = 9; followees = 8 ∷ [] } ∷ [])

topics-example : topics_for 8 (followees_neurons follower) ≡ 4 ∷ 9 ∷ []
unfolding topics_for followees_neurons
topics-example = refl

topics_for-followees_neurons_example :
    topics_for 8 (followees_neurons follower)
    ≡ followed_topics 8 (followees_of follower.full_neuron)
topics_for-followees_neurons_example = topics_for-followees_neurons 8 follower

abbrev poor : NeuronInfo
poor = neuron_of 2 3 []

sorted-example : sort_neurons_by_stake (poor ∷ follower ∷ []) ≡ follower ∷ poor ∷ []
unfolding sort_neurons_by_stake sort insert_sorted compare_neurons neuron_stake
sorted-example = refl
