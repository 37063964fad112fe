-- ===== src/Merging/Tests.antt =====
-- Runs on concrete neurons, for the merging rules of frontend/src/lib/utils/neuron.utils.ts.
use nns_dapp.Common.{
  ℕ, ◌≡◌, refl, nat_has_eq, string_has_eq, option_has_eq, true, none, some, List, [], ◌∷◌, All,
  unique_from, decimal,
}
use nns_dapp.Sorting.{sort}
use nns_dapp.NnsNeurons.{
  NeuronState, locked, dissolving, NeuronInfo, main, IcpAccounts, has_joined_community_fund,
  is_spawning, is_locked, is_neuron_controllable,
}
use nns_dapp.Merging.{is_mergeable_neuron, can_be_merged, confirm_selection, shown_neurons, click}
use nns_dapp.Merging.Selection.{click_all, confirmed_selection_is_valid}

abbrev neuron_of : ℕ → NeuronState → List ℕ → NeuronInfo
neuron_of id state follows = record {
  neuron_id = id;
  neuron_type = none;
  state = state;
  dissolve_delay_seconds = 100;
  created_timestamp_seconds = 7;
  joined_community_fund_timestamp_seconds = none;
  full_neuron = some record {
    controller = some "aaaaa-aa";
    hot_keys = [];
    cached_neuron_stake = 10;
    neuron_fees = 0;
    maturity_e8s_equivalent = 0;
    staked_maturity_e8s_equivalent = none;
    followees = record { topic = 1; followees = follows } ∷ [];
    voting_power_refreshed_timestamp_seconds = none;
  };
}

abbrev accounts : IcpAccounts
accounts = record {
  main_account = some record { account_type = main; principal = some "aaaaa-aa" };
  hardware_wallets = none;
}

abbrev first : NeuronInfo
first = neuron_of 1 locked (21 ∷ 3 ∷ [])

abbrev second : NeuronInfo
second = neuron_of 2 locked (3 ∷ 21 ∷ [])

abbrev third : NeuronInfo
third = neuron_of 3 dissolving (3 ∷ [])

abbrev listed : List NeuronInfo
listed = first ∷ third ∷ second ∷ []

-- the second click is on a neuron that cannot be merged
selection :
    confirm_selection
      (shown_neurons 1 listed accounts (click_all 1 listed accounts (0 ∷ 1 ∷ 2 ∷ []) []))
      (click_all 1 listed accounts (0 ∷ 1 ∷ 2 ∷ []) [])
    ≡ some (first ∷ second ∷ [])
unfolding confirm_selection click_all shown_neurons click has_joined_community_fund is_spawning
    is_locked is_neuron_controllable unique_from sort decimal
selection = refl

confirmed_selection_is_valid_example :
    ((can_be_merged 1 (first ∷ second ∷ [])).is_valid ≡ true)
    × All (λ n. is_mergeable_neuron n accounts ≡ true) (first ∷ second ∷ [])
confirmed_selection_is_valid_example =
    confirmed_selection_is_valid 1 listed accounts (refl, (refl, (refl, tt))) (0 ∷ 1 ∷ 2 ∷ [])
      (first ∷ second ∷ []) selection
