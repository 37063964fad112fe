-- ===== src/NnsNeurons/Stakes.antt =====
-- frontend/src/lib/utils/neuron.utils.ts, `sortNeuronsByStake` and
-- `sortNeuronsByVotingPowerRefreshedTimeout`.
use nns_dapp.Common.{ℕ, ◌≡◌, sym, subst, fun_ext, List, [], ◌∷◌, Perm, arith}
use nns_dapp.Sorting.{
  nat_comparable, int_comparable, Comparator, merge_comparators, create_descending_comparator, sort,
  ltb_asym, ltb_ℤ_asym,
}
use nns_dapp.Sorting.Order.{
  Consistent, merge-Consistent, descending-Consistent, ascending-Consistent,
}
use nns_dapp.Sorting.Sorted.{IsSorted, sort-IsSorted, sort-Perm}
use nns_dapp.NnsNeurons.{
  NeuronInfo, neuron_stake, refreshed_at, compare_neurons, sort_neurons_by_stake,
  compare_by_refreshed_timeout, sort_neurons_by_voting_power_refreshed_timeout,
}

abbrev dissolve_delay : NeuronInfo → ℕ
dissolve_delay neuron = neuron.dissolve_delay_seconds

abbrev created : NeuronInfo → ℕ
created neuron = neuron.created_timestamp_seconds

-- by decreasing stake, then dissolve delay, then time of creation
abbrev pub by_stake : Comparator NeuronInfo
by_stake = merge_comparators (
    create_descending_comparator neuron_stake
    ∷ create_descending_comparator dissolve_delay
    ∷ create_descending_comparator created
    ∷ [])

-- `compareNeurons`, a chain of comparisons, is the merge of three comparators: of decreasing
-- stake, of decreasing dissolve delay and of decreasing time of creation.
pub compare_neurons-eq-by_stake : (a b : NeuronInfo) → compare_neurons a b ≡ by_stake a b
unfolding compare_neurons merge_comparators create_descending_comparator
compare_neurons-eq-by_stake a b = ground (
  arith,
  ltb_ℤ_asym (neuron_stake a) (neuron_stake b),
  ltb_asym a.dissolve_delay_seconds b.dissolve_delay_seconds,
  ltb_asym a.created_timestamp_seconds b.created_timestamp_seconds,
)

by_stake-Consistent : Consistent by_stake
by_stake-Consistent =
    merge-Consistent
      (create_descending_comparator neuron_stake
        ∷ create_descending_comparator dissolve_delay
        ∷ create_descending_comparator created
        ∷ [])
      (
        descending-Consistent neuron_stake,
        (descending-Consistent dissolve_delay, (descending-Consistent created, tt)),
      )

compare_neurons-Consistent : Consistent compare_neurons
compare_neurons-Consistent =
    subst Consistent (sym (fun_ext (λ a. fun_ext (λ b. compare_neurons-eq-by_stake a b))))
      by_stake-Consistent

-- `sortNeuronsByStake` returns the same neurons, none of which stands behind one that has a
-- smaller stake, or the same stake and a smaller dissolve delay, or both the same and an earlier
-- time of creation.
pub sort_neurons_by_stake-IsSorted :
    (neurons : List NeuronInfo)
    → IsSorted by_stake (sort_neurons_by_stake neurons)
      × Perm (sort_neurons_by_stake neurons) neurons
unfolding sort_neurons_by_stake
sort_neurons_by_stake-IsSorted neurons = (
  subst (λ c. IsSorted c (sort compare_neurons neurons))
      (fun_ext (λ a. fun_ext (λ b. compare_neurons-eq-by_stake a b)))
      (sort-IsSorted compare_neurons compare_neurons-Consistent neurons),
  sort-Perm compare_neurons neurons,
)

-- `sortNeuronsByVotingPowerRefreshedTimeout` returns the same neurons, first those whose voting
-- power was refreshed the longest ago, and those of one time as `sortNeuronsByStake` orders them.
sort_neurons_by_timeout-IsSorted :
    (neurons : List NeuronInfo)
    → IsSorted compare_by_refreshed_timeout (sort_neurons_by_voting_power_refreshed_timeout neurons)
      × Perm (sort_neurons_by_voting_power_refreshed_timeout neurons) neurons
unfolding sort_neurons_by_voting_power_refreshed_timeout
sort_neurons_by_timeout-IsSorted neurons = (
  sort-IsSorted compare_by_refreshed_timeout
      (merge-Consistent _ (ascending-Consistent refreshed_at, (compare_neurons-Consistent, tt)))
      neurons,
  sort-Perm compare_by_refreshed_timeout neurons,
)
