-- ===== src/SnsNeurons/Splitting.antt =====
-- frontend/src/lib/utils/sns-neuron.utils.ts: when a neuron can be split. The fee and the minimum
-- stake are bigints that are not negative.
use nns_dapp.Common.{ℕ, ◌+◌, ◌*◌, ◌≤◌, ◌≡◌, ◌↔◌, Bool, true, not, leb, pos, ltb_ℤ, arith}
use nns_dapp.SnsNeurons.{SnsNeuron, get_sns_neuron_stake}

pub min_neuron_splittable : ℕ → ℕ → ℕ
min_neuron_splittable fee neuron_minimum_stake = 2 * neuron_minimum_stake + fee

pub is_enough_amount_to_split : ℕ → ℕ → ℕ → Bool
is_enough_amount_to_split amount fee neuron_minimum_stake = leb (neuron_minimum_stake + fee) amount

-- `>=` on bigints
pub has_enough_stake_to_split : SnsNeuron → ℕ → ℕ → Bool
unfolding min_neuron_splittable get_sns_neuron_stake
has_enough_stake_to_split neuron fee neuron_minimum_stake =
    not (ltb_ℤ (get_sns_neuron_stake neuron) (pos (min_neuron_splittable fee neuron_minimum_stake)))

-- A neuron has enough stake to be split if and only if there is an amount that is enough to split
-- off and that leaves at least the minimum stake to the neuron.
pub has_enough_stake_to_split_iff :
    (neuron : SnsNeuron) (fee minimum : ℕ)
    → (has_enough_stake_to_split neuron fee minimum ≡ true) ↔ (
        (amount : ℕ) × (is_enough_amount_to_split amount fee minimum ≡ true)
        × (amount + minimum + neuron.neuron_fees_e8s ≤ neuron.cached_neuron_stake_e8s))
unfolding has_enough_stake_to_split is_enough_amount_to_split min_neuron_splittable
    get_sns_neuron_stake
has_enough_stake_to_split_iff neuron fee minimum =
    (λ h. (minimum + fee, ground arith, ground arith), λ (amount, enough, left). ground arith)
