-- ===== src/SnsNeurons/Dissolving.antt =====
-- frontend/src/lib/utils/sns-neuron.utils.ts: the state of a neuron, how long it still dissolves and
-- whether it still vests. The clock is read anew by each call: `now` is the time when the state is
-- asked for, `later` the time when it is subtracted.
use nns_dapp.Common.{
  ℕ, ◌+◌, ◌-◌, ◌≤◌, ◌≡◌, Bool, Option, none, some, get_or_else, ltb, nat_has_eq, ◌==◌,
  if◌then◌else◌, ℤ, pos, difference, ltb_ℤ, arith,
}
use nns_dapp.NnsNeurons.{NeuronState, locked, dissolving, dissolved}
use nns_dapp.SnsNeurons.{
  DissolveState, dissolve_delay_seconds, when_dissolved_timestamp_seconds, SnsNeuron,
}

pub get_sns_neuron_state : ℕ → SnsNeuron → NeuronState
get_sns_neuron_state now neuron = elim neuron.dissolve_state [
  | none ↦ dissolved
  | some (dissolve_delay_seconds delay) ↦ if delay == 0 then dissolved else locked
  | some (when_dissolved_timestamp_seconds time) ↦ if ltb time now then dissolved else dissolving
]

abbrev when_dissolving : NeuronState → Option DissolveState → Option ℕ
when_dissolving dissolving (some (when_dissolved_timestamp_seconds time)) = some time
when_dissolving _ _ = none

abbrev when_locked : NeuronState → Option DissolveState → Option ℕ
when_locked locked (some (dissolve_delay_seconds delay)) = some delay
when_locked _ _ = none

pub get_sns_dissolving_timestamp_seconds : ℕ → SnsNeuron → Option ℕ
unfolding get_sns_neuron_state
get_sns_dissolving_timestamp_seconds now neuron =
    when_dissolving (get_sns_neuron_state now neuron) neuron.dissolve_state

pub get_sns_dissolving_time_in_seconds : ℕ → ℕ → SnsNeuron → Option ℤ
unfolding get_sns_dissolving_timestamp_seconds
get_sns_dissolving_time_in_seconds now later neuron =
    elim (get_sns_dissolving_timestamp_seconds now neuron) [
      | none ↦ none
      | some time ↦ some (difference time later)
    ]

pub get_sns_locked_time_in_seconds : ℕ → SnsNeuron → Option ℕ
unfolding get_sns_neuron_state
get_sns_locked_time_in_seconds now neuron =
    when_locked (get_sns_neuron_state now neuron) neuron.dissolve_state

-- the clock is read a third time, at `last`, for the state of a neuron that is not dissolving
pub get_sns_dissolve_delay_seconds : ℕ → ℕ → ℕ → SnsNeuron → ℤ
unfolding get_sns_dissolving_time_in_seconds get_sns_locked_time_in_seconds
get_sns_dissolve_delay_seconds now later last neuron =
    let delay : ℤ = elim (get_sns_dissolving_time_in_seconds now later neuron) [
      | some time ↦ time
      | none ↦ elim (get_sns_locked_time_in_seconds last neuron) [
        | some time ↦ pos time
        | none ↦ pos 0
      ]
    ] in
    if ltb_ℤ (pos 0) delay then delay else pos 0

-- `Math.max(…, 0)` of the difference
pub vesting_in_seconds : ℕ → SnsNeuron → ℕ
vesting_in_seconds now neuron =
    neuron.created_timestamp_seconds + get_or_else neuron.vesting_period_seconds 0 - now

is_vesting : ℕ → SnsNeuron → Bool
unfolding vesting_in_seconds
is_vesting now neuron = ltb 0 (vesting_in_seconds now neuron)

-- the time that a neuron still needs to dissolve, on a clock that stands still
abbrev pub remaining : ℕ → Option DissolveState → ℕ
remaining now none = 0
remaining now (some (dissolve_delay_seconds delay)) = delay
remaining now (some (when_dissolved_timestamp_seconds time)) = time - now

-- The dissolve delay is the time that remains when the time is subtracted, 0 once it has passed,
-- however often and late the clock is read before.
pub get_sns_dissolve_delay_seconds-eq :
    (now later last : ℕ) (neuron : SnsNeuron)
    → now ≤ later
    → get_sns_dissolve_delay_seconds now later last neuron
      ≡ pos (remaining later neuron.dissolve_state)
unfolding get_sns_dissolve_delay_seconds get_sns_dissolving_time_in_seconds
    get_sns_locked_time_in_seconds get_sns_dissolving_timestamp_seconds get_sns_neuron_state
get_sns_dissolve_delay_seconds-eq now later last neuron h = ground arith
