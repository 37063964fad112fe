-- ===== src/VoteRegistration/Tests.antt =====
-- A vote of two neurons on one proposal, and the theorems at it. The vote is a number.
use nns_dapp.Common.{
  ℕ, ◌≡◌, ◌≢◌, refl, true, false, [], ◌∷◌, String, string_has_eq, unique_from, state_after, arith,
}
use text.Mathlib.TextEquality.{eq_iff}
use nns_dapp.VoteRegistration.{
  Registrations, add, add_successfully_voted_neuron_id, remove, neuron_voting,
}
use nns_dapp.VoteRegistration.Entries.{
  Reaches, start, adding, voting, IsValid, registrations-IsValid,
}

abbrev vote : ℕ
vote = 1

abbrev begun : Registrations ℕ
begun = state_after (add "nns" "p1" ("n1" ∷ "n2" ∷ []) vote []) []

abbrev halfway : Registrations ℕ
halfway = state_after (add_successfully_voted_neuron_id "nns" "p1" "n1" begun) begun

abbrev ended : Registrations ℕ
ended = state_after (remove "nns" "p1" begun) begun

halfway_voting :
    (neuron_voting "nns" "n1" halfway ≡ false) × (neuron_voting "nns" "n2" halfway ≡ true)
unfolding neuron_voting add add_successfully_voted_neuron_id unique_from
halfway_voting = (refl, refl)

halfway-Reaches : Reaches halfway
unfolding add add_successfully_voted_neuron_id
halfway-Reaches = voting "nns" "p1" "n1" (adding "nns" "p1" ("n1" ∷ "n2" ∷ []) vote start refl) refl

registrations-IsValid_example : IsValid halfway
registrations-IsValid_example = registrations-IsValid halfway-Reaches

nns_ne_sns : ◌≢◌ {A = String} "nns" "sns"
nns_ne_sns h = ground (arith, eq_iff "nns" "sns")
