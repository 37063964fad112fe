-- ===== src/VoteRegistration/Nns/Tests.antt =====
-- Votes of two neurons of the NNS, and the theorems at them. A store of toasts is a counter and a
-- function, a vote is a number, and errors are strings.
use nns_dapp.Common.{
  ℕ, ◌+◌, nat_has_eq, string_has_eq, ◌≡◌, refl, Bool, true, Option, none, some, [], ◌∷◌, String,
  ◌==◌, ◌&&◌, is_some, ltb, if◌then◌else◌, arith,
}
use nns_dapp.VoteRegistration.Managing.{
  ToastMessage, ToastStore, VoteError, call_error, resolved, rejected, Voting, Setting, Ballots,
}
use nns_dapp.VoteRegistration.Nns.{Replies, all_settled, register_nns_votes}
use nns_dapp.VoteRegistration.Nns.Outcomes.{CleanedUp, register_nns_votes-cleans_up}

abbrev Toasts : Type 0
Toasts = ℕ × (ℕ → Option ToastMessage)

abbrev toast_store : ToastStore Toasts
toast_store = record {
  show_toast = λ m t. (t.0, (t.0 + 1, λ i. if t.0 == i then some m else t.1 i));
  update =
      λ j m t. (t.0, λ i. if (j == i) && (ltb i t.0 && is_some (t.1 i)) then some m else t.1 i);
  hide_toast = λ j t. (t.0, λ i. if j == i then none else t.1 i);
  visible = λ i t. if ltb i t.0 then t.1 i else none;
  show_fresh = λ m t. ground arith;
  visible-show = λ m i t. ground arith;
  visible-update = λ m i j t. ground arith;
  visible-hide = λ i j t. ground arith;
}

abbrev text_of : VoteError String → Option String
text_of (call_error e) = some e
text_of _ = none

abbrev setting : Setting ℕ Toasts String
setting = record {
  toast_store = toast_store;
  is_yes = λ v. v == 1;
  error_to_string = text_of;
  reason_text = λ i e. "failed";
}

abbrev ballots : Ballots ℕ
ballots = record {
  universe = "nns";
  neuron_id_strings = "1" ∷ "2" ∷ "3" ∷ [];
  proposal_id_string = "7";
  proposal_type = "Motion";
  vote = 1;
}

-- the second neuron has voted before, the call for the third fails
abbrev replies : Bool → Replies String
replies reloaded = record {
  identity = resolved tt;
  arrivals =
      ("2", rejected (call_error "Neuron already voted on proposal."))
      ∷ ("1", resolved tt)
      ∷ ("3", rejected (call_error "no answer"))
      ∷ [];
  stored_type = "";
  list_neurons = resolved tt;
  reloaded = reloaded;
}

abbrev idle : Voting ℕ Toasts
idle = record { registrations = []; toasts = (0, λ i. none) }

register_nns_votes-cleans_up_example :
    (s' : Voting ℕ Toasts) × (register_nns_votes setting ballots (replies true) idle
      ≡ (resolved tt, s'))
    × CleanedUp setting ballots (replies true) idle s'
unfolding all_settled
register_nns_votes-cleans_up_example =
    register_nns_votes-cleans_up setting ballots (replies true) idle refl refl
