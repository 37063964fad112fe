-- ===== src/SnsSwap/Tests.antt =====
-- The participation of a user in a swap, run with answers of the canisters.
use nns_dapp.Common.{
  ℕ, ◌<◌, get_or_else, ◌+◌, ◌≤◌, ◌≡◌, ◌↔◌, refl, Bool, true, false, not, ◌&&◌, ◌||◌, none, some, [],
  ◌∷◌, String, string_has_eq, ◌==◌, lookup, ltb_ℤ, pos, Outcome, returns, throws, if◌then◌else◌,
}
use nns_dapp.Polling.{PollError, other, Environment, poll}
use nns_dapp.NnsNeurons.{main}
use nns_dapp.SnsSwap.{
  lifecycle_open, SnsSummary, SnsSwapCommitment, SnsFullProject, get_commitment_e8s,
  current_user_max_commitment, commitment_too_small, valid_participation, TicketValue, ticket_null,
  ticket, country, enabled, participate_button_status, is_project_open, set_ticket,
}
use nns_dapp.SnsSwap.Commitments.{
  valid_participation_iff, valid_participation-within_max, participate_button_status-enabled,
  Allowed,
}
use nns_dapp.SnsSwap.Sale.{
  NotifyFailure, tx_duplicate, SnsSwapTicket, TicketAccount, SaleAccount, SaleState, SaleReplies,
  should_stop_transfer,
}
use nns_dapp.SnsSwap.Participation.{
  participate_in_sns_sale, initiate_sns_sale_participation, restore_sns_sale_participation,
  is_internal_message, is_internal_poll_error,
}
use nns_dapp.SnsSwap.Participation.Payments.{
  is_returned, is_paid, is_too_old, lacks_funds, is_internal, failures, notified, finished, paid,
  participate_in_sns_sale-success, participate_in_sns_sale-tickets,
  participate_in_sns_sale-failures,
}
use nns_dapp.SnsSwap.Participation.Flows.{
  initiate_sns_sale_participation-refused, initiate_sns_sale_participation-returns,
  restore_sns_sale_participation-waits,
}

abbrev summary : SnsSummary
summary = record {
  lifecycle = lifecycle_open;
  swap_canister_id = "swap";
  min_participant_icp_e8s = 10;
  max_participant_icp_e8s = 100;
  max_icp_e8s = 1000;
  buyer_total_icp_e8s = 950;
  denied_countries = "US" ∷ [];
  confirmation_text = none;
}

abbrev project : SnsFullProject
project = record { summary = summary; swap_commitment = some (record { my_commitment = some 20 }) }

abbrev always : {E T : Type 0} → Outcome (PollError E) T → Environment E T
always answer = record {
  answer = λ k. answer;
  cancelled_while_waiting = λ k. false;
  cancelled_while_calling = λ k. false;
}

abbrev account : TicketAccount
account = record { owner = some "me"; subaccount = none }

abbrev small_ticket : SnsSwapTicket
small_ticket = record {
  amount_icp_e8s = 30;
  account = some account;
  creation_time = 7;
  ticket_id = 3;
}

-- the transfer was made before, the notification is answered
abbrev answering : Outcome (PollError NotifyFailure) ℕ → SaleReplies
answering notification = record {
  principal = "me";
  transaction_fee = 1;
  projects = λ root. if root == "root" then some project else none;
  accounts = record { identifier = "a"; account_type = main; balance = 40; subaccount = none } ∷ [];
  swap_canister_account = λ controller swap. swap;
  send_icp = λ request. always (throws (other tx_duplicate));
  notify_participation = λ root text. always notification;
  new_sale_ticket = λ request. always (returns small_ticket);
  get_open_ticket = λ swap certified. always (returns none);
  postprocessed = true;
}

abbrev replies : SaleReplies
replies = answering (returns 50)

abbrev refusing : SaleReplies
refusing = answering (throws (other (some "New balance: 0")))

abbrev my_account : ℕ → SaleAccount
my_account balance = record {
  identifier = "a";
  account_type = main;
  balance = balance;
  subaccount = none;
}

abbrev state : SaleState
state = record {
  tickets = ("root", ticket small_ticket) ∷ ("other", ticket small_ticket) ∷ [];
  polls = record {
    current_polls = [];
    toasts = [];
    next_toast = 0;
    high_load_toast = none;
    calls = 0;
    waited = 0;
  };
  toasts = [];
  steps = [];
  requests = [];
}

internal-example : is_internal_message (some "Error: New balance: 12") ≡ true
unfolding is_internal_message
internal-example = refl

not_internal-example : is_internal_message (some "New balance") ≡ false
unfolding is_internal_message
not_internal-example = refl

run-example :
    (initiate_sns_sale_participation replies 30 "root" (my_account 40) 20 state).0 ≡ returns true
unfolding initiate_sns_sale_participation poll should_stop_transfer set_ticket
run-example = refl

valid_participation_iff_example :
    (valid_participation (some project) 30 ≡ none)
    ↔ ((is_project_open summary ≡ true) × (10 ≤ 50) × (50 ≤ 100) × (980 ≤ 1000))
unfolding get_commitment_e8s
valid_participation_iff_example = valid_participation_iff project 30

valid_participation-within_max_example : (valid_participation (some project) 30 ≡ none) ↔ (
    (is_project_open summary ≡ true)
    × (commitment_too_small project 30 ≡ false)
    × (ltb_ℤ (current_user_max_commitment summary project.swap_commitment) (pos 30) ≡ false))
valid_participation-within_max_example = valid_participation-within_max project 30

abbrev commitment : SnsSwapCommitment
commitment = record { my_commitment = some 20 }

abbrev no_ticket : TicketValue SnsSwapTicket
no_ticket = ticket_null

participate_button_status-enabled_example :
    (participate_button_status {K = SnsSwapTicket}
        (some summary)
        (some commitment)
        true
        no_ticket
        (country "CH")
      ≡ enabled)
    ↔ ((s : SnsSummary) × (c : SnsSwapCommitment) × (some summary ≡ some s)
        × (some commitment ≡ some c)
        × (true ≡ true)
        × (s.lifecycle ≡ lifecycle_open)
        × (get_or_else c.my_commitment 0 < s.max_participant_icp_e8s)
        × (no_ticket ≡ ticket_null)
        × Allowed s (country "CH"))
participate_button_status-enabled_example =
    participate_button_status-enabled (some summary) (some commitment) true no_ticket (country "CH")

participate_in_sns_sale-success_example :
    ((participate_in_sns_sale replies "root" "swap" 20 small_ticket state).0 ≡ returns true) ↔ (
      (is_paid (paid replies "root" 20 small_ticket "swap" account state).0
        && finished replies "root" 20 small_ticket
            (paid replies "root" 20 small_ticket "swap" account state).1)
      ≡ true)
participate_in_sns_sale-success_example =
    participate_in_sns_sale-success replies "root" 20 small_ticket "swap" account state refl refl

abbrev same : String → String → Bool
same a b = a == b

participate_in_sns_sale-tickets_example :
    lookup "other" (participate_in_sns_sale replies "root" "swap" 20 small_ticket state).1.tickets
    ≡ (if (not (is_paid (paid replies "root" 20 small_ticket "swap" account state).0)
            || finished replies "root" 20 small_ticket
                (paid replies "root" 20 small_ticket "swap" account state).1)
          && same "root" "other"
        then some ticket_null
        else some (ticket small_ticket))
participate_in_sns_sale-tickets_example =
    participate_in_sns_sale-tickets replies "root" 20 small_ticket "swap" account state refl refl
      "other"

participate_in_sns_sale-failures_example :
    failures (participate_in_sns_sale refusing "root" "swap" 20 small_ticket state).1.requests ≡ (
      if lacks_funds (paid refusing "root" 20 small_ticket "swap" account state).0
        || (is_too_old (paid refusing "root" 20 small_ticket "swap" account state).0
            && is_internal
                (notified refusing "root" 20 small_ticket
                  (paid refusing "root" 20 small_ticket "swap" account state).1).0)
      then 0 + 1
      else 0)
participate_in_sns_sale-failures_example =
    participate_in_sns_sale-failures refusing "root" 20 small_ticket "swap" account state refl refl

-- the balance does not cover the fee
initiate_sns_sale_participation-refused_example :
    let (result, s') = initiate_sns_sale_participation replies 30 "root" (my_account 30) 20 state in
    (result ≡ returns false)
    × (s'.polls ≡ state.polls)
    × (s'.requests ≡ [])
    × (lookup "root" s'.tickets ≡ some ticket_null)
unfolding valid_participation
initiate_sns_sale_participation-refused_example =
    initiate_sns_sale_participation-refused replies "root" 30 (my_account 30) 20 state refl

initiate_sns_sale_participation-returns_example :
    let (result, s') = initiate_sns_sale_participation replies 30 "root" (my_account 40) 20 state in
    (is_returned result ≡ true)
    × (result ≡ returns true → lookup "root" s'.tickets ≡ some ticket_null)
    × ((r : String) → ("root" == r) ≡ false → lookup r s'.tickets ≡ lookup r state.tickets)
initiate_sns_sale_participation-returns_example =
    initiate_sns_sale_participation-returns replies "root" 30 (my_account 40) 20 state

made : is_paid (paid refusing "root" 20 small_ticket "swap" account state).0 ≡ true
unfolding poll should_stop_transfer
made = refl

unfinished :
    finished refusing "root" 20 small_ticket
      (paid refusing "root" 20 small_ticket "swap" account state).1
    ≡ false
unfolding poll should_stop_transfer is_internal_poll_error
unfinished = refl

restore_sns_sale_participation-waits_example :
    let s' = (participate_in_sns_sale refusing "root" "swap" 20 small_ticket state).1 in
    (lookup "root" s'.tickets ≡ some (ticket small_ticket))
    × (restore_sns_sale_participation refusing "root" "swap" 20 s' ≡ (returns tt, s'))
restore_sns_sale_participation-waits_example =
    restore_sns_sale_participation-waits refusing "root" "swap" 20 small_ticket account state refl
      refl refl made unfinished 20
