-- ===== src/SnsSwap/Participation/Payments.antt =====
-- frontend/src/lib/services/sns-sale.services.ts, `participateInSnsSale`: what becomes of a ticket,
-- by what the polls of the transfer and of the notification give.
use nns_dapp.Common.{
  ℕ, ◌+◌, ◌≡◌, ◌↔◌, refl, Bool, true, false, not, ◌&&◌, ◌||◌, Option, some, List, [], ◌∷◌, ◌++◌,
  String, string_has_eq, nat_has_eq, ◌==◌, lookup, lookup-insert, Outcome, returns, throws,
  Outcome-cases, Option-cases, inl, inr, arith, if◌then◌else◌, eqb_refl,
}
use nns_dapp.Polling.{PollError, polling_limit_exceeded, polling_cancelled, other, World, poll}
use nns_dapp.SnsSwap.{set_no_ticket, TicketValue, ticket_null}
use nns_dapp.SnsSwap.Sale.{
  Thrown, transfer, notify, tx_duplicate, insufficient_funds, tx_too_old, tx_created_in_future,
  other_transfer_error, not_transfer_error, SnsSwapTicket, TicketAccount, TransferFailure,
  NotifyFailure, Request, payment_failure, load_balance, postprocess, SaleState, SaleReplies,
  sale_params, should_stop_transfer,
}
use nns_dapp.SnsSwap.Participation.{
  is_internal_message, is_internal_poll_error, is_internal_refresh_buyer_tokens_error,
  conditions_to_accept, poll_transfer, poll_notify_participation,
  notify_participation_and_remove_ticket, remove_open_ticket, source_account, notify_and_finish,
  transfer_of, after_transfer, participate_in_sns_sale,
}

abbrev pub is_returned : {E A : Type 0} → Outcome E A → Bool
is_returned (returns a) = true
is_returned (throws e) = false

-- the payment is made, or was made before
abbrev pub is_paid : Outcome (PollError TransferFailure) ℕ → Bool
is_paid (returns height) = true
is_paid (throws (other tx_duplicate)) = true
is_paid (throws (other tx_too_old)) = true
is_paid (throws _) = false

abbrev pub is_too_old : Outcome (PollError TransferFailure) ℕ → Bool
is_too_old (throws (other tx_too_old)) = true
is_too_old _ = false

abbrev pub lacks_funds : Outcome (PollError TransferFailure) ℕ → Bool
lacks_funds (throws (other insufficient_funds)) = true
lacks_funds _ = false

abbrev pub is_internal : Outcome (PollError NotifyFailure) ℕ → Bool
is_internal (throws e) = is_internal_poll_error e
is_internal (returns n) = false

-- how often the failure of a payment is reported
abbrev pub failures : List Request → ℕ
failures [] = 0
failures (payment_failure root ∷ rs) = 1 + failures rs
failures (load_balance id ∷ rs) = failures rs
failures (postprocess ∷ rs) = failures rs

failures-append : (rs qs : List Request) → failures (rs ++ qs) ≡ failures rs + failures qs
failures-append [] qs = omega arith
failures-append (payment_failure root ∷ rs) qs = omega (arith, failures-append rs qs)
failures-append (load_balance id ∷ rs) qs = failures-append rs qs
failures-append (postprocess ∷ rs) qs = failures-append rs qs

no_limit_message : is_internal_message (some "error.limit_exceeded_getting_open_ticket") ≡ false
unfolding is_internal_message
no_limit_message = refl

module _ (env : SaleReplies) (root : String) (user_commitment : ℕ) (t : SnsSwapTicket) where
  abbrev pub notified : World → Outcome (PollError NotifyFailure) ℕ × World
  notified w =
      poll (sale_params is_internal_poll_error)
        (env.notify_participation root (conditions_to_accept env root)) w

  notify-outcome :
      (has_too_old_error : Bool) (s : SaleState)
      → let (r, s') =
          notify_participation_and_remove_ticket env root has_too_old_error t user_commitment s in
        (r ≡ returns (is_returned (notified s.polls).0))
        × (s'.tickets ≡ s.tickets)
        × (s'.requests ≡ (
            if has_too_old_error && is_internal (notified s.polls).0
            then s.requests ++ payment_failure root ∷ []
            else s.requests))
  unfolding notify_participation_and_remove_ticket poll_notify_participation remove_open_ticket
      is_internal_refresh_buyer_tokens_error is_internal_poll_error
  notify-outcome has_too_old_error s = elim (Outcome-cases (notified s.polls).0) [
    | inl (accepted, e) ↦ (ground (arith, e), ground (arith, e), ground (arith, e))
    | inr (polling_limit_exceeded, e) ↦
        (ground (arith, e), ground (arith, e), ground (arith, e, no_limit_message))
    | inr (polling_cancelled id, e) ↦ (ground (arith, e), ground (arith, e), ground (arith, e))
    | inr (other message, e) ↦ (ground (arith, e), ground (arith, e), ground (arith, e))
  ]

  -- what the poll of the notification gives if it follows a state
  abbrev pub accepted : World → Bool
  accepted w = is_returned (notified w).0

  abbrev pub finished : World → Bool
  finished w = accepted w && env.postprocessed

  abbrev pub ticket_after : String → Bool → SaleState → Option (TicketValue SnsSwapTicket)
  ticket_after r removed s = if removed && (root == r) then some ticket_null else lookup r s.tickets

  finish-outcome :
      (subaccount : Option (List ℕ)) (has_too_old_error : Bool) (s : SaleState) (r : String)
      → let (result, s') =
          notify_and_finish env root user_commitment t subaccount has_too_old_error s in
        ((result ≡ returns true) ↔ (finished s.polls ≡ true))
        × (lookup r s'.tickets ≡ ticket_after r (finished s.polls) s)
        × (failures s'.requests ≡ (
            if has_too_old_error && is_internal (notified s.polls).0
            then failures s.requests + 1
            else failures s.requests))
  unfolding notify_and_finish set_no_ticket
  finish-outcome subaccount has_too_old_error s r =
      let begun : SaleState = record s { steps = s.steps ++ notify ∷ [] } in
      let (result, tickets, requests) = notify-outcome has_too_old_error begun in
      (
        (λ h. ground (arith, result, h), λ h. ground (arith, result, h)),
        ground (arith, result, tickets, lookup-insert root r ticket_null s.tickets),
        elim (Option-cases (source_account env subaccount)) [
          | inl nowhere ↦ ground (
            arith,
            result,
            requests,
            nowhere,
            failures-append s.requests (payment_failure root ∷ []),
            failures-append s.requests (postprocess ∷ []),
          )
          | inr (account, found) ↦ ground (
            arith,
            result,
            requests,
            found,
            failures-append s.requests (payment_failure root ∷ []),
            failures-append s.requests (load_balance account.identifier ∷ []),
            failures-append (s.requests ++ load_balance account.identifier ∷ []) (postprocess ∷ []),
          )
        ],
      )

  after_transfer-outcome :
      (subaccount : Option (List ℕ)) (answer : Outcome (PollError TransferFailure) ℕ)
      (s : SaleState) (r : String)
      → let (result, s') = after_transfer env root user_commitment t subaccount answer s in
        ((result ≡ returns true) ↔ ((is_paid answer && finished s.polls) ≡ true))
        × (lookup r s'.tickets ≡ ticket_after r (not (is_paid answer) || finished s.polls) s)
        × (failures s'.requests ≡ (
            if lacks_funds answer || (is_too_old answer && is_internal (notified s.polls).0)
            then failures s.requests + 1
            else failures s.requests))
  unfolding after_transfer set_no_ticket remove_open_ticket
  after_transfer-outcome subaccount (returns height) s r = finish-outcome subaccount false s r
  after_transfer-outcome subaccount (throws (other tx_duplicate)) s r =
      finish-outcome subaccount false s r
  after_transfer-outcome subaccount (throws (other tx_too_old)) s r =
      finish-outcome subaccount true s r
  after_transfer-outcome subaccount (throws (other insufficient_funds)) s r = (
    (λ h. cc, λ h. cc),
    lookup-insert root r ticket_null s.tickets,
    failures-append s.requests (payment_failure root ∷ []),
  )
  after_transfer-outcome subaccount (throws (other tx_created_in_future)) s r =
      ((λ h. cc, λ h. cc), lookup-insert root r ticket_null s.tickets, refl)
  after_transfer-outcome subaccount (throws (other other_transfer_error)) s r =
      ((λ h. cc, λ h. cc), lookup-insert root r ticket_null s.tickets, refl)
  after_transfer-outcome subaccount (throws (other not_transfer_error)) s r =
      ((λ h. cc, λ h. cc), lookup-insert root r ticket_null s.tickets, refl)
  after_transfer-outcome subaccount (throws polling_limit_exceeded) s r =
      ((λ h. cc, λ h. cc), lookup-insert root r ticket_null s.tickets, refl)
  after_transfer-outcome subaccount (throws (polling_cancelled id)) s r =
      ((λ h. cc, λ h. cc), lookup-insert root r ticket_null s.tickets, refl)

  module _ (swap_canister_id : String) (account : TicketAccount) (s : SaleState) where
    -- what the poll of the transfer gives
    abbrev pub paid : Outcome (PollError TransferFailure) ℕ × World
    paid =
        poll (sale_params should_stop_transfer)
          (env.send_icp (transfer_of env swap_canister_id t account.subaccount)) s.polls

    abbrev pub outcome : Outcome Thrown Bool × SaleState
    outcome = participate_in_sns_sale env root swap_canister_id user_commitment t s

    abbrev begun : SaleState
    begun = record s { steps = s.steps ++ transfer ∷ []; polls = paid.1 }

    outcome-eq :
        t.account ≡ some account
        → account.owner ≡ some env.principal
        → outcome ≡ after_transfer env root user_commitment t account.subaccount paid.0 begun
    unfolding participate_in_sns_sale poll_transfer
    outcome-eq accounted owned = rw (accounted, owned, eqb_refl env.principal) refl

    -- The participation with a ticket of the user succeeds if and only if the transfer is made, was
    -- made before or is too old, the notification after it is accepted, and the code that is to run
    -- at the end does not throw.
    pub participate_in_sns_sale-success :
        t.account ≡ some account
        → account.owner ≡ some env.principal
        → (outcome.0 ≡ returns true) ↔ ((is_paid paid.0 && finished paid.1) ≡ true)
    participate_in_sns_sale-success accounted owned =
        rw (outcome-eq accounted owned)
          (after_transfer-outcome account.subaccount paid.0 begun root).0

    -- After a participation with a ticket of the user the store has no ticket for the project if
    -- the transfer failed for another reason than that it was made before or is too old, or if the
    -- participation succeeded; in all other cases, and for other projects, the store's ticket stays.
    pub participate_in_sns_sale-tickets :
        t.account ≡ some account
        → account.owner ≡ some env.principal
        → (r : String)
        → lookup r outcome.1.tickets ≡ (
            if (not (is_paid paid.0) || finished paid.1) && (root == r)
            then some ticket_null
            else lookup r s.tickets)
    participate_in_sns_sale-tickets accounted owned r =
        rw (outcome-eq accounted owned) (after_transfer-outcome account.subaccount paid.0 begun r).1

    -- A participation with a ticket of the user reports a failed payment, and then once, if and
    -- only if the account lacks the funds, or the transfer is too old and the notification fails
    -- with an internal error of the swap canister.
    pub participate_in_sns_sale-failures :
        t.account ≡ some account
        → account.owner ≡ some env.principal
        → failures outcome.1.requests ≡ (
            if lacks_funds paid.0 || (is_too_old paid.0 && is_internal (notified paid.1).0)
            then failures s.requests + 1
            else failures s.requests)
    participate_in_sns_sale-failures accounted owned =
        rw (outcome-eq accounted owned)
          (after_transfer-outcome account.subaccount paid.0 begun root).2
