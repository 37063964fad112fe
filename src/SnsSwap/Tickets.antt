-- ===== src/SnsSwap/Tickets.antt =====
-- frontend/src/lib/services/sns-sale.services.ts: the loads of the open ticket and of a new one.
use nns_dapp.Common.{Bool, true, false, Option, none, some, String, string_has_eq, returns, throws}
use nns_dapp.Polling.{PollError, polling_limit_exceeded, other, polling_cancelled?, Params}
use nns_dapp.SnsSwap.{TicketValue, ticket_null, ticket}
use nns_dapp.SnsSwap.Sale.{
  SnsSwapTicket, NewTicketFailure, new_sale_closed, new_sale_not_open, ticket_exists,
  invalid_user_amount, invalid_subaccount, new_unspecified, not_new_ticket_error, OpenTicketFailure,
  sale_closed, sale_not_open, open_unspecified, not_open_ticket_error, Thrown, api_error_key,
  open_ticket_failed, Toast, toast_error, NewTicketRequest, SaleReplies, Action, pure, throw, ◌>>=◌,
  ◌>>◌, caught_by, show, put_ticket, put_no_ticket, max_attempts_for_ticket,
  poll_get_open_ticket_id, sale_params, polled, should_stop_new_ticket, should_stop_open_ticket,
}

abbrev pub open_ticket_params : Params OpenTicketFailure (Option SnsSwapTicket)
open_ticket_params = record (sale_params should_stop_open_ticket) {
  max_attempts = max_attempts_for_ticket;
  poll_id = some poll_get_open_ticket_id;
}

module _ (env : SaleReplies) where
  unfoldable pub poll_get_open_ticket : String → Bool → Action (Option SnsSwapTicket)
  unfolding should_stop_open_ticket
  poll_get_open_ticket swap_canister_id certified = do
    answer ← polled open_ticket_params (env.get_open_ticket swap_canister_id certified)
    elim answer [
      | returns t ↦ pure t
      | throws polling_limit_exceeded ↦
          throw (api_error_key "error.limit_exceeded_getting_open_ticket")
      | throws e ↦ throw (open_ticket_failed e)
    ]

  -- `getTicketErrorMapper`
  ticket_error_label : OpenTicketFailure → String
  ticket_error_label sale_closed = "error__sns.sns_sale_closed"
  ticket_error_label sale_not_open = "error__sns.sns_sale_not_open"
  ticket_error_label open_unspecified = "error__sns.sns_sale_final_error"
  ticket_error_label not_open_ticket_error = "error__sns.sns_sale_final_error"

  -- the last part of the `catch` block
  unfoldable pub open_ticket_toast : Thrown → Toast
  unfolding ticket_error_label
  open_ticket_toast (open_ticket_failed (other e)) = toast_error (ticket_error_label e)
  open_ticket_toast (api_error_key message) = toast_error message
  open_ticket_toast _ = toast_error "error__sns.sns_sale_final_error"

  abbrev pub value_of : Option SnsSwapTicket → TicketValue SnsSwapTicket
  value_of none = ticket_null
  value_of (some t) = ticket t

  unfoldable pub is_cancellation : Thrown → Bool
  unfolding polling_cancelled?
  is_cancellation (open_ticket_failed e) = polling_cancelled? e
  is_cancellation _ = false

  unfoldable pub load_open_ticket : String → String → Bool → Action (Unit {0})
  unfolding poll_get_open_ticket open_ticket_toast is_cancellation
  load_open_ticket root swap_canister_id certified =
      caught_by
        (poll_get_open_ticket swap_canister_id certified >>= λ t. put_ticket root (value_of t))
        (λ e. elim (is_cancellation e) [
          | true ↦ pure tt
          | false ↦ (put_ticket root ticket_null >> show (open_ticket_toast e))
        ])

  -- the `switch` on the error
  unfoldable pub new_ticket_failed : String → NewTicketFailure → Action (Unit {0})
  new_ticket_failed root new_sale_closed = show (toast_error "error__sns.sns_sale_closed")
  new_ticket_failed root new_sale_not_open = show (toast_error "error__sns.sns_sale_not_open")
  new_ticket_failed root (ticket_exists none) = pure tt
  new_ticket_failed root (ticket_exists (some existing)) =
      show (toast_error "error__sns.sns_sale_proceed_with_existing_ticket")
      >> put_ticket root (ticket existing)
  new_ticket_failed root (invalid_user_amount (some limits)) =
      show (toast_error "error__sns.sns_sale_invalid_amount")
  -- the limits of what is `undefined` throw, which is caught
  new_ticket_failed root (invalid_user_amount none) =
      show (toast_error "error__sns.sns_sale_unexpected_error")
  new_ticket_failed root invalid_subaccount =
      show (toast_error "error__sns.sns_sale_invalid_subaccount")
  new_ticket_failed root new_unspecified = show (toast_error "error__sns.sns_sale_try_later")
  new_ticket_failed root not_new_ticket_error =
      show (toast_error "error__sns.sns_sale_unexpected_error")

  unfoldable pub handle_new_sale_ticket_error :
      String → PollError NewTicketFailure → Action (Unit {0})
  unfolding new_ticket_failed
  handle_new_sale_ticket_error root (other e) = put_no_ticket root >> new_ticket_failed root e
  handle_new_sale_ticket_error root _ =
      put_no_ticket root >> show (toast_error "error__sns.sns_sale_unexpected_error")

  unfoldable pub load_new_sale_ticket : NewTicketRequest → Action (Unit {0})
  unfolding should_stop_new_ticket handle_new_sale_ticket_error
  load_new_sale_ticket request =
      polled (sale_params should_stop_new_ticket) (env.new_sale_ticket request) >>= λ answer.
      elim answer [
        | returns t ↦ put_ticket request.root_canister_id (ticket t)
        | throws e ↦ handle_new_sale_ticket_error request.root_canister_id e
      ]
