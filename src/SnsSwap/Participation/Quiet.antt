-- ===== src/SnsSwap/Participation/Quiet.antt =====
-- frontend/src/lib/services/sns-sale.services.ts: the loads of tickets always end and touch only the
-- ticket of their own project.
use nns_dapp.Common.{
  ℕ, ◌≡◌, refl, Bool, false, Option, none, some, List, String, string_has_eq, nat_has_eq,
  option_has_eq, ◌==◌, lookup, lookup-insert, Outcome, returns, Outcome-cases, inl, inr, arith, ◌∙◌,
}
use nns_dapp.Polling.{
  PollError, polling_limit_exceeded, polling_cancelled, other, poll, polling_cancelled?,
}
use nns_dapp.SnsSwap.{set_ticket, set_no_ticket, ticket_null, ticket}
use nns_dapp.SnsSwap.Sale.{
  Thrown, SaleState, SaleReplies, should_stop_new_ticket, sale_params, NewTicketFailure,
  new_sale_closed, new_sale_not_open, ticket_exists, invalid_user_amount, invalid_subaccount,
  new_unspecified, not_new_ticket_error,
}
use nns_dapp.SnsSwap.Tickets.{
  load_open_ticket, load_new_sale_ticket, new_ticket_failed, handle_new_sale_ticket_error,
  poll_get_open_ticket, open_ticket_params, is_cancellation,
}

module _ (env : SaleReplies) (root : String) where
  -- what an action on tickets of the project leaves for another project
  abbrev pub Quiet : Outcome Thrown (Unit {0}) × SaleState → SaleState → Type 0
  Quiet after s =
      (after.0 ≡ returns tt)
      × ((r : String) → (root == r) ≡ false → lookup r after.1.tickets ≡ lookup r s.tickets)

  new_ticket_failed-Quiet :
      (e : NewTicketFailure) (s : SaleState) → Quiet (new_ticket_failed env root e s) s
  unfolding new_ticket_failed set_ticket
  new_ticket_failed-Quiet new_sale_closed s = (refl, λ r other_root. refl)
  new_ticket_failed-Quiet new_sale_not_open s = (refl, λ r other_root. refl)
  new_ticket_failed-Quiet (ticket_exists none) s = (refl, λ r other_root. refl)
  new_ticket_failed-Quiet (ticket_exists (some t)) s =
      (refl, λ r other_root. ground (arith, lookup-insert root r (ticket t) s.tickets, other_root))
  new_ticket_failed-Quiet (invalid_user_amount none) s = (refl, λ r other_root. refl)
  new_ticket_failed-Quiet (invalid_user_amount (some limits)) s = (refl, λ r other_root. refl)
  new_ticket_failed-Quiet invalid_subaccount s = (refl, λ r other_root. refl)
  new_ticket_failed-Quiet new_unspecified s = (refl, λ r other_root. refl)
  new_ticket_failed-Quiet not_new_ticket_error s = (refl, λ r other_root. refl)

  abbrev without_ticket : SaleState → SaleState
  without_ticket s = record s { tickets = set_no_ticket root s.tickets }

  handle_new_sale_ticket_error-Quiet :
      (e : PollError NewTicketFailure) (s : SaleState)
      → Quiet (handle_new_sale_ticket_error env root e s) s
  unfolding handle_new_sale_ticket_error set_no_ticket
  handle_new_sale_ticket_error-Quiet (other e) s =
      let (ends, same) = new_ticket_failed-Quiet e (without_ticket s) in
      (
        ends,
        λ r other_root.
            same r other_root
            ∙ ground (arith, lookup-insert root r ticket_null s.tickets, other_root),
      )
  handle_new_sale_ticket_error-Quiet polling_limit_exceeded s =
      (refl, λ r other_root. ground (arith, lookup-insert root r ticket_null s.tickets, other_root))
  handle_new_sale_ticket_error-Quiet (polling_cancelled id) s =
      (refl, λ r other_root. ground (arith, lookup-insert root r ticket_null s.tickets, other_root))

  pub load_new_sale_ticket-Quiet :
      (amount : ℕ) (subaccount : Option (List ℕ)) (s : SaleState)
      → Quiet
          (load_new_sale_ticket env
            (record { root_canister_id = root; amount = amount; subaccount = subaccount })
            s)
          s
  unfolding load_new_sale_ticket set_ticket poll
  load_new_sale_ticket-Quiet amount subaccount s =
      let env_poll =
        env.new_sale_ticket
          (record { root_canister_id = root; amount = amount; subaccount = subaccount }) in
      let (answer, w) = poll (sale_params should_stop_new_ticket) env_poll s.polls in
      let polled : SaleState = record s { polls = w } in
      elim (Outcome-cases answer) [
        | inl (t, e) ↦ rw e (
          refl,
          λ r other_root. ground (arith, lookup-insert root r (ticket t) s.tickets, other_root),
        )
        | inr (e, h) ↦ rw h (handle_new_sale_ticket_error-Quiet e polled)
      ]

  pub load_open_ticket-Quiet :
      (swap_canister_id : String) (certified : Bool) (s : SaleState)
      → Quiet (load_open_ticket env root swap_canister_id certified s) s
  unfolding load_open_ticket poll_get_open_ticket set_ticket is_cancellation polling_cancelled?
  load_open_ticket-Quiet swap_canister_id certified s =
      let env_poll = env.get_open_ticket swap_canister_id certified in
      elim (Outcome-cases (poll (open_ticket_params) env_poll s.polls).0) [
        | inl (none, h) ↦ (
          ground (arith, h),
          λ r other_root. ground (arith, h, lookup-insert root r ticket_null s.tickets, other_root),
        )
        | inl (some t, h) ↦ (
          ground (arith, h),
          λ r other_root. ground (arith, h, lookup-insert root r (ticket t) s.tickets, other_root),
        )
        | inr (polling_limit_exceeded, h) ↦ (
          ground (arith, h),
          λ r other_root. ground (arith, h, lookup-insert root r ticket_null s.tickets, other_root),
        )
        | inr (polling_cancelled id, h) ↦ (
          ground (arith, h),
          λ r other_root. ground (arith, h, lookup-insert root r ticket_null s.tickets, other_root),
        )
        | inr (other e, h) ↦ (
          ground (arith, h),
          λ r other_root. ground (arith, h, lookup-insert root r ticket_null s.tickets, other_root),
        )
      ]
