-- ===== src/SnsSwap/Participation.antt =====
-- frontend/src/lib/services/sns-sale.services.ts: the payment of a ticket, the notification of the
-- swap canister, and the flows that begin or resume a participation.
pub mod Payments
pub mod Quiet
pub mod Flows
use nns_dapp.Common.{
  ℕ, ◌+◌, ◌≡◌, Bool, true, false, Option, none, some, List, [], ◌∷◌, ◌++◌, String, string_has_eq,
  option_has_eq, nat_has_eq, ◌==◌, ◌&&◌, find?, lookup, ltb, includes, Outcome, returns, throws,
  if◌then◌else◌,
}
use nns_dapp.Polling.{PollError, polling_limit_exceeded, polling_cancelled, other}
use nns_dapp.NnsNeurons.{AccountType, main, sub_account, hardware_wallet}
use nns_dapp.SnsNeurons.{subaccount_to_hex_string}
use nns_dapp.SnsNeurons.Permissions.{some_of}
use nns_dapp.SnsSwap.{valid_participation, ticket_undefined, ticket_null, ticket}
use nns_dapp.SnsSwap.Sale.{
  initialization, transfer, notify, reload, done, tx_duplicate, insufficient_funds, tx_too_old,
  SnsSwapTicket, TransferFailure, NotifyFailure, Thrown, api_error_key, ledger_error_key,
  not_enough_amount, missing_value, open_ticket_failed, notify_failed, postprocess_failed,
  toast_error, toast_warn, toast_success, toast_thrown, payment_failure, load_balance, postprocess,
  SaleState, TransferRequest, SaleAccount, SaleReplies, Action, pure, throw, ◌>>=◌, ◌>>◌, caught_by,
  show, update_progress, ask, put_no_ticket, sale_params, polled, should_stop_transfer,
}
use nns_dapp.SnsSwap.Tickets.{load_open_ticket, load_new_sale_ticket}

abbrev internal_messages : List String
internal_messages =
    "The token amount can only be refreshed when the canister is in the OPEN state"
    ∷ "The ICP target for this token swap has already been reached."
    ∷ "The swap has already reached its target" ∷ "Amount transferred:" ∷ "New balance:"
    ∷ "The available balance to be topped up" ∷ []

unfoldable pub is_internal_message : Option String → Bool
unfolding includes
is_internal_message none = false
is_internal_message (some message) = some_of (λ text. includes message text) internal_messages

-- `isInternalRefreshBuyerTokensError`, of an error of a poll or of what was thrown; the errors of
-- the poll itself have messages of their own
unfoldable pub is_internal_poll_error : PollError NotifyFailure → Bool
unfolding is_internal_message
is_internal_poll_error (other message) = is_internal_message message
is_internal_poll_error _ = false

unfoldable pub is_internal_refresh_buyer_tokens_error : Thrown → Bool
unfolding is_internal_poll_error is_internal_message
is_internal_refresh_buyer_tokens_error (notify_failed e) = is_internal_poll_error e
is_internal_refresh_buyer_tokens_error (api_error_key message) = is_internal_message (some message)
is_internal_refresh_buyer_tokens_error _ = false

module _ (env : SaleReplies) where
  unfoldable pub poll_transfer : TransferRequest → Action (Outcome (PollError TransferFailure) ℕ)
  unfolding should_stop_transfer
  poll_transfer request = polled (sale_params should_stop_transfer) (env.send_icp request)

  abbrev pub conditions_to_accept : String → Option String
  conditions_to_accept root = elim (env.projects root) [
    | none ↦ none
    | some project ↦ project.summary.confirmation_text
  ]

  unfoldable pub poll_notify_participation : String → Action ℕ
  unfolding is_internal_poll_error
  poll_notify_participation root =
      polled (sale_params is_internal_poll_error)
        (env.notify_participation root (conditions_to_accept root))
      >>= λ answer. elim answer [
        | returns accepted ↦ pure accepted
        | throws e ↦ elim e [
          | polling_limit_exceeded ↦
              throw (api_error_key "error.limit_exceeded_getting_open_ticket")
          | polling_cancelled id ↦ throw (notify_failed (polling_cancelled id))
          | other message ↦ throw (notify_failed (other message))
        ]
      ]

  unfoldable pub remove_open_ticket : String → Action (Unit {0})
  remove_open_ticket root = ask (payment_failure root)

  unfoldable pub notify_participation_and_remove_ticket :
      String → Bool → SnsSwapTicket → ℕ → Action Bool
  unfolding poll_notify_participation remove_open_ticket is_internal_refresh_buyer_tokens_error
  notify_participation_and_remove_ticket root has_too_old_error t user_commitment =
      caught_by
        (do
          accepted ← poll_notify_participation root
          if accepted == t.amount_icp_e8s + user_commitment
              then pure tt
              else show (toast_warn "error__sns.sns_sale_committed_not_equal_to_amount")
          pure true)
        (λ e. do
          if has_too_old_error && is_internal_refresh_buyer_tokens_error e
              then remove_open_ticket root
              else pure tt
          show (toast_error "error__sns.sns_sale_unexpected_and_refresh")
          pure false)

  abbrev is_main : AccountType → Bool
  is_main main = true
  is_main _ = false

  -- the account that the ticket was paid from
  unfoldable pub source_account : Option (List ℕ) → Option SaleAccount
  unfolding subaccount_to_hex_string
  source_account none = find? (λ a. is_main a.account_type) env.accounts
  source_account (some subaccount) =
      find?
        (λ a. elim a.subaccount [
          | none ↦ false
          | some s ↦ subaccount_to_hex_string subaccount == subaccount_to_hex_string s
        ])
        env.accounts

  -- what follows the payment
  unfoldable pub notify_and_finish :
      String → ℕ → SnsSwapTicket → Option (List ℕ) → Bool → Action Bool
  unfolding notify_participation_and_remove_ticket source_account
  notify_and_finish root user_commitment t subaccount has_too_old_error = do
    update_progress notify
    success ← notify_participation_and_remove_ticket root has_too_old_error t user_commitment
    if success
        then (do
          update_progress reload
          elim (source_account subaccount) [
            | none ↦ pure tt
            | some account ↦ ask (load_balance account.identifier)
          ]
          ask postprocess
          if env.postprocessed then pure tt else throw postprocess_failed
          show (toast_success "sns_project_detail.participate_success")
          put_no_ticket root
          update_progress done
          pure true)
        else pure false

  abbrev pub transfer_of : String → SnsSwapTicket → Option (List ℕ) → TransferRequest
  transfer_of swap_canister_id t subaccount = record {
    to = env.swap_canister_account env.principal swap_canister_id;
    amount = t.amount_icp_e8s;
    from_sub_account = subaccount;
    memo = t.ticket_id;
    created_at = t.creation_time;
    fee = env.transaction_fee;
  }

  -- the `switch` on what the transfer failed with
  unfoldable pub after_transfer :
      String
      → ℕ
      → SnsSwapTicket
      → Option (List ℕ)
      → Outcome (PollError TransferFailure) ℕ
      → Action Bool
  unfolding notify_and_finish remove_open_ticket
  after_transfer root user_commitment t subaccount (returns height) =
      notify_and_finish root user_commitment t subaccount false
  after_transfer root user_commitment t subaccount (throws (other tx_duplicate)) =
      notify_and_finish root user_commitment t subaccount false
  after_transfer root user_commitment t subaccount (throws (other tx_too_old)) =
      notify_and_finish root user_commitment t subaccount true
  after_transfer root user_commitment t subaccount (throws (other insufficient_funds)) = do
    remove_open_ticket root
    show (toast_error "error__sns.ledger_insufficient_funds")
    put_no_ticket root
    pure false
  after_transfer root user_commitment t subaccount (throws _) = do
    show (toast_error "error__sns.sns_sale_unexpected_error")
    put_no_ticket root
    pure false

  unfoldable pub participate_in_sns_sale : String → String → ℕ → SnsSwapTicket → Action Bool
  unfolding poll_transfer after_transfer
  participate_in_sns_sale root swap_canister_id user_commitment t =
      update_progress transfer >> elim t.account [
        | none ↦ throw missing_value
        | some account ↦ elim account.owner [
          | none ↦ throw missing_value
          | some owner ↦
              if env.principal == owner
              then (poll_transfer (transfer_of swap_canister_id t account.subaccount) >>= λ answer.
                  after_transfer root user_commitment t account.subaccount answer)
              else (show (toast_error "error__sns.sns_sale_unexpected_error") >> pure false)
        ]
      ]

  -- the `try` block
  unfoldable pub begin_participation : ℕ → String → SaleAccount → ℕ → Action Bool
  unfolding valid_participation load_new_sale_ticket participate_in_sns_sale
  begin_participation amount root account user_commitment = do
    update_progress initialization
    if ltb account.balance (amount + env.transaction_fee) then throw not_enough_amount else pure tt
    elim (valid_participation (env.projects root) amount) [
      | some label ↦ throw (ledger_error_key label)
      | none ↦ pure tt
    ]
    load_new_sale_ticket env
        (record { root_canister_id = root; amount = amount; subaccount = account.subaccount })
    elim (env.projects root) [
      | none ↦ throw missing_value
      | some project ↦ λ s. elim (lookup root s.tickets) [
        | some (ticket t) ↦
            participate_in_sns_sale root project.summary.swap_canister_id user_commitment t s
        | _ ↦ pure false s
      ]
    ]

  unfoldable pub initiate_sns_sale_participation : ℕ → String → SaleAccount → ℕ → Action Bool
  unfolding begin_participation
  initiate_sns_sale_participation amount root account user_commitment =
      caught_by (begin_participation amount root account user_commitment)
        (λ e. show (toast_thrown e) >> put_no_ticket root >> pure false)

  unfoldable pub restore_sns_sale_participation : String → String → ℕ → Action (Unit {0})
  unfolding load_open_ticket participate_in_sns_sale
  restore_sns_sale_participation root swap_canister_id user_commitment s =
      elim (lookup root s.tickets) [
        | some (ticket t) ↦ (returns tt, s)
        | _ ↦
            (load_open_ticket env root swap_canister_id true >> λ s'.
            elim (lookup root s'.tickets) [
              | some (ticket t) ↦
                  (participate_in_sns_sale root swap_canister_id user_commitment t >> pure tt) s'
              | _ ↦ pure tt s'
            ])
              s
      ]
