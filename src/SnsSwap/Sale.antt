-- ===== src/SnsSwap/Sale.antt =====
-- frontend/src/lib/services/sns-sale.services.ts: the participation in the swap of an SNS project.
-- The calls of canisters are polled by `poll` of Polling; what each of them gives, by its request,
-- is an environment. An asynchronous function is an action that returns or throws and leaves a
-- state. The toast that is visible while an open ticket is polled for, and what the reload of a
-- balance writes, are not modelled.
use nns_dapp.Common.{
  ℕ, Bool, true, false, Option, none, some, List, [], ◌∷◌, ◌++◌, String, string_has_eq,
  option_has_eq, nat_has_eq, Outcome, returns, throws,
}
use nns_dapp.Polling.{PollError, other, Params, Environment, World, poll}
use nns_dapp.NnsNeurons.{AccountType}
use nns_dapp.SnsSwap.{SnsFullProject, TicketValue, set_ticket, set_no_ticket}

pub data SaleStep : Type 0 where
  initialization transfer notify reload done : SaleStep

-- errors of the ledger's call: the classes of @dfinity/ledger-icp, or no `TransferError`
pub data TransferFailure : Type 0 where
  tx_duplicate insufficient_funds tx_too_old tx_created_in_future : TransferFailure
  other_transfer_error not_transfer_error : TransferFailure

pub record TicketAccount : Type 0 where
  pub owner : Option String
  pub subaccount : Option (List ℕ)

pub record SnsSwapTicket : Type 0 where
  pub amount_icp_e8s : ℕ
  pub account : Option TicketAccount
  pub creation_time : ℕ
  pub ticket_id : ℕ

-- `SnsSwapNewTicketError` by its `errorType`, or another error
pub data NewTicketFailure : Type 0 where
  new_sale_closed new_sale_not_open : NewTicketFailure
  ticket_exists : Option SnsSwapTicket → NewTicketFailure
  invalid_user_amount : Option (ℕ × ℕ) → NewTicketFailure
  invalid_subaccount new_unspecified not_new_ticket_error : NewTicketFailure

-- `SnsSwapGetOpenTicketError` by its `errorType`, or another error
pub data OpenTicketFailure : Type 0 where
  sale_closed sale_not_open open_unspecified not_open_ticket_error : OpenTicketFailure

-- the message of the error of `notifyParticipation`, `none` for what is no `Error`
abbrev pub NotifyFailure : Type 0
NotifyFailure = Option String

pub data Thrown : Type 0 where
  api_error_key : String → Thrown
  ledger_error_key : String → Thrown
  not_enough_amount : Thrown
  missing_value : Thrown
  open_ticket_failed : PollError OpenTicketFailure → Thrown
  notify_failed : PollError NotifyFailure → Thrown
  postprocess_failed : Thrown

pub data Toast : Type 0 where
  toast_error toast_warn toast_success : String → Toast
  -- `toToastError` of what was thrown
  toast_thrown : Thrown → Toast

-- what is asked of elsewhere, but for the polled calls
pub data Request : Type 0 where
  payment_failure : String → Request
  load_balance : String → Request
  postprocess : Request

pub record SaleState : Type 0 where
  pub tickets : List (String × TicketValue SnsSwapTicket)
  pub polls : World
  pub toasts : List Toast
  pub steps : List SaleStep
  pub requests : List Request

pub record TransferRequest : Type 0 where
  pub to : String
  pub amount : ℕ
  pub from_sub_account : Option (List ℕ)
  pub memo : ℕ
  pub created_at : ℕ
  pub fee : ℕ

pub record NewTicketRequest : Type 0 where
  pub root_canister_id : String
  pub amount : ℕ
  pub subaccount : Option (List ℕ)

pub record SaleAccount : Type 0 where
  pub identifier : String
  pub account_type : AccountType
  pub balance : ℕ
  pub subaccount : Option (List ℕ)

-- what the code reads or calls elsewhere
pub record SaleReplies : Type 0 where
  pub principal : String
  pub transaction_fee : ℕ
  pub projects : String → Option SnsFullProject
  pub accounts : List SaleAccount
  -- `getSwapCanisterAccount` of the controller and the swap canister
  pub swap_canister_account : String → String → String
  pub send_icp : TransferRequest → Environment TransferFailure ℕ
  -- `notifyParticipation` for the root canister, with the text to confirm
  pub notify_participation : String → Option String → Environment NotifyFailure ℕ
  pub new_sale_ticket : NewTicketRequest → Environment NewTicketFailure SnsSwapTicket
  pub get_open_ticket : String → Bool → Environment OpenTicketFailure (Option SnsSwapTicket)
  pub postprocessed : Bool

abbrev pub Action : Type 0 → Type 0
Action A = SaleState → Outcome Thrown A × SaleState

infixl 5 ◌>>=◌ ◌>>◌
abbrev pub pure : {A : Type 0} → A → Action A
pure a s = (returns a, s)

abbrev pub throw : {A : Type 0} → Thrown → Action A
throw e s = (throws e, s)

abbrev pub ◌>>=◌ : {A B : Type 0} → Action A → (A → Action B) → Action B
◌>>=◌ m f s = let (r, s') = m s in elim r [ returns a ↦ f a s' | throws e ↦ (throws e, s') ]

abbrev pub ◌>>◌ : {A B : Type 0} → Action A → Action B → Action B
m >> k = m >>= λ _. k

-- `try { m } catch (e) { handler }`
abbrev pub caught_by : {A : Type 0} → Action A → (Thrown → Action A) → Action A
caught_by m handler s =
    let (r, s') = m s in elim r [ returns a ↦ (returns a, s') | throws e ↦ handler e s' ]

abbrev pub show : Toast → Action (Unit {0})
show t s = (returns tt, record s { toasts = s.toasts ++ t ∷ [] })

abbrev pub update_progress : SaleStep → Action (Unit {0})
update_progress step s = (returns tt, record s { steps = s.steps ++ step ∷ [] })

abbrev pub ask : Request → Action (Unit {0})
ask r s = (returns tt, record s { requests = s.requests ++ r ∷ [] })

abbrev pub put_ticket : String → TicketValue SnsSwapTicket → Action (Unit {0})
put_ticket root t s = (returns tt, record s { tickets = set_ticket root t s.tickets })

abbrev pub put_no_ticket : String → Action (Unit {0})
put_no_ticket root s = (returns tt, record s { tickets = set_no_ticket root s.tickets })

-- `DEFAULT_MAX_POLLING_ATTEMPTS`, and 2 seconds in milliseconds
abbrev pub default_max_polling_attempts : ℕ
default_max_polling_attempts = 10

abbrev pub wait_for_ticket_millis : ℕ
wait_for_ticket_millis = 2000

abbrev pub sale_failures_before_highload_message : ℕ
sale_failures_before_highload_message = 6

abbrev pub max_attempts_for_ticket : ℕ
max_attempts_for_ticket = 50

abbrev pub poll_get_open_ticket_id : ℕ
poll_get_open_ticket_id = 0

abbrev pub sale_params : {E T : Type 0} → (PollError E → Bool) → Params E T
sale_params should_exit = record {
  should_exit = should_exit;
  max_attempts = default_max_polling_attempts;
  milliseconds_to_wait = wait_for_ticket_millis;
  use_exponential_backoff = true;
  failures_before_high_load_message = some sale_failures_before_highload_message;
  poll_id = none;
}

-- a poll: its result is a value, an error included
abbrev pub polled : {E T : Type 0} → Params E T → Environment E T → Action (Outcome (PollError E) T)
polled params env s =
    (returns (poll params env s.polls).0, record s { polls = (poll params env s.polls).1 })

-- `isTransferError(err) && !(err instanceof TxCreatedInFutureError)`
unfoldable pub should_stop_transfer : PollError TransferFailure → Bool
should_stop_transfer (other not_transfer_error) = false
should_stop_transfer (other tx_created_in_future) = false
should_stop_transfer (other _) = true
should_stop_transfer _ = false

-- `shoulStopPollingNewTicket`
unfoldable pub should_stop_new_ticket : PollError NewTicketFailure → Bool
should_stop_new_ticket (other not_new_ticket_error) = false
should_stop_new_ticket (other _) = true
should_stop_new_ticket _ = false

-- `shouldStopPollingTicket`
unfoldable pub should_stop_open_ticket : PollError OpenTicketFailure → Bool
should_stop_open_ticket (other not_open_ticket_error) = false
should_stop_open_ticket (other _) = true
should_stop_open_ticket _ = false
