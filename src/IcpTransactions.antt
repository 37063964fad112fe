-- ===== src/IcpTransactions.antt =====
-- frontend/src/lib/utils/icp-transactions.utils.ts: the transactions of an ICP account as they are
-- shown. An amount is in e8s; of @dfinity/ledger-icp an operation has the fields that are read.
-- Headlines and dates are left out.
pub mod Balances
mod Tests
use nns_dapp.Common.{
  ℕ, ◌+◌, ◌*◌, Bool, true, false, not, Option, none, some, List, [], ◌∷◌, ◌++◌, String,
  string_has_eq, option_has_eq, nat_has_eq, ◌==◌, ◌||◌, contains, ltb, get_or_else, pos, negsuc,
  if◌then◌else◌,
}
use nns_dapp.Sorting.{Comparator, sort}

pub data Operation : Type 0 where
  -- from, fee
  approve : String → ℕ → Operation
  -- from, amount
  burn : String → ℕ → Operation
  -- to, amount
  mint : String → ℕ → Operation
  -- from, to, amount, fee
  transfer : String → String → ℕ → ℕ → Operation

pub record Transaction : Type 0 where
  pub id : ℕ
  pub operation : Operation
  pub memo : ℕ
  pub timestamp_nanos : Option ℕ
  pub created_at_nanos : Option ℕ

pub data AccountTransactionType : Type 0 where
  type_burn type_mint type_approve participate_swap refund_swap : AccountTransactionType
  create_canister top_up_canister stake_neuron top_up_neuron receive send : AccountTransactionType

abbrev create_canister_memo : ℕ
create_canister_memo = 0x41455243

abbrev top_up_canister_memo : ℕ
top_up_canister_memo = 0x50555054

pub is_to_self : Transaction → Bool
is_to_self t = elim t.operation [ transfer from to amount fee ↦ to == from | _ ↦ false ]

-- a transaction to oneself is listed twice
unfoldable pub map_to_self_transactions : List Transaction → List (Transaction × Bool)
unfolding is_to_self
map_to_self_transactions [] = []
map_to_self_transactions (t ∷ ts) =
    let rest = map_to_self_transactions ts in
    if is_to_self t then (t, true) ∷ (t, false) ∷ rest else (t, false) ∷ rest

abbrev compare_transaction_ids : Comparator Transaction
compare_transaction_ids a b = if ltb b.id a.id then negsuc 0 else pos 1

sort_transactions_by_id_descending_order : List Transaction → List Transaction
sort_transactions_by_id_descending_order transactions = sort compare_transaction_ids transactions

abbrev transfer_type :
    String → String → ℕ → List String → List String → Bool → AccountTransactionType
transfer_type from to memo neuron_accounts swap_canister_accounts is_receive =
    if contains swap_canister_accounts to
    then participate_swap
    else if contains swap_canister_accounts from
    then refund_swap
    else if memo == create_canister_memo
    then create_canister
    else if memo == top_up_canister_memo
    then top_up_canister
    else if contains neuron_accounts to
    then (if ltb 0 memo then stake_neuron else top_up_neuron)
    else if is_receive
    then receive
    else send

pub get_transaction_type : Transaction → List String → List String → Bool → AccountTransactionType
get_transaction_type t neuron_accounts swap_canister_accounts is_receive = elim t.operation [
  | approve from fee ↦ type_approve
  | burn from amount ↦ type_burn
  | mint to amount ↦ type_mint
  | transfer from to amount fee ↦
      transfer_type from to t.memo neuron_accounts swap_canister_accounts is_receive
]

pub record IcpTransactionInfo : Type 0 where
  pub to : Option String
  pub from : Option String
  pub amount : ℕ
  pub fee : ℕ

pub get_transaction_information : Operation → IcpTransactionInfo
get_transaction_information (approve from fee) = record {
  to = none;
  from = some from;
  amount = 0;
  fee = fee;
}
get_transaction_information (burn from amount) = record {
  to = none;
  from = some from;
  amount = amount;
  fee = 0;
}
get_transaction_information (mint to amount) = record {
  to = some to;
  from = none;
  amount = amount;
  fee = 0;
}
get_transaction_information (transfer from to amount fee) = record {
  to = some to;
  from = some from;
  amount = amount;
  fee = fee;
}

abbrev timestamp_of : Transaction → Option ℕ
timestamp_of t = elim t.timestamp_nanos [ none ↦ t.created_at_nanos | some n ↦ some n ]

pub record Report : Type 0 where
  pub transaction_type : AccountTransactionType
  pub to : Option String
  pub from : Option String
  pub token_amount : ℕ
  pub timestamp_nanos : Option ℕ

unfoldable pub map_icp_transaction_to_report :
    String → List String → List String → Transaction → Report
unfolding is_to_self get_transaction_information get_transaction_type
map_icp_transaction_to_report account neuron_accounts swap_canister_accounts t =
    let info = get_transaction_information t.operation in
    let is_receive = is_to_self t || not (info.from == some account) in
    record {
      transaction_type = get_transaction_type t neuron_accounts swap_canister_accounts is_receive;
      to = info.to;
      from = info.from;
      token_amount = info.amount + (if is_receive then 0 else info.fee);
      timestamp_nanos = timestamp_of t;
    }

pub record UiTransaction : Type 0 where
  -- of the `domKey`: the id, and the digit behind it
  pub dom_key : ℕ × ℕ
  pub is_incoming : Bool
  pub transaction_type : AccountTransactionType
  pub other_party : Option String
  pub token_amount : ℕ
  pub timestamp_nanos : Option ℕ

unfoldable pub map_icp_transaction_to_ui :
    String → List String → List String → Transaction × Bool → UiTransaction
unfolding get_transaction_information get_transaction_type
map_icp_transaction_to_ui account neuron_accounts swap_canister_accounts (t, to_self_transaction) =
    let info = get_transaction_information t.operation in
    let is_receive = to_self_transaction || not (info.from == some account) in
    record {
      dom_key = (t.id, if to_self_transaction then 0 else 1);
      is_incoming = is_receive;
      transaction_type = get_transaction_type t neuron_accounts swap_canister_accounts is_receive;
      other_party = if is_receive then info.from else info.to;
      token_amount = info.amount + (if is_receive then 0 else info.fee);
      timestamp_nanos = timestamp_of t;
    }
