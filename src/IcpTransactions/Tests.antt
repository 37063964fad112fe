-- ===== src/IcpTransactions/Tests.antt =====
-- The rows of an account with a payment, a payment to itself and a mint.
use nns_dapp.Common.{ℕ, ◌≡◌, refl, none, List, [], ◌∷◌, string_has_eq}
use nns_dapp.IcpTransactions.{
  Operation, mint, transfer, Transaction, map_to_self_transactions, map_icp_transaction_to_ui,
}
use nns_dapp.IcpTransactions.Balances.{credits, debits, incoming, outgoing, rows, rows-eq_ledger}

abbrev tx : ℕ → Operation → Transaction
tx id operation = record {
  id = id;
  operation = operation;
  memo = 0;
  timestamp_nanos = none;
  created_at_nanos = none;
}

abbrev history : List Transaction
history =
    tx 3 (transfer "me" "you" 20 1) ∷ tx 2 (transfer "me" "me" 5 1) ∷ tx 1 (mint "me" 100) ∷ []

rows-eq_ledger_example :
    (incoming "me" (rows "me" [] [] history) ≡ credits "me" history)
    × (outgoing "me" (rows "me" [] [] history) ≡ debits "me" history)
rows-eq_ledger_example = rows-eq_ledger "me" [] [] history refl

spent-example : outgoing "me" (rows "me" [] [] history) ≡ 27
unfolding map_to_self_transactions map_icp_transaction_to_ui
spent-example = refl
