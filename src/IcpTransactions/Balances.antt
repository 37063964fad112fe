-- ===== src/IcpTransactions/Balances.antt =====
-- frontend/src/lib/utils/icp-transactions.utils.ts: what the rows of an account add up to, against
-- what the ledger adds to and takes from it.
use nns_dapp.Common.{
  ℕ, ◌+◌, ◌≡◌, refl, Bool, true, ◌&&◌, ◌||◌, List, [], ◌∷◌, String, string_has_eq, option_has_eq,
  ◌==◌, map, arith, if◌then◌else◌, Bool-cases, inl, inr, eq_of_eqb,
}
use nns_dapp.IcpTransactions.{
  Operation, approve, burn, mint, transfer, Transaction, is_to_self, map_to_self_transactions,
  get_transaction_information, UiTransaction, map_icp_transaction_to_ui,
}

module _ (account : String) where
  -- what the ledger books for the account
  abbrev pub credit : Operation → ℕ
  credit (approve from fee) = 0
  credit (burn from amount) = 0
  credit (mint to amount) = if to == account then amount else 0
  credit (transfer from to amount fee) = if to == account then amount else 0

  abbrev pub debit : Operation → ℕ
  debit (approve from fee) = if from == account then fee else 0
  debit (burn from amount) = if from == account then amount else 0
  debit (mint to amount) = 0
  debit (transfer from to amount fee) = if from == account then amount + fee else 0

  abbrev pub credits : List Transaction → ℕ
  credits [] = 0
  credits (t ∷ ts) = credit t.operation + credits ts

  abbrev pub debits : List Transaction → ℕ
  debits [] = 0
  debits (t ∷ ts) = debit t.operation + debits ts

  -- a payment, a mint or a burn is one of the account
  abbrev pub concerns : Operation → Bool
  concerns (approve from fee) = true
  concerns (burn from amount) = from == account
  concerns (mint to amount) = to == account
  concerns (transfer from to amount fee) = (from == account) || (to == account)

  abbrev pub all_concern : List Transaction → Bool
  all_concern [] = true
  all_concern (t ∷ ts) = concerns t.operation && all_concern ts

  -- the amounts of the incoming rows, and of the others
  abbrev pub incoming : List UiTransaction → ℕ
  incoming [] = 0
  incoming (r ∷ rs) = (if r.is_incoming then r.token_amount else 0) + incoming rs

  abbrev pub outgoing : List UiTransaction → ℕ
  outgoing [] = 0
  outgoing (r ∷ rs) = (if r.is_incoming then 0 else r.token_amount) + outgoing rs

  module _ (neuron_accounts swap_canister_accounts : List String) where
    abbrev pub rows : List Transaction → List UiTransaction
    rows ts =
        map (map_icp_transaction_to_ui account neuron_accounts swap_canister_accounts)
          (map_to_self_transactions ts)

    -- the rows of one more transaction
    rows-booked :
        (o : Operation) (t : Transaction) (ts : List Transaction)
        → t.operation ≡ o
        → concerns o ≡ true
        → (incoming (rows (t ∷ ts)) ≡ credit o + incoming (rows ts))
          × (outgoing (rows (t ∷ ts)) ≡ debit o + outgoing (rows ts))
    unfolding map_to_self_transactions is_to_self map_icp_transaction_to_ui
        get_transaction_information
    rows-booked (approve from fee) t ts e h = (ground (arith, e), ground (arith, e))
    rows-booked (burn from amount) t ts e h = (ground (arith, e, h), ground (arith, e, h))
    rows-booked (mint to amount) t ts e h = (ground (arith, e, h), ground (arith, e, h))
    rows-booked (transfer from to amount fee) t ts e h = elim (Bool-cases (to == from)) [
      | inl same ↦ (
        ground (arith, e, h, same, eq_of_eqb to from same),
        ground (arith, e, h, same, eq_of_eqb to from same),
      )
      | inr different ↦ elim (Bool-cases (from == account)) [
        | inl own ↦ (
          ground (arith, e, h, different, own, eq_of_eqb from account own),
          ground (arith, e, h, different, own, eq_of_eqb from account own),
        )
        | inr foreign ↦
            (ground (arith, e, h, different, foreign), ground (arith, e, h, different, foreign))
      ]
    ]

    -- Of transactions that are all payments from or to the account, mints to it, burns from it or
    -- approvals, the incoming rows add up to what the ledger adds to the account, and the other
    -- rows to what it takes, fees included.
    pub rows-eq_ledger :
        (ts : List Transaction)
        → all_concern ts ≡ true
        → (incoming (rows ts) ≡ credits ts) × (outgoing (rows ts) ≡ debits ts)
    unfolding map_to_self_transactions
    rows-eq_ledger [] h = (refl, refl)
    rows-eq_ledger (t ∷ ts) h =
        let (into, out) = rows-booked t.operation t ts refl (ground (arith, h)) in
        let (into', out') = rows-eq_ledger ts (ground (arith, h)) in
        (omega (arith, into, into'), omega (arith, out, out'))
