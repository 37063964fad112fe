-- ===== src/Transactions.antt =====
-- The stores of transactions: frontend/src/lib/stores/icp-transactions.store.ts (by account) and
-- frontend/src/lib/stores/icrc-transactions.store.ts (by universe and account), over
-- `getUniqueTransactions` of frontend/src/lib/utils/transactions.utils.ts. The code looks at a
-- transaction's `id` only.
pub mod Pages
pub mod Accounts
mod Tests
use nns_dapp.Common.{
  ℕ, nat_has_eq, Bool, true, false, Option, none, some, List, [], ◌∷◌, ◌++◌, String, string_has_eq,
  get_or_else, insert, lookup, remove_keys, unique_from, if◌then◌else◌, leb,
}

pub record AccountState (T : Type 0) : Type 0 where
  pub transactions : List T
  pub oldest_tx_id : Option ℕ
  pub completed : Bool

abbrev oldest_of : {T : Type 0} → Option (AccountState T) → Option ℕ
oldest_of none = none
oldest_of (some a) = a.oldest_tx_id

abbrev pub transactions_of : {T : Type 0} → Option (AccountState T) → List T
transactions_of none = []
transactions_of (some a) = a.transactions

abbrev pub account_in :
    {T : Type 0} → Option (List (String × AccountState T)) → String → Option (AccountState T)
account_in none account = none
account_in (some accounts) account = lookup account accounts

-- "Ids are in increasing order. We want to keep the oldest id."
pub new_oldest_tx_id : Option ℕ → Option ℕ → Option ℕ
new_oldest_tx_id none known = known
new_oldest_tx_id (some oldest) known =
    if leb oldest (get_or_else known oldest) then some oldest else known

module _ {T : Type 0} (id : T → ℕ) where
  pub get_unique_transactions : List T → List T
  unfolding unique_from
  get_unique_transactions transactions = unique_from id [] transactions

  -- the entry that both stores write
  pub merge : Option (AccountState T) → List T → Option ℕ → Bool → AccountState T
  unfolding get_unique_transactions new_oldest_tx_id
  merge account_state transactions oldest_tx_id completed = record {
    transactions = get_unique_transactions (transactions_of account_state ++ transactions);
    oldest_tx_id = new_oldest_tx_id oldest_tx_id (oldest_of account_state);
    completed = completed;
  }

  pub add_icp_transactions :
      String
      → List T
      → Option ℕ
      → Bool
      → List (String × AccountState T)
      → List (String × AccountState T)
  unfolding merge
  add_icp_transactions account transactions oldest_tx_id completed s =
      insert account (merge (lookup account s) transactions oldest_tx_id completed) s

  pub add_icrc_transactions :
      String
      → String
      → List T
      → Option ℕ
      → Bool
      → List (String × List (String × AccountState T))
      → List (String × List (String × AccountState T))
  unfolding merge
  add_icrc_transactions canister account transactions oldest_tx_id completed s =
      let project_state = lookup canister s in
      insert canister
        (insert account
          (merge (account_in project_state account) transactions oldest_tx_id completed)
          (get_or_else project_state []))
        s

module _ {T : Type 0} where
  reset_icp_account : String → List (String × AccountState T) → List (String × AccountState T)
  reset_icp_account account s = remove_keys (account ∷ []) s

  reset_icp_transactions : List (String × AccountState T) → List (String × AccountState T)
  reset_icp_transactions s = []

  reset_icrc_transactions :
      List (String × List (String × AccountState T))
      → List (String × List (String × AccountState T))
  reset_icrc_transactions s = []

  reset_universe :
      String
      → List (String × List (String × AccountState T))
      → List (String × List (String × AccountState T))
  reset_universe canister s = remove_keys (canister ∷ []) s

  pub reset_icrc_account :
      String
      → String
      → List (String × List (String × AccountState T))
      → List (String × List (String × AccountState T))
  reset_icrc_account canister account s =
      let others = remove_keys (canister ∷ []) s in
      elim (lookup canister s) [
        | none ↦ others
        | some project_state ↦ insert canister (remove_keys (account ∷ []) project_state) others
      ]
