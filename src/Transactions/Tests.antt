-- ===== src/Transactions/Tests.antt =====
-- Pages of two accounts, and the theorems at them. A transaction is its id.
use nns_dapp.Common.{
  ℕ, nat_has_eq, ◌≡◌, refl, true, false, Option, none, some, List, [], ◌∷◌, ◌++◌, String,
  string_has_eq, remove_keys, Distinct,
}
use nns_dapp.Transactions.{
  AccountState, add_icp_transactions, add_icrc_transactions, reset_icrc_account,
}
use nns_dapp.Transactions.Pages.{firsts, ids}
use nns_dapp.Transactions.Accounts.{Page, pages_for, add_all, listed, listed-firsts}

abbrev id : ℕ → ℕ
id t = t

abbrev page : String → List ℕ → Option ℕ → Page ℕ
page a ts o = record { account = a; transactions = ts; oldest_tx_id = o; completed = false }

abbrev pages : List (Page ℕ)
pages =
    page "a" (9 ∷ 8 ∷ []) (some 2) ∷ page "b" (7 ∷ []) none ∷ page "a" (8 ∷ 5 ∷ []) (some 5) ∷ []

pages_of_a :
    add_all id pages []
    ≡ ("a", record { transactions = 9 ∷ 8 ∷ 5 ∷ []; oldest_tx_id = some 2; completed = false })
      ∷ ("b", record { transactions = 7 ∷ []; oldest_tx_id = none; completed = false })
      ∷ []
unfolding add_all add_icp_transactions
pages_of_a = refl

listed-firsts_example :
    (listed id "a" (add_all id pages []) ≡ firsts id (listed id "a" [] ++ pages_for "a" pages))
    × Distinct (ids id (listed id "a" (add_all id pages [])))
listed-firsts_example = listed-firsts id "a" pages [] tt

firsts_of_a : firsts id (9 ∷ 8 ∷ 8 ∷ 5 ∷ 9 ∷ []) ≡ 9 ∷ 8 ∷ 5 ∷ []
unfolding firsts
firsts_of_a = refl

abbrev Store : Type 0
Store = List (String × List (String × AccountState ℕ))

abbrev icrc : Store
icrc =
    add_icrc_transactions id "sns" "b" (4 ∷ []) none true
      (add_icrc_transactions id "sns" "a" (3 ∷ []) none true [])

reset_a :
    reset_icrc_account "sns" "a" icrc
    ≡ ("sns", ("b", record { transactions = 4 ∷ []; oldest_tx_id = none; completed = true }) ∷ [])
      ∷ []
unfolding reset_icrc_account add_icrc_transactions remove_keys
reset_a = refl

abbrev sns : String
sns = "sns"
