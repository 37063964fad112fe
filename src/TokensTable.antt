-- ===== src/TokensTable.antt =====
-- frontend/src/lib/utils/tokens-table.utils.ts: the order of the table of tokens. The canister
-- ids of constants are parameters, as are the lower case titles with their order.
pub mod Order
mod Tests
use nns_dapp.Common.{
  ℕ, index_from, Bool, true, false, Option, none, some, List, [], ◌∷◌, String, string_has_eq, ◌==◌,
  ◌||◌, contains, reverse, ltb, ℤ, pos, negsuc, if◌then◌else◌,
}
use nns_dapp.Sorting.{
  Comparable, Comparator, bool_comparable, int_comparable, merge_comparators,
  create_ascending_comparator, create_descending_comparator,
}

-- an amount, `UnavailableTokenAmount`, "loading" or "failed"
pub data Balance : Type 0 where
  amount : ℕ → Balance
  unavailable loading failed : Balance

pub record UserToken : Type 0 where
  pub universe_id : String
  pub title : String
  pub balance : Balance

abbrev balance_or_zero : Balance → ℕ
balance_or_zero (amount n) = n
balance_or_zero _ = 0

pub get_token_balance_or_zero : UserToken → ℕ
get_token_balance_or_zero token = balance_or_zero token.balance

abbrev is_failed_balance : Balance → Bool
is_failed_balance failed = true
is_failed_balance _ = false

pub is_user_token_failed : UserToken → Bool
is_user_token_failed token = is_failed_balance token.balance

module _ (own_canister_id : String) where
  abbrev pub is_icp : UserToken → Bool
  is_icp token = token.universe_id == own_canister_id

  compare_tokens_icp_first : Comparator UserToken
  compare_tokens_icp_first = create_descending_comparator is_icp

compare_failed_tokens_last : Comparator UserToken
compare_failed_tokens_last = create_ascending_comparator is_user_token_failed

module _ (imported_token_ids : List String) where
  abbrev pub has_balance_or_is_imported : UserToken → Bool
  has_balance_or_is_imported token =
      ltb 0 (get_token_balance_or_zero token) || contains imported_token_ids token.universe_id

  compare_tokens_with_balance_or_imported_first : Comparator UserToken
  compare_tokens_with_balance_or_imported_first =
      create_descending_comparator has_balance_or_is_imported

-- the position in the reversed list of the important tokens, -1 for the others
module _ (important_ck_token_ids : List String) where
  abbrev pub importance : UserToken → ℤ
  importance token = index_from 0 token.universe_id (reverse important_ck_token_ids)

  compare_tokens_by_importance : Comparator UserToken
  compare_tokens_by_importance = create_descending_comparator importance

module _ {K : Type 0} ⦃k : Comparable K⦄ (to_lower_case : String → K) where
  abbrev pub lower_title : UserToken → K
  lower_title token = to_lower_case token.title

  compare_tokens_alphabetically : Comparator UserToken
  compare_tokens_alphabetically = create_ascending_comparator lower_title

  pub compare_tokens_for_tokens_table : String → List String → List String → Comparator UserToken
  unfolding compare_tokens_icp_first compare_tokens_with_balance_or_imported_first
      compare_failed_tokens_last compare_tokens_by_importance compare_tokens_alphabetically
  compare_tokens_for_tokens_table own_canister_id imported_token_ids important = merge_comparators (
      compare_tokens_icp_first own_canister_id
      ∷ compare_tokens_with_balance_or_imported_first imported_token_ids
      ∷ compare_failed_tokens_last
      ∷ compare_tokens_by_importance important
      ∷ compare_tokens_alphabetically
      ∷ [])
