-- ===== src/TokensTable/Tests.antt =====
-- A concrete table of tokens, for frontend/src/lib/utils/tokens-table.utils.ts. Titles are
-- compared by their length here.
use Prim.Native.String.{len}
use nns_dapp.Common.{◌≡◌, refl, [], ◌∷◌, string_has_eq, Perm}
use nns_dapp.Sorting.{
  nat_comparable, sort, insert_sorted, merge_comparators, create_descending_comparator,
}
use nns_dapp.TokensTable.{
  amount, failed, UserToken, compare_tokens_for_tokens_table, get_token_balance_or_zero,
}
use nns_dapp.TokensTable.Order.{table_order, AllBefore, sorted_table-AllBefore}

abbrev icp : UserToken
icp = record { universe_id = "icp"; title = "Internet Computer"; balance = amount 0 }

abbrev rich : UserToken
rich = record { universe_id = "rich"; title = "Rich"; balance = amount 5 }

abbrev broken : UserToken
broken = record { universe_id = "broken"; title = "Broken"; balance = failed }

sorted_run :
    sort (table_order len "icp" [] []) (broken ∷ rich ∷ icp ∷ []) ≡ icp ∷ rich ∷ broken ∷ []
unfolding sort insert_sorted compare_tokens_for_tokens_table merge_comparators
    create_descending_comparator get_token_balance_or_zero
sorted_run = refl

sorted_table-AllBefore_example :
    AllBefore len "icp" [] [] (sort (table_order len "icp" [] []) (broken ∷ rich ∷ icp ∷ []))
    × Perm
        (sort (table_order len "icp" [] []) (broken ∷ rich ∷ icp ∷ []))
        (broken ∷ rich ∷ icp ∷ [])
sorted_table-AllBefore_example = sorted_table-AllBefore len "icp" [] [] (broken ∷ rich ∷ icp ∷ [])
