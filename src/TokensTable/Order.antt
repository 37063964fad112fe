-- ===== src/TokensTable/Order.antt =====
-- frontend/src/lib/utils/tokens-table.utils.ts: what the order of the table says of two rows.
use nns_dapp.Common.{
  ◌≡◌, Bool, true, List, [], ◌∷◌, String, string_has_eq, pos, nonpos, All, Perm, arith,
}
use nns_dapp.Sorting.{
  Comparable, Comparator, bool_comparable, int_comparable, merge_comparators,
  create_ascending_comparator, create_descending_comparator, negate, sort,
}
use nns_dapp.Sorting.Order.{
  Consistent, nonpos-first_of, merge-Consistent, descending-Consistent, ascending-Consistent,
}
use nns_dapp.Sorting.Sorted.{IsSorted, sort-IsSorted, sort-Perm}
use nns_dapp.TokensTable.{
  UserToken, is_icp, has_balance_or_is_imported, is_user_token_failed, importance, lower_title,
  compare_tokens_for_tokens_table,
}

-- values that are equal compare as 0
descending-equal :
    {A : Type 0} (g : A → Bool) (a b : A) → g a ≡ g b → create_descending_comparator g a b ≡ pos 0
unfolding create_descending_comparator
descending-equal g a b e = ground arith

nonpos-ascending :
    {A : Type 0} (g : A → Bool) (a b : A)
    → nonpos (create_ascending_comparator g a b) ≡ true
    → g a ≡ true
    → g b ≡ true
unfolding create_ascending_comparator negate create_descending_comparator
nonpos-ascending g a b h i = ground arith

nonpos-descending_Bool :
    {A : Type 0} (g : A → Bool) (a b : A)
    → nonpos (create_descending_comparator g a b) ≡ true
    → g b ≡ true
    → g a ≡ true
unfolding create_descending_comparator
nonpos-descending_Bool g a b h i = ground arith

module _ {K : Type 0} ⦃k : Comparable K⦄ (lower : String → K) (own : String)
    (imported important : List String) where
  abbrev pub table_order : Comparator UserToken
  table_order = compare_tokens_for_tokens_table lower own imported important

  table_order-Consistent : Consistent table_order
  unfolding compare_tokens_for_tokens_table
  table_order-Consistent = merge-Consistent _ (
    descending-Consistent (is_icp own),
    (
      descending-Consistent (has_balance_or_is_imported imported),
      (
        ascending-Consistent is_user_token_failed,
        (
          descending-Consistent (importance important),
          (ascending-Consistent (lower_title lower), tt),
        ),
      ),
    ),
  )

  -- what holds of a row and one behind it
  pub record Before (a b : UserToken) : Type 0 where
    pub icp : is_icp own b ≡ true → is_icp own a ≡ true
    funded :
        is_icp own a ≡ is_icp own b
        → has_balance_or_is_imported imported b ≡ true
        → has_balance_or_is_imported imported a ≡ true
    pub failed :
        is_icp own a ≡ is_icp own b
        → has_balance_or_is_imported imported a ≡ has_balance_or_is_imported imported b
        → is_user_token_failed a ≡ true
        → is_user_token_failed b ≡ true

  nonpos-Before : (a b : UserToken) → nonpos (table_order a b) ≡ true → Before a b
  unfolding compare_tokens_for_tokens_table merge_comparators
  nonpos-Before a b h =
      let funded = has_balance_or_is_imported imported in
      let (h₁, r₁) = nonpos-first_of (create_descending_comparator (is_icp own) a b) _ h in
      record {
        icp = nonpos-descending_Bool (is_icp own) a b h₁;
        funded = λ same.
            nonpos-descending_Bool funded a b
              (nonpos-first_of (create_descending_comparator funded a b) _
                (r₁ (descending-equal (is_icp own) a b same))).0;
        failed = λ same same'.
            let (h₂, r₂) =
              nonpos-first_of (create_descending_comparator funded a b) _
                (r₁ (descending-equal (is_icp own) a b same)) in
            nonpos-ascending is_user_token_failed a b
              (nonpos-first_of (create_ascending_comparator is_user_token_failed a b) _
                (r₂ (descending-equal funded a b same'))).0;
      }

  -- each row and all that stand behind it
  abbrev pub AllBefore : List UserToken → Type 0
  AllBefore [] = Unit
  AllBefore (a ∷ bs) = All (λ b. Before a b) bs × AllBefore bs

  All-Before :
      (a : UserToken) (bs : List UserToken)
      → All (λ b. nonpos (table_order a b) ≡ true) bs
      → All (λ b. Before a b) bs
  All-Before a [] h = tt
  All-Before a (b ∷ bs) (h, hs) = (nonpos-Before a b h, All-Before a bs hs)

  IsSorted-AllBefore : (tokens : List UserToken) → IsSorted table_order tokens → AllBefore tokens
  IsSorted-AllBefore [] h = tt
  IsSorted-AllBefore (a ∷ bs) (h, hs) = (All-Before a bs h, IsSorted-AllBefore bs hs)

  -- The sorted table has the same rows, and of a row and one behind it: if the one behind is ICP,
  -- so is the other; if both or neither are ICP and the one behind has a balance or is imported,
  -- so has or is the other; if they agree in that too and the first one has failed, so has the
  -- one behind.
  pub sorted_table-AllBefore :
      (tokens : List UserToken)
      → AllBefore (sort table_order tokens) × Perm (sort table_order tokens) tokens
  sorted_table-AllBefore tokens = (
    IsSorted-AllBefore (sort table_order tokens)
        (sort-IsSorted table_order table_order-Consistent tokens),
    sort-Perm table_order tokens,
  )
