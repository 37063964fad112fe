-- ===== src/Transactions/Accounts.antt =====
-- The accounts of the two stores are independent, and each lists the pages loaded for it.
use nns_dapp.Common.{
  ℕ, nat_has_eq, ◌≡◌, refl, sym, ap, subst, ◌∙◌, Bool, Option, none, some, List, [], ◌∷◌, ◌++◌,
  append-nil, append_assoc, String, string_has_eq, ◌==◌, ◌&&◌, lookup, lookup-insert, insert,
  remove_keys, lookup-remove_keys, get_or_else, Distinct, arith, if◌then◌else◌, Bool-cases,
  Option-cases, inl, inr,
}
use nns_dapp.Transactions.{
  AccountState, transactions_of, get_unique_transactions, merge, add_icp_transactions, account_in,
  add_icrc_transactions, reset_icrc_account,
}
use nns_dapp.Transactions.Pages.{
  firsts, get_unique-eq-firsts, ids, Distinct-get_unique, get_unique-append, get_unique-pages,
}

-- a response that is added to an account
pub record Page (T : Type 0) : Type 0 where
  pub account : String
  pub transactions : List T
  pub oldest_tx_id : Option ℕ
  pub completed : Bool

module _ {T : Type 0} where
  pub pages_for : String → List (Page T) → List T
  pages_for a [] = []
  pages_for a (p ∷ ps) = if p.account == a then p.transactions ++ pages_for a ps else pages_for a ps

module _ {T : Type 0} where
  abbrev pub account_at :
      String → String → List (String × List (String × AccountState T)) → Option (AccountState T)
  account_at canister account s = account_in (lookup canister s) account

  -- Resetting an account of a universe forgets that account alone.
  account_at-reset_icrc :
      (c a d b : String) (s : List (String × List (String × AccountState T)))
      → account_at d b (reset_icrc_account c a s)
        ≡ (if (c == d) && (a == b) then none else account_at d b s)
  unfolding reset_icrc_account
  account_at-reset_icrc c a d b s =
      let others = remove_keys (c ∷ []) s in
      let kept = lookup-remove_keys (c ∷ []) d s in
      elim (Bool-cases (c == d)) [
        | inl same ↦
            let at : lookup c s ≡ lookup d s =
              ap (λ x. lookup x s) ((string_has_eq.eqb_iff c d).0 same) in
            elim (Option-cases (lookup c s)) [
              | inl missing ↦ ground (arith, kept)
              | inr (project, here) ↦ ground (
                arith,
                lookup-insert c d (remove_keys (a ∷ []) project) others,
                lookup-remove_keys (a ∷ []) b project,
              )
            ]
        | inr other ↦ elim (Option-cases (lookup c s)) [
          | inl missing ↦ ground (arith, kept)
          | inr (project, here) ↦
              ground (arith, kept, lookup-insert c d (remove_keys (a ∷ []) project) others)
        ]
      ]

module _ {T : Type 0} (id : T → ℕ) where
  unfoldable pub add_all :
      List (Page T) → List (String × AccountState T) → List (String × AccountState T)
  unfolding add_icp_transactions
  add_all [] s = s
  add_all (p ∷ ps) s =
      add_all ps (add_icp_transactions id p.account p.transactions p.oldest_tx_id p.completed s)

  abbrev pub listed : String → List (String × AccountState T) → List T
  listed a s = transactions_of (lookup a s)

  listed-add :
      (a : String) (p : Page T) (s : List (String × AccountState T))
      → listed a (add_icp_transactions id p.account p.transactions p.oldest_tx_id p.completed s) ≡ (
          if p.account == a
          then get_unique_transactions id (listed p.account s ++ p.transactions)
          else listed a s)
  unfolding add_icp_transactions
  listed-add a p s = ground (
    arith,
    lookup-insert p.account a
        (merge id (lookup p.account s) p.transactions p.oldest_tx_id p.completed) s,
  )

  get_unique-listed :
      (ts : List T) → Distinct (ids id ts) → ts ≡ get_unique_transactions id (ts ++ [])
  unfolding get_unique_transactions
  get_unique-listed ts d = sym (get_unique-append id ts [] d ∙ append-nil ts)

  listed-add_all :
      (a : String) (ps : List (Page T)) (s : List (String × AccountState T))
      → Distinct (ids id (listed a s))
      → listed a (add_all ps s) ≡ get_unique_transactions id (listed a s ++ pages_for a ps)
  unfolding add_all pages_for
  listed-add_all a [] s d = get_unique-listed (listed a s) d
  listed-add_all a (p ∷ ps) s d =
      let s' = add_icp_transactions id p.account p.transactions p.oldest_tx_id p.completed s in
      elim (Bool-cases (p.account == a)) [
        | inl same ↦
            let e : p.account ≡ a = (string_has_eq.eqb_iff p.account a).0 same in
            let now : listed a s' ≡ get_unique_transactions id (listed a s ++ p.transactions) =
              listed-add a p s
              ∙ rw same (ap (λ b. get_unique_transactions id (listed b s ++ p.transactions)) e) in
            listed-add_all a ps s' (rw now (Distinct-get_unique id (listed a s ++ p.transactions)))
            ∙ ap (λ ts. get_unique_transactions id (ts ++ pages_for a ps)) now
            ∙ get_unique-pages id (listed a s) p.transactions (pages_for a ps)
            ∙ ap (get_unique_transactions id)
                (append_assoc (listed a s) p.transactions (pages_for a ps))
            ∙ rw same
        | inr other ↦
            let now : listed a s' ≡ listed a s = listed-add a p s ∙ rw other in
            listed-add_all a ps s' (rw now d)
            ∙ ap (λ ts. get_unique_transactions id (ts ++ pages_for a ps)) now
            ∙ rw other
      ]

  -- After any pages, an account that listed different ids lists its transactions and then those of
  -- the pages for it, each id where it came first and nowhere behind; pages of other accounts do not
  -- matter.
  pub listed-firsts :
      (a : String) (ps : List (Page T)) (s : List (String × AccountState T))
      → Distinct (ids id (listed a s))
      → (listed a (add_all ps s) ≡ firsts id (listed a s ++ pages_for a ps))
        × Distinct (ids id (listed a (add_all ps s)))
  listed-firsts a ps s d =
      let all = listed a s ++ pages_for a ps in
      let e = listed-add_all a ps s d in
      (
        e ∙ get_unique-eq-firsts id all,
        subst (λ ts. Distinct (ids id ts)) (sym e) (Distinct-get_unique id all),
      )

  lookup-get_or_else :
      (a : String) (o : Option (List (String × AccountState T)))
      → lookup a (get_or_else o []) ≡ account_in o a
  lookup-get_or_else a none = refl
  lookup-get_or_else a (some accounts) = refl

  -- Adding to an account of a universe changes that account alone.
  pub account_at-add_icrc :
      (c a d b : String) (ts : List T) (oldest : Option ℕ) (completed : Bool)
      (s : List (String × List (String × AccountState T)))
      → account_at d b (add_icrc_transactions id c a ts oldest completed s) ≡ (
          if (c == d) && (a == b)
          then some (merge id (account_at c a s) ts oldest completed)
          else account_at d b s)
  unfolding add_icrc_transactions
  account_at-add_icrc c a d b ts oldest completed s =
      let state = merge id (account_at c a s) ts oldest completed in
      let accounts = insert a state (get_or_else (lookup c s) []) in
      ap (λ o. account_in o b) (lookup-insert c d accounts s) ∙ elim (Bool-cases (c == d)) [
        | inl same ↦
            let e : c ≡ d = (string_has_eq.eqb_iff c d).0 same in
            rw same (
              lookup-insert a b state (get_or_else (lookup c s) [])
              ∙ ap (λ o. if a == b then some state else o)
                  (lookup-get_or_else b (lookup c s) ∙ ap (λ x. account_at x b s) e))
        | inr other ↦ rw other
      ]
