-- ===== src/Transactions/Pages.antt =====
-- What a page of transactions changes in the list of an account.
use nns_dapp.Common.{
  ℕ, nat_has_eq, Bool, true, not, ◌==◌, ◌&&◌, [], ◌∷◌, filter, Bool-cases, inl, inr, ◌≡◌, refl, sym,
  ap, ap₂, ◌∙◌, Option, none, some, List, [], ◌++◌, append-nil, map, contains, Distinct,
  Distinct-unique_from, contains-unique_from, unique_from, unique_from-append, unique_from-Distinct,
  unique_from_congr, arith, Disjoint-nil, min,
}
use nns_dapp.Transactions.{new_oldest_tx_id, get_unique_transactions}

-- the older of two ids that may be missing
abbrev pub oldest : Option ℕ → Option ℕ → Option ℕ
oldest none b = b
oldest (some a) none = some a
oldest (some a) (some b) = some (min a b)

-- The id that is kept is the smallest of all that were reported.
pub new_oldest_tx_id-eq-oldest : (a b : Option ℕ) → new_oldest_tx_id a b ≡ oldest a b
unfolding new_oldest_tx_id
new_oldest_tx_id-eq-oldest none b = refl
new_oldest_tx_id-eq-oldest (some a) none = ground arith
new_oldest_tx_id-eq-oldest (some a) (some b) = ground arith

module _ {T : Type 0} (id : T → ℕ) where
  abbrev pub ids : List T → List ℕ
  ids ts = map id ts

  -- No two transactions of the result have one id.
  pub Distinct-get_unique : (ts : List T) → Distinct (ids (get_unique_transactions id ts))
  unfolding get_unique_transactions
  Distinct-get_unique ts = Distinct-unique_from id [] ts

  contains-get_unique :
      (ts : List T) (i : ℕ) → contains (ids (get_unique_transactions id ts)) i ≡ contains (ids ts) i
  unfolding get_unique_transactions
  contains-get_unique ts i = contains-unique_from id [] ts i

  -- each id where it comes first, by removing what follows with the same id
  unfoldable pub firsts : List T → List T
  firsts [] = []
  firsts (t ∷ ts) = t ∷ filter (λ u. not (id t == id u)) (firsts ts)

  filter-twice :
      (p q r : T → Bool) (ts : List T)
      → ((t : T) → q t && p t ≡ r t)
      → filter p (filter q ts) ≡ filter r ts
  filter-twice p q r [] h = refl
  filter-twice p q r (t ∷ ts) h = ground (arith, h t, filter-twice p q r ts h)

  unique_from-firsts :
      (seen : List ℕ) (ts : List T)
      → unique_from id seen ts ≡ filter (λ u. not (contains seen (id u))) (firsts ts)
  unfolding unique_from firsts
  unique_from-firsts seen [] = refl
  unique_from-firsts seen (t ∷ ts) = elim (Bool-cases (contains seen (id t))) [
    | inl old ↦
        let skip =
          filter-twice (λ u. not (contains seen (id u))) (λ u. not (id t == id u))
            (λ u. not (contains seen (id u))) (firsts ts)
            (λ u. ground (arith, old, nat_has_eq.eqb_iff (id t) (id u), ap (contains seen))) in
        ground (arith, old, unique_from-firsts seen ts, skip)
    | inr fresh ↦
        let skip =
          filter-twice (λ u. not (contains seen (id u))) (λ u. not (id t == id u))
            (λ u. not (contains (id t ∷ seen) (id u))) (firsts ts) (λ u. ground arith) in
        ground (arith, fresh, unique_from-firsts (id t ∷ seen) ts, skip)
  ]

  filter-all : (ts : List T) → filter (λ u. true) ts ≡ ts
  filter-all [] = refl
  filter-all (t ∷ ts) = ap (λ l. t ∷ l) (filter-all ts)

  pub get_unique-eq-firsts : (ts : List T) → get_unique_transactions id ts ≡ firsts ts
  unfolding get_unique_transactions
  get_unique-eq-firsts ts = unique_from-firsts [] ts ∙ filter-all (firsts ts)

  -- the transactions of a page whose id is neither listed nor earlier in the page
  abbrev pub fresh_of : List T → List T → List T
  fresh_of listed page = unique_from id (ids listed) page

  -- A page leaves the listed transactions in their places and puts the new ones behind them.
  pub get_unique-append :
      (listed page : List T)
      → Distinct (ids listed)
      → get_unique_transactions id (listed ++ page) ≡ listed ++ fresh_of listed page
  unfolding get_unique_transactions
  get_unique-append listed page d =
      unique_from-append id [] listed page
      ∙ ap₂ (λ xs seen. xs ++ unique_from id seen page)
          (unique_from-Distinct id [] listed d (Disjoint-nil (ids listed)))
          (append-nil (ids listed))

  -- Loading two pages one after the other lists what one page of both would.
  pub get_unique-pages :
      (listed first second : List T)
      → get_unique_transactions id (get_unique_transactions id (listed ++ first) ++ second)
        ≡ get_unique_transactions id (listed ++ first ++ second)
  unfolding get_unique_transactions
  get_unique-pages listed first second =
      let l = get_unique_transactions id (listed ++ first) in
      get_unique-append l second (Distinct-get_unique (listed ++ first))
      ∙ ap (λ ts. l ++ ts)
          (unique_from_congr id (ids l) (ids (listed ++ first) ++ []) second (λ k.
            contains-get_unique (listed ++ first) k
            ∙ ap (λ seen. contains seen k) (sym (append-nil (ids (listed ++ first))))))
      ∙ sym (unique_from-append id [] (listed ++ first) second)
