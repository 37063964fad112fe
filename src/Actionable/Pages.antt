-- ===== src/Actionable/Pages.antt =====
-- The loop over pages of frontend/src/lib/services/actionable-proposals.services.ts, where the
-- canister lists its proposals in descending order of their ids and answers each request with the
-- first of those below the given id.
use nns_dapp.Common.{
  ℕ, zero, suc, ◌+◌, ◌*◌, ◌≤◌, ◌<◌, nat_has_eq, ◌==◌, ◌≡◌, refl, sym, ap, subst, ◌∙◌, inl, inr,
  true, Option, none, some, List, [], ◌∷◌, ◌++◌, append_assoc, append-nil, length, filter,
  filter-All, last?, take, drop, take-drop, take_add, take_all, length-take_short, All, All-prefix,
  All-last?, All-map, ltb, Outcome, returns, arith, Bool-cases,
}
use nns_dapp.Actionable.{load_pages}

module _ {P : Type 0} (number : P → ℕ) where
  abbrev pub Descending : List P → Type 0
  Descending [] = Unit
  Descending (x ∷ xs) = All (λ y. number y < number x) xs × Descending xs

  pub Descending-prefix : (xs ys : List P) → Descending (xs ++ ys) → Descending xs
  Descending-prefix [] ys d = tt
  Descending-prefix (x ∷ xs) ys (h, d) = (All-prefix _ xs ys h, Descending-prefix xs ys d)

  abbrev pub below : Option ℕ → List P → List P
  below none all = all
  below (some before) all = filter (λ p. ltb (number p) before) all

  below-last :
      (xs ys : List P) {x : P}
      → Descending (xs ++ ys)
      → last? xs ≡ some x
      → below (some (number x)) (xs ++ ys) ≡ ys
  below-last [] ys d e = cc
  below-last (y ∷ []) ys {x} (h, d) e =
      let same : y ≡ x = ground arith in
      let small : All (λ z. ltb (number z) (number y) ≡ true) ys =
        All-map _ _ (λ z (k : number z < number y). ground arith) ys h in
      subst (λ z. below (some (number z)) (y ∷ ys) ≡ ys) same
        (ground (arith, filter-All (λ p. ltb (number p) (number y)) ys small))
  below-last (y ∷ z ∷ zs) ys {x} (h, d) e =
      let last-small : number x < number y =
        All-last? (λ p. number p < number y) (z ∷ zs) (All-prefix _ (z ∷ zs) ys h) e in
      ground (arith, below-last (z ∷ zs) ys {x = x} d e)

  -- What `load_pages` is given does its part on lists in descending order.
  pub record Ordered (last_id : List P → Option ℕ) (sort_by_id : List P → List P) : Type 0 where
    pub at_start : last_id [] ≡ none
    pub last :
        (xs : List P) {x : P} → Descending xs → last? xs ≡ some x → last_id xs ≡ some (number x)
    pub sorted : (xs : List P) → Descending xs → sort_by_id xs ≡ xs

  last?-cons : (x : P) (xs : List P) → (y : P) × (last? (x ∷ xs) ≡ some y)
  last?-cons x [] = (x, refl)
  last?-cons x (y ∷ ys) = last?-cons y ys

  below-last_id :
      {last_id : List P → Option ℕ} {sort_by_id : List P → List P}
      → Ordered last_id sort_by_id
      → (xs ys : List P) → Descending (xs ++ ys)
      → below (last_id xs) (xs ++ ys) ≡ ys
  below-last_id o [] ys d = ap (λ b. below b ys) o.at_start
  below-last_id o (x ∷ xs) ys d =
      let (y, e) = last?-cons x xs in
      ap (λ b. below b (x ∷ xs ++ ys)) (o.last (x ∷ xs) (Descending-prefix (x ∷ xs) ys d) e)
      ∙ below-last (x ∷ xs) ys d e

  module _ {E : Type 0} (limit : ℕ) {last_id : List P → Option ℕ} {sort_by_id : List P → List P}
      (query : ℕ → Option ℕ → Outcome E (List P)) (o : Ordered last_id sort_by_id) (all : List P)
      (d : Descending all)
      (answers : (k : ℕ) (before : Option ℕ)
        → query k before ≡ returns (take limit (below before all))) where
    page_of :
        (k : ℕ) (xs ys : List P) → all ≡ xs ++ ys → query k (last_id xs) ≡ returns (take limit ys)
    page_of k xs ys e =
        answers k (last_id xs)
        ∙ ap (λ l. returns (take limit (below (last_id xs) l))) e
        ∙ ap (λ l. returns (take limit l)) (below-last_id o xs ys (subst Descending e d))

    more : (xs ys : List P) → all ≡ xs ++ ys → all ≡ (xs ++ take limit ys) ++ drop limit ys
    more xs ys e =
        e
        ∙ ap (λ l. xs ++ l) (sym (take-drop limit ys))
        ∙ sym (append_assoc xs (take limit ys) (drop limit ys))

    sorted_more :
        (xs ys : List P) → all ≡ xs ++ ys → sort_by_id (xs ++ take limit ys) ≡ xs ++ take limit ys
    sorted_more xs ys e = o.sorted (xs ++ take limit ys) (
        Descending-prefix (xs ++ take limit ys) (drop limit ys) (subst Descending (more xs ys e) d))

    pub load_pages-eq :
        (rounds k : ℕ) (xs ys : List P)
        → all ≡ xs ++ ys
        → load_pages limit last_id sort_by_id query rounds k xs
          ≡ returns (xs ++ take (rounds * limit) ys)
    unfolding load_pages
    load_pages-eq zero k xs ys e =
        let z : 0 * limit ≡ 0 = omega arith in rw z (ap returns (sym (append-nil xs)))
    load_pages-eq (suc rounds) k xs ys e =
        let s : suc rounds * limit ≡ limit + rounds * limit = grind arith in
        let page = page_of k xs ys e in
        let sorted = sorted_more xs ys e in
        elim (Bool-cases (length (take limit ys) == limit)) [
          | inl full ↦
              rw (load_pages, page, sorted, full)
                (load_pages-eq rounds (suc k) (xs ++ take limit ys) (drop limit ys) (more xs ys e)
                  ∙ ap returns (
                      append_assoc xs (take limit ys) (take (rounds * limit) (drop limit ys))
                      ∙ ap (λ l. xs ++ l)
                          (sym (ap (λ n. take n ys) s ∙ take_add limit (rounds * limit) ys))))
          | inr short ↦
              rw (load_pages, page, sorted, short)
                (let few : length ys ≤ limit = length-take_short limit ys (ground arith) in
                  ap (λ l. returns (xs ++ l))
                    (take_all limit ys few ∙ sym (take_all (suc rounds * limit) ys (grind arith))))
        ]
