-- ===== src/Proposals/Merge.antt =====
-- The merged lists, item by item.
use nns_dapp.Common.{
  ℕ, nat_has_eq, option_has_eq, ◌≡◌, refl, ap, ◌∙◌, Bool, Option, some, List, [], ◌∷◌, ◌++◌, map,
  not, ◌==◌, ◌&&◌, filter, filter-All, find?, contains, contains-unique, arith, Option-cases, inl,
  inr, eq_of_eqb, ap₂, find?-holds, All-map, All-filter, is_some,
}
use nns_dapp.Proposals.{
  defined_ids, proposal_id_set, has_id, exclude_proposals, concatenate_unique_proposals, newest_of,
  replace_proposals, replace_and_concatenate_proposals,
}

module _ {P : Type 0} (id : P → Option ℕ) where
  contains-defined_ids :
      (ps : List P) (n : ℕ) → contains (defined_ids id ps) n ≡ contains (map id ps) (some n)
  contains-defined_ids [] n = refl
  contains-defined_ids (p ∷ ps) n = ground (arith, contains-defined_ids ps n)

  -- Whether an item is excluded: its id is defined, and the other list has it.
  abbrev excluded : List P → P → Bool
  excluded exclusion p = is_some (id p) && contains (map id exclusion) (id p)

  has_id-proposal_id_set :
      (exclusion : List P) (p : P)
      → has_id id (proposal_id_set id exclusion) (id p) ≡ excluded exclusion p
  unfolding proposal_id_set
  has_id-proposal_id_set exclusion p = elim (Option-cases (id p)) [
    | inl missing ↦ rw missing
    | inr (n, found) ↦
        rw found (contains-unique (defined_ids id exclusion) n ∙ contains-defined_ids exclusion n)
  ]

  pub exclude_proposals-eq :
      (proposals exclusion : List P)
      → exclude_proposals id proposals exclusion
        ≡ filter (λ p. not (excluded exclusion p)) proposals
  unfolding exclude_proposals
  exclude_proposals-eq proposals exclusion =
      ap (λ f. filter f proposals) (λ i p. not (has_id-proposal_id_set exclusion p i))

  pub newest_of-id : (new : List P) (p : P) → id (newest_of id new p) ≡ id p
  newest_of-id new p = elim (Option-cases (find? (λ q. id q == id p) new)) [
    | inl missing ↦ rw missing
    | inr (q, found) ↦
        rw found (eq_of_eqb (id q) (id p) (find?-holds (λ q. id q == id p) new found))
  ]

  -- Replacing keeps the ids and their order.
  pub map-id-replace_proposals :
      (old new : List P) → map id (replace_proposals id old new) ≡ map id old
  unfolding replace_proposals
  map-id-replace_proposals [] new = refl
  map-id-replace_proposals (p ∷ old) new =
      ap₂ (λ x xs. x ∷ xs) (newest_of-id new p) (map-id-replace_proposals old new)

  -- the new items whose id the old list lacks
  abbrev pub brand_new : List P → List P → List P
  brand_new old new = filter (λ p. not (contains (map id old) (id p))) new

  nothing_excluded :
      (exclusion old new : List P)
      → map id exclusion ≡ map id old
      → exclude_proposals id (brand_new old new) exclusion ≡ brand_new old new
  nothing_excluded exclusion old new same =
      exclude_proposals-eq (brand_new old new) exclusion
      ∙ rw same (
          filter-All _ (brand_new old new) (
            All-map _ _ (λ (p : P) h. ground arith) (brand_new old new)
              (All-filter (λ p. not (contains (map id old) (id p))) new)))

  -- The second exclusion in `replaceAndConcatenateProposals` drops nothing: the result is the
  -- replaced old list followed by the new items whose id it lacks.
  pub replace_and_concatenate-eq :
      (old new : List P)
      → replace_and_concatenate_proposals id old new
        ≡ replace_proposals id old new ++ brand_new old new
  unfolding replace_and_concatenate_proposals concatenate_unique_proposals replace_proposals
  replace_and_concatenate-eq old new =
      let updated = replace_proposals id old new in
      ap
        (λ ids.
          updated ++ exclude_proposals id (filter (λ p. not (contains ids (id p))) new) updated)
        (map-id-replace_proposals old new)
      ∙ ap (λ l. updated ++ l) (nothing_excluded updated old new (map-id-replace_proposals old new))
