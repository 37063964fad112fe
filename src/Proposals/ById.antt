-- ===== src/Proposals/ById.antt =====
-- The merged lists seen as maps from ids to proposals: what a lookup by id finds in them.
use nns_dapp.Common.{
  ℕ, nat_has_eq, option_has_eq, ◌≡◌, refl, ap, ap₂, ◌∙◌, Bool, Option, none, some, List, [], ◌∷◌,
  map, not, ◌==◌, ◌&&◌, filter, find?, find?-append, contains, get_or_else, or_else, arith, is_some,
  Bool-cases, inl, inr, if◌then◌else◌, eq_of_eqb,
}
use mathlib.Core.Option
use nns_dapp.Proposals.{
  exclude_proposals, concatenate_unique_proposals, replace_proposals,
  replace_and_concatenate_proposals,
}
use nns_dapp.Proposals.Merge.{
  newest_of-id, exclude_proposals-eq, brand_new, replace_and_concatenate-eq,
}

module _ {P : Type 0} (id : P → Option ℕ) where
  -- the first proposal with the id
  abbrev pub find_id : ℕ → List P → Option P
  find_id k ps = find? (λ p. id p == some k) ps

  -- A filter that looks at the id alone keeps or drops all proposals of an id.
  find_id-filter :
      (f : Option ℕ → Bool) (k : ℕ) (ps : List P)
      → find_id k (filter (λ p. f (id p)) ps) ≡ (if f (some k) then find_id k ps else none)
  find_id-filter f k [] = ground arith
  find_id-filter f k (p ∷ ps) = elim (Bool-cases (id p == some k)) [
    | inl same ↦ ground (arith, find_id-filter f k ps, ap f (eq_of_eqb (id p) (some k) same))
    | inr other ↦ ground (arith, find_id-filter f k ps)
  ]

  contains-find_id : (k : ℕ) (ps : List P) → contains (map id ps) (some k) ≡ is_some (find_id k ps)
  contains-find_id k [] = refl
  contains-find_id k (p ∷ ps) = ground (arith, contains-find_id k ps)

  -- What is excluded is no longer found, and all else is found as before.
  pub find_id-exclude_proposals :
      (k : ℕ) (proposals exclusion : List P)
      → find_id k (exclude_proposals id proposals exclusion)
        ≡ (if is_some (find_id k exclusion) then none else find_id k proposals)
  find_id-exclude_proposals k proposals exclusion =
      ap (find_id k) (exclude_proposals-eq id proposals exclusion)
      ∙ find_id-filter (λ i. not (is_some i && contains (map id exclusion) i)) k proposals
      ∙ ground (arith, contains-find_id k exclusion)

  -- An uncertified page is appended: proposals that the list has already win.
  pub find_id-concatenate_unique :
      (k : ℕ) (old new : List P)
      → find_id k (concatenate_unique_proposals id old new)
        ≡ or_else (find_id k old) (find_id k new)
  unfolding concatenate_unique_proposals
  find_id-concatenate_unique k old new =
      find?-append (λ p. id p == some k) old (exclude_proposals id new old)
      ∙ ground (arith, find_id-exclude_proposals k new old)

  -- Replacing changes the proposals that the list has, and adds none.
  pub find_id-replace_proposals :
      (k : ℕ) (old new : List P)
      → find_id k (replace_proposals id old new)
        ≡ Option.map (get_or_else (find_id k new)) (find_id k old)
  unfolding replace_proposals
  find_id-replace_proposals k [] new = refl
  find_id-replace_proposals k (p ∷ old) new =
      rw (newest_of-id id new p) (elim (Bool-cases (id p == some k)) [
        | inl same ↦ rw same (
            ap (λ i. some (get_or_else (find? (λ q. id q == i) new) p))
              (eq_of_eqb (id p) (some k) same))
        | inr other ↦ rw other (find_id-replace_proposals k old new)
      ])

  -- A certified page replaces and extends: the proposals of the page win.
  pub find_id-replace_and_concatenate :
      (k : ℕ) (old new : List P)
      → find_id k (replace_and_concatenate_proposals id old new)
        ≡ or_else (find_id k new) (find_id k old)
  find_id-replace_and_concatenate k old new =
      ap (find_id k) (replace_and_concatenate-eq id old new)
      ∙ find?-append (λ p. id p == some k) (replace_proposals id old new) (brand_new id old new)
      ∙ ap₂ or_else (find_id-replace_proposals k old new)
          (find_id-filter (λ i. not (contains (map id old) i)) k new)
      ∙ ground (arith, contains-find_id k old)
