-- ===== src/VoteRegistration/Found.antt =====
-- The entry of a vote in progress, as it is looked up by universe and proposal.
use nns_dapp.Common.{
  ◌≡◌, refl, ap, ◌∙◌, none, some, Option, List, [], ◌∷◌, ◌++◌, String, string_has_eq, find?,
  find?-append, or_else, lookup, insert, returns, throws, get_or_else, arith, Option-cases, inl,
  inr, filter,
}
use nns_dapp.VoteRegistration.{
  simultaneous_voting, Entry, Registrations, is_for, is_not_for, new_entry, moved, change, add,
  remove,
}
use nns_dapp.VoteRegistration.Lifecycle.{lookup-insert_self, find?-filter}

module _ {V : Type 0} where
  abbrev pub entry_of : String → String → Registrations V → Option (Entry V)
  entry_of u p r = find? (is_for p) (get_or_else (lookup u r) [])

  entry_of-insert :
      (u p : String) (entries : List (Entry V)) (r : Registrations V)
      → entry_of u p (insert u entries r) ≡ find? (is_for p) entries
  entry_of-insert u p entries r =
      ap (λ o. find? (is_for p) (get_or_else o [])) (lookup-insert_self u entries r)

  find?-put_last :
      (p : String) (e : Entry V) (entries : List (Entry V))
      → e.proposal_id_string ≡ p
      → find? (is_for p) entries ≡ none
      → find? (is_for p) (entries ++ e ∷ []) ≡ some e
  find?-put_last p e entries same missing =
      find?-append (is_for p) entries (e ∷ [])
      ∙ ap (λ o. or_else o (find? (is_for p) (e ∷ []))) missing
      ∙ ground (arith, string_has_eq.eqb_iff e.proposal_id_string p)

  -- where no vote on the proposal is in progress, one can begin
  pub add-found :
      (u p : String) (ns : List String) (vote : V) (r : Registrations V)
      → entry_of u p r ≡ none
      → (r' : Registrations V) × (add u p ns vote r ≡ returns r')
        × (entry_of u p r' ≡ some (new_entry p ns vote))
  unfolding add
  add-found u p ns vote r missing = elim (Option-cases (lookup u r)) [
    | inl no_list ↦ (
      insert u (new_entry p ns vote ∷ []) r,
      ground arith,
      entry_of-insert u p (new_entry p ns vote ∷ []) r
          ∙ find?-put_last p (new_entry p ns vote) [] refl refl,
    )
    | inr (entries, here) ↦
        let none_for_p : find? (is_for p) entries ≡ none = ground arith in
        (
          insert u (entries ++ new_entry p ns vote ∷ []) r,
          ground arith,
          entry_of-insert u p (entries ++ new_entry p ns vote ∷ []) r
              ∙ find?-put_last p (new_entry p ns vote) entries refl none_for_p,
        )
  ]

  -- and while it is, no second one can
  pub add-refused :
      (u p : String) (ns : List String) (vote : V) (r : Registrations V) {e : Entry V}
      → entry_of u p r ≡ some e
      → add u p ns vote r ≡ throws simultaneous_voting
  unfolding add
  add-refused u p ns vote r {e} found = elim (Option-cases (lookup u r)) [
    | inl no_list ↦ absurd (ground arith)
    | inr (entries, here) ↦ ground arith
  ]

  pub change-found :
      (u p : String) (f : Entry V → Entry V) (r : Registrations V) (e : Entry V)
      → entry_of u p r ≡ some e
      → (f e).proposal_id_string ≡ p
      → (r' : Registrations V) × (change u p f r ≡ returns r') × (entry_of u p r' ≡ some (f e))
  change-found u p f r e found same = elim (Option-cases (lookup u r)) [
    | inl no_list ↦ absurd (ground arith)
    | inr (entries, here) ↦ (
      insert u (moved p (f e) entries) r,
      ground arith,
      entry_of-insert u p (moved p (f e) entries) r
          ∙ find?-put_last p (f e) (filter (is_not_for p) entries) same (find?-filter p entries),
    )
  ]

  pub remove-found :
      (u p : String) (r : Registrations V) {e : Entry V}
      → entry_of u p r ≡ some e
      → (r' : Registrations V) × (remove u p r ≡ returns r') × (entry_of u p r' ≡ none)
  unfolding remove
  remove-found u p r {e} found = elim (Option-cases (lookup u r)) [
    | inl no_list ↦ absurd (ground arith)
    | inr (entries, here) ↦ (
      insert u (filter (is_not_for p) entries) r,
      ground arith,
      entry_of-insert u p (filter (is_not_for p) entries) r ∙ find?-filter p entries,
    )
  ]
