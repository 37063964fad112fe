-- ===== src/VoteRegistration/Entries.antt =====
-- No universe has two votes in progress for one proposal, and no neuron is counted twice.
use nns_dapp.Common.{
  ◌≡◌, refl, ap, subst, ◌∙◌, false, some, List, [], ◌∷◌, ◌++◌, String, string_has_eq, not, ◌==◌,
  map, map-append, filter, find?, contains, contains-filter, insert, lookup, returns, is_some,
  arith, All, All-append, Distinct, Distinct-snoc, find?-holds, All-find?, Distinct-filter,
  Distinct-unique, Option-cases, Bool-cases, inl, inr, eq_of_eqb,
}
use nns_dapp.VoteRegistration.{
  VoteRegistrationStatus, Entry, Registrations, is_for, is_not_for, new_entry, moved, change,
  with_voted, add, add_successfully_voted_neuron_id, update_status, remove, reset,
}

module _ {V : Type 0} where
  abbrev proposal_of : Entry V → String
  proposal_of e = e.proposal_id_string

  pub record ValidEntries (entries : List (Entry V)) : Type 0 where
    pub proposals : Distinct (map proposal_of entries)
    voted : All (λ (e : Entry V). Distinct e.successfully_voted) entries

  -- every universe's entries are valid
  abbrev pub IsValid : Registrations V → Type 0
  IsValid registrations = All (λ (r : String × List (Entry V)). ValidEntries r.1) registrations

  lookup-IsValid :
      (c : String) (r : Registrations V) {entries : List (Entry V)}
      → IsValid r
      → lookup c r ≡ some entries
      → ValidEntries entries
  lookup-IsValid c [] v e = cc
  lookup-IsValid c ((d, es) ∷ r) {entries} (h, v) e = elim (Bool-cases (d == c)) [
    | inl same ↦ let found : es ≡ entries = ground arith in subst ValidEntries found h
    | inr other ↦ lookup-IsValid c r v (rw other at e)
  ]

  insert-IsValid :
      (c : String) (entries : List (Entry V)) (r : Registrations V)
      → ValidEntries entries
      → IsValid r
      → IsValid (insert c entries r)
  insert-IsValid c entries [] h v = (h, tt)
  insert-IsValid c entries ((d, es) ∷ r) h (k, v) = elim (Bool-cases (d == c)) [
    | inl same ↦ rw same (h, v)
    | inr other ↦ rw other (k, insert-IsValid c entries r h v)
  ]

  proposals-filter :
      (p : String) (entries : List (Entry V))
      → map proposal_of (filter (is_not_for p) entries)
        ≡ filter (λ q. not (q == p)) (map proposal_of entries)
  proposals-filter p [] = refl
  proposals-filter p (e ∷ entries) = ground (arith, proposals-filter p entries)

  voted-filter :
      (p : String) (entries : List (Entry V))
      → All (λ (e : Entry V). Distinct e.successfully_voted) entries
      → All (λ (e : Entry V). Distinct e.successfully_voted) (filter (is_not_for p) entries)
  voted-filter p [] h = tt
  voted-filter p (e ∷ entries) (h, hs) = elim (Bool-cases (e.proposal_id_string == p)) [
    | inl same ↦ rw same (voted-filter p entries hs)
    | inr other ↦ rw other (h, voted-filter p entries hs)
  ]

  filter-ValidEntries :
      (p : String) (entries : List (Entry V))
      → ValidEntries entries
      → ValidEntries (filter (is_not_for p) entries)
  filter-ValidEntries p entries v = record {
    proposals =
        rw (proposals-filter p entries) (Distinct-filter _ (map proposal_of entries) v.proposals);
    voted = voted-filter p entries v.voted;
  }

  -- an entry behind others that are for other proposals
  append-ValidEntries :
      (entries : List (Entry V)) (e : Entry V)
      → ValidEntries entries
      → contains (map proposal_of entries) e.proposal_id_string ≡ false
      → Distinct e.successfully_voted
      → ValidEntries (entries ++ e ∷ [])
  append-ValidEntries entries e v n d = record {
    proposals =
        rw map-append (Distinct-snoc (map proposal_of entries) e.proposal_id_string v.proposals n);
    voted = All-append _ entries (e ∷ []) v.voted (d, tt);
  }

  moved-ValidEntries :
      (p : String) (e : Entry V) (entries : List (Entry V))
      → ValidEntries entries
      → e.proposal_id_string ≡ p
      → Distinct e.successfully_voted
      → ValidEntries (moved p e entries)
  moved-ValidEntries p e entries v same d =
      append-ValidEntries (filter (is_not_for p) entries) e (filter-ValidEntries p entries v)
        (ap (λ l. contains l e.proposal_id_string) (proposals-filter p entries)
          ∙ contains-filter _ (map proposal_of entries) e.proposal_id_string
          ∙ ground (arith, string_has_eq.eqb_iff e.proposal_id_string p))
        d

  contains-find? :
      (p : String) (entries : List (Entry V))
      → contains (map proposal_of entries) p ≡ is_some (find? (is_for p) entries)
  contains-find? p [] = refl
  contains-find? p (e ∷ entries) = ground (arith, contains-find? p entries)

  -- an update of an entry that leaves its proposal alone
  pub record KeepsEntry (f : Entry V → Entry V) : Type 0 where
    pub proposal : (e : Entry V) → (f e).proposal_id_string ≡ e.proposal_id_string
    voted : (e : Entry V) → Distinct e.successfully_voted → Distinct (f e).successfully_voted

  change-IsValid :
      (c p : String) (f : Entry V → Entry V) (r r' : Registrations V)
      → KeepsEntry f
      → IsValid r
      → change c p f r ≡ returns r'
      → IsValid r'
  change-IsValid c p f r r' k v h = elim (Option-cases (lookup c r)) [
    | inl missing ↦ absurd (ground arith)
    | inr (entries, here) ↦
        let valid = lookup-IsValid c r v here in
        elim (Option-cases (find? (is_for p) entries)) [
          | inl missing ↦ let same : r ≡ r' = ground arith in subst IsValid same v
          | inr (e, found) ↦
              let ours = eq_of_eqb e.proposal_id_string p (find?-holds (is_for p) entries found) in
              let same : insert c (moved p (f e) entries) r ≡ r' = ground arith in
              subst IsValid same (
                insert-IsValid c (moved p (f e) entries) r
                  (moved-ValidEntries p (f e) entries valid (k.proposal e ∙ ours)
                    (k.voted e (All-find? _ (is_for p) entries valid.voted found)))
                  v)
        ]
  ]

  add-IsValid :
      (c p : String) (ns : List String) (vote : V) (r r' : Registrations V)
      → IsValid r
      → add c p ns vote r ≡ returns r'
      → IsValid r'
  unfolding add
  add-IsValid c p ns vote r r' v h = elim (Option-cases (lookup c r)) [
    | inl missing ↦
        let same : insert c (new_entry p ns vote ∷ []) r ≡ r' = ground arith in
        subst IsValid same (
          insert-IsValid c (new_entry p ns vote ∷ []) r
            (record { proposals = (refl, tt); voted = (tt, tt) }) v)
    | inr (entries, here) ↦
        let free : is_some (find? (is_for p) entries) ≡ false = ground arith in
        let same : insert c (entries ++ new_entry p ns vote ∷ []) r ≡ r' = ground arith in
        subst IsValid same (
          insert-IsValid c (entries ++ new_entry p ns vote ∷ []) r
            (append-ValidEntries entries (new_entry p ns vote) (lookup-IsValid c r v here)
              (contains-find? p entries ∙ free) tt)
            v)
  ]

  remove-IsValid :
      (c p : String) (r r' : Registrations V) → IsValid r → remove c p r ≡ returns r' → IsValid r'
  unfolding remove
  remove-IsValid c p r r' v h = elim (Option-cases (lookup c r)) [
    | inl missing ↦ absurd (ground arith)
    | inr (entries, here) ↦
        let same : insert c (filter (is_not_for p) entries) r ≡ r' = ground arith in
        subst IsValid same (
          insert-IsValid c (filter (is_not_for p) entries) r
            (filter-ValidEntries p entries (lookup-IsValid c r v here)) v)
  ]

  -- the registrations that calls of the store lead to
  pub data Reaches : Registrations V → Type 0 where
    start : Reaches []
    adding :
        (c p : String) (ns : List String) (vote : V) {r r' : Registrations V}
        → Reaches r
        → add c p ns vote r ≡ returns r'
        → Reaches r'
    voting :
        (c p n : String) {r r' : Registrations V}
        → Reaches r
        → add_successfully_voted_neuron_id c p n r ≡ returns r'
        → Reaches r'
    updating :
        (c p : String) (status : VoteRegistrationStatus) {r r' : Registrations V}
        → Reaches r
        → update_status c p status r ≡ returns r'
        → Reaches r'
    removing :
        (c p : String) {r r' : Registrations V} → Reaches r → remove c p r ≡ returns r' → Reaches r'
    resetting : {r : Registrations V} → Reaches r → Reaches (reset r)

  -- After any successful calls no universe has two entries for one proposal, and no entry lists a
  -- neuron twice among those that have voted.
  pub registrations-IsValid : {r : Registrations V} → Reaches r → IsValid r
  unfolding add_successfully_voted_neuron_id update_status reset
  registrations-IsValid start = tt
  registrations-IsValid (adding c p ns vote {r} {r'} s h) =
      add-IsValid c p ns vote r r' (registrations-IsValid s) h
  registrations-IsValid (voting c p n {r} {r'} s h) =
      change-IsValid c p (with_voted n) r r'
        (record {
          proposal = λ e. refl;
          voted = λ e d. Distinct-unique (e.successfully_voted ++ n ∷ []);
        })
        (registrations-IsValid s) h
  registrations-IsValid (updating c p status {r} {r'} s h) =
      change-IsValid c p (λ e. record e { status = status }) r r'
        (record { proposal = λ e. refl; voted = λ e d. d }) (registrations-IsValid s) h
  registrations-IsValid (removing c p {r} {r'} s h) =
      remove-IsValid c p r r' (registrations-IsValid s) h
  registrations-IsValid (resetting s) = tt
