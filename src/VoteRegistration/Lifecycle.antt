-- ===== src/VoteRegistration/Lifecycle.antt =====
-- How a vote in progress comes and goes, and what it leaves alone.
use nns_dapp.Common.{
  ◌≡◌, ◌≢◌, refl, ap, ◌∙◌, Bool, true, none, some, List, [], ◌∷◌, ◌++◌, String, string_has_eq, not,
  ◌&&◌, filter, find?, find?-append, contains, contains-append, contains-unique, insert, lookup,
  lookup-insert, Outcome, returns, throws, is_some, get_or_else, arith, Option-cases, inl, inr,
  eqb_refl,
}
use nns_dapp.VoteRegistration.{
  VoteRegistrationStatus, RegistrationError, simultaneous_voting, Entry, Registrations, is_for,
  is_not_for, new_entry, moved, change, with_voted, add, add_successfully_voted_neuron_id,
  update_status, remove, neuron_voting,
}

-- A call of one of the four operations that throw or return.
pub data Call (V : Type 0) : Type 0 where
  adding : String → String → List String → V → Call V
  voting : String → String → String → Call V
  updating : String → String → VoteRegistrationStatus → Call V
  removing : String → String → Call V

module _ {V : Type 0} where
  abbrev universe_of : Call V → String
  universe_of (adding c p ns vote) = c
  universe_of (voting c p n) = c
  universe_of (updating c p status) = c
  universe_of (removing c p) = c

  unfoldable pub perform : Call V → Registrations V → Outcome RegistrationError (Registrations V)
  unfolding add add_successfully_voted_neuron_id update_status remove
  perform (adding c p ns vote) r = add c p ns vote r
  perform (voting c p n) r = add_successfully_voted_neuron_id c p n r
  perform (updating c p status) r = update_status c p status r
  perform (removing c p) r = remove c p r

  lookup-insert_ne :
      (c d : String) (es : List (Entry V)) (r : Registrations V)
      → c ≢ d
      → lookup d (insert c es r) ≡ lookup d r
  lookup-insert_ne c d es r ne = ground (arith, lookup-insert c d es r, string_has_eq.eqb_iff c d)

  change-other :
      (c p d : String) (f : Entry V → Entry V) (r r' : Registrations V)
      → c ≢ d
      → change c p f r ≡ returns r'
      → lookup d r' ≡ lookup d r
  change-other c p d f r r' ne h = elim (Option-cases (lookup c r)) [
    | inl missing ↦ absurd (ground arith)
    | inr (entries, here) ↦ elim (Option-cases (find? (is_for p) entries)) [
      | inl missing ↦ let same : r' ≡ r = ground arith in ap (lookup d) same
      | inr (e, found) ↦
          let same : r' ≡ insert c (moved p (f e) entries) r = ground arith in
          ap (lookup d) same ∙ lookup-insert_ne c d (moved p (f e) entries) r ne
    ]
  ]

  add-other :
      (c p d : String) (ns : List String) (vote : V) (r r' : Registrations V)
      → c ≢ d
      → add c p ns vote r ≡ returns r'
      → lookup d r' ≡ lookup d r
  unfolding add
  add-other c p d ns vote r r' ne h = elim (Option-cases (lookup c r)) [
    | inl missing ↦
        let same : r' ≡ insert c (new_entry p ns vote ∷ []) r = ground arith in
        ap (lookup d) same ∙ lookup-insert_ne c d _ r ne
    | inr (entries, here) ↦
        let same : r' ≡ insert c (entries ++ new_entry p ns vote ∷ []) r = ground arith in
        ap (lookup d) same ∙ lookup-insert_ne c d _ r ne
  ]

  remove-other :
      (c p d : String) (r r' : Registrations V)
      → c ≢ d
      → remove c p r ≡ returns r'
      → lookup d r' ≡ lookup d r
  unfolding remove
  remove-other c p d r r' ne h = elim (Option-cases (lookup c r)) [
    | inl missing ↦ absurd (ground arith)
    | inr (entries, here) ↦
        let same : r' ≡ insert c (filter (is_not_for p) entries) r = ground arith in
        ap (lookup d) same ∙ lookup-insert_ne c d _ r ne
  ]

  -- A successful call changes the registrations of its own universe only.
  pub perform-other :
      (call : Call V) (d : String) (r r' : Registrations V)
      → universe_of call ≢ d
      → perform call r ≡ returns r'
      → lookup d r' ≡ lookup d r
  unfolding perform
  perform-other (adding c p ns vote) d r r' ne h = add-other c p d ns vote r r' ne h
  perform-other (voting c p n) d r r' ne h = change-other c p d (with_voted n) r r' ne h
  perform-other (updating c p status) d r r' ne h =
      change-other c p d (λ e. record e { status = status }) r r' ne h
  perform-other (removing c p) d r r' ne h = remove-other c p d r r' ne h

  pub lookup-insert_self :
      (c : String) (es : List (Entry V)) (r : Registrations V) → lookup c (insert c es r) ≡ some es
  lookup-insert_self c es r = ground (arith, lookup-insert c c es r, eqb_refl c)

  add-entries :
      (c p : String) (ns : List String) (vote : V) (r r' : Registrations V)
      → add c p ns vote r ≡ returns r'
      → (before : List (Entry V)) × (lookup c r' ≡ some (before ++ new_entry p ns vote ∷ []))
  unfolding add
  add-entries c p ns vote r r' h = elim (Option-cases (lookup c r)) [
    | inl missing ↦
        let same : r' ≡ insert c (new_entry p ns vote ∷ []) r = ground arith in
        ([], ap (lookup c) same ∙ lookup-insert_self c _ r)
    | inr (entries, here) ↦
        let same : r' ≡ insert c (entries ++ new_entry p ns vote ∷ []) r = ground arith in
        (entries, ap (lookup c) same ∙ lookup-insert_self c _ r)
  ]

  find?-snoc :
      (p : String) (entries : List (Entry V)) (e : Entry V)
      → e.proposal_id_string ≡ p
      → is_some (find? (is_for p) (entries ++ e ∷ [])) ≡ true
  find?-snoc p entries e same =
      ap is_some (find?-append (is_for p) entries (e ∷ []))
      ∙ ground (arith, string_has_eq.eqb_iff e.proposal_id_string p)

  pub find?-filter :
      (p : String) (entries : List (Entry V))
      → find? (is_for p) (filter (is_not_for p) entries) ≡ none
  find?-filter p [] = refl
  find?-filter p (e ∷ entries) = ground (arith, find?-filter p entries)

  remove-entries :
      (c p : String) (r r' : Registrations V)
      → remove c p r ≡ returns r'
      → (entries : List (Entry V)) × (lookup c r' ≡ some (filter (is_not_for p) entries))
  unfolding remove
  remove-entries c p r r' h = elim (Option-cases (lookup c r)) [
    | inl missing ↦ absurd (ground arith)
    | inr (entries, here) ↦
        let same : r' ≡ insert c (filter (is_not_for p) entries) r = ground arith in
        (entries, ap (lookup c) same ∙ lookup-insert_self c _ r)
  ]

  -- While a vote on a proposal is in progress a second one is refused, and once the first is removed
  -- a new one is accepted.
  pub add_blocks_until_removed :
      (c p : String) (ns ms : List String) (vote again : V) (r r₁ r₂ : Registrations V)
      → add c p ns vote r ≡ returns r₁
      → remove c p r₁ ≡ returns r₂
      → (add c p ms again r₁ ≡ throws simultaneous_voting)
        × ((r₃ : Registrations V) × (add c p ms again r₂ ≡ returns r₃))
  unfolding add
  add_blocks_until_removed c p ns ms vote again r r₁ r₂ h k =
      let (before, now) = add-entries c p ns vote r r₁ h in
      let (entries, later) = remove-entries c p r₁ r₂ k in
      (
        ground (arith, now, find?-snoc p before (new_entry p ns vote) refl),
        (
          insert c (filter (is_not_for p) entries ++ new_entry p ms again ∷ []) r₂,
          ground (arith, later, find?-filter p entries),
        ),
      )

  abbrev pub waits_for : String → Entry V → Bool
  waits_for neuron e =
      contains e.neuron_id_strings neuron && not (contains e.successfully_voted neuron)

  -- Once the vote of a neuron on a proposal is recorded, the neuron is voting exactly if an entry for
  -- another proposal still waits for it.
  pub neuron_voting_after_vote :
      (own p n : String) (r r' : Registrations V) (entries : List (Entry V)) (e : Entry V)
      → lookup own r ≡ some entries
      → find? (is_for p) entries ≡ some e
      → add_successfully_voted_neuron_id own p n r ≡ returns r'
      → neuron_voting own n r' ≡ is_some (find? (waits_for n) (filter (is_not_for p) entries))
  unfolding add_successfully_voted_neuron_id neuron_voting
  neuron_voting_after_vote own p n r r' entries e here found h =
      let others = filter (is_not_for p) entries in
      let same : r' ≡ insert own (moved p (with_voted n e) entries) r = ground arith in
      let has_voted : contains (with_voted n e).successfully_voted n ≡ true =
        contains-unique (e.successfully_voted ++ n ∷ []) n
        ∙ contains-append e.successfully_voted (n ∷ []) n
        ∙ ground (arith, eqb_refl n) in
      ap (λ s. is_some (find? (waits_for n) (get_or_else (lookup own s) []))) same
      ∙ ap (λ o. is_some (find? (waits_for n) (get_or_else o [])))
          (lookup-insert_self own (moved p (with_voted n e) entries) r)
      ∙ ap is_some (find?-append (waits_for n) others (with_voted n e ∷ []))
      ∙ ground arith
