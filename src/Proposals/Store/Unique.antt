-- ===== src/Proposals/Store/Unique.antt =====
-- The store never shows two proposals with one id.
use nns_dapp.Common.{
  ℕ, nat_has_eq, option_has_eq, ◌≡◌, refl, ◌∙◌, Bool, true, false, Option, none, some, List, [],
  ◌∷◌, ◌++◌, map, map-append, not, ◌&&◌, filter, contains, contains-filter, is_some, arith, All,
  Distinct, Disjoint-intro, Distinct-append, Distinct-filter, returns,
}
use nns_dapp.QueuedStore.{Strategy, MutationEntry, Store, assign, get_single_mutation_store, cancel}
use nns_dapp.QueuedStore.Queue.{lacks_key}
use nns_dapp.QueuedStore.Log.{new_entry}
use nns_dapp.QueuedStore.Order.{Reaches, start, reserve, respond, withdraw}
use nns_dapp.QueuedStore.Invariant.{
  Keeps, exposed_invariant, assign-Keeps, reserve-Keeps, filter-Keeps,
}
use nns_dapp.Proposals.{
  exclude_proposals, concatenate_unique_proposals, replace_and_concatenate_proposals,
}
use nns_dapp.Proposals.Merge.{
  exclude_proposals-eq, replace_and_concatenate-eq, map-id-replace_proposals,
}
use nns_dapp.Proposals.Store.{
  ProposalsStore, init_proposals_store, set_proposals, remove_proposals, push_proposals, pushed,
  replaced, without, replace_in_store,
}

module _ {P : Type 0} (id : P → Option ℕ) where
  abbrev pub UniqueIds : List P → Type 0
  UniqueIds ps = Distinct (map id ps)

  abbrev DefinedIds : List P → Type 0
  DefinedIds ps = All (λ p. is_some (id p) ≡ true) ps

  -- A filter that looks at the id alone acts on the list of ids.
  map-id-filter :
      (f : Option ℕ → Bool) (ps : List P)
      → map id (filter (λ p. f (id p)) ps) ≡ filter f (map id ps)
  map-id-filter f [] = refl
  map-id-filter f (p ∷ ps) = ground (arith, map-id-filter f ps)

  filter-UniqueIds :
      (f : Option ℕ → Bool) (ps : List P) → UniqueIds ps → UniqueIds (filter (λ p. f (id p)) ps)
  filter-UniqueIds f ps u = rw (map-id-filter f ps) (Distinct-filter f (map id ps) u)

  exclude-UniqueIds :
      (ps exclusion : List P) → UniqueIds ps → UniqueIds (exclude_proposals id ps exclusion)
  exclude-UniqueIds ps exclusion u =
      rw (exclude_proposals-eq id ps exclusion)
        (filter-UniqueIds (λ i. not (is_some i && contains (map id exclusion) i)) ps u)

  -- Appending the items that a test on the id lets through, where it lets no old id through.
  append-UniqueIds :
      (f : Option ℕ → Bool) (olds : List (Option ℕ)) (new : List P)
      → Distinct olds
      → UniqueIds new
      → ((i : Option ℕ) → contains olds i ≡ true → f i && contains (map id new) i ≡ false)
      → Distinct (olds ++ map id (filter (λ p. f (id p)) new))
  append-UniqueIds f olds new u v apart = rw (map-id-filter f new) (
      Distinct-append olds (filter f (map id new)) u (Distinct-filter f (map id new) v) (
        Disjoint-intro olds (filter f (map id new))
          (λ i m. contains-filter f (map id new) i ∙ apart i m)))

  replace_and_concatenate-UniqueIds :
      (old new : List P)
      → UniqueIds old
      → UniqueIds new
      → UniqueIds (replace_and_concatenate_proposals id old new)
  replace_and_concatenate-UniqueIds old new u v =
      rw (replace_and_concatenate-eq id old new, map-append, map-id-replace_proposals id old new)
        (append-UniqueIds (λ i. not (contains (map id old) i)) (map id old) new u v (λ i m. rw m))

  DefinedIds-none : (ps : List P) → DefinedIds ps → contains (map id ps) none ≡ false
  DefinedIds-none [] d = refl
  DefinedIds-none (p ∷ ps) (h, d) = ground (arith, DefinedIds-none ps d)

  concatenate_unique-UniqueIds :
      (old new : List P)
      → UniqueIds old
      → UniqueIds new
      → DefinedIds new
      → UniqueIds (concatenate_unique_proposals id old new)
  unfolding concatenate_unique_proposals
  concatenate_unique-UniqueIds old new u v d =
      rw (map-append, exclude_proposals-eq id new old)
        (append-UniqueIds (λ i. not (is_some i && contains (map id old) i)) (map id old) new u v
          (apart old new d))
    where
      apart :
          (old new : List P)
          → DefinedIds new
          → (i : Option ℕ) → contains (map id old) i ≡ true
          → not (is_some i && contains (map id old) i) && contains (map id new) i ≡ false
      apart old new d none m = DefinedIds-none new d
      apart old new d (some n) m = rw m

  -- What the pages do with the store: they open calls, and pass on what these load.
  pub data Session
      : List (MutationEntry (ProposalsStore P)) → Store (ProposalsStore P) → Type 0 where
    fresh : Session [] init_proposals_store
    open_call :
        {log : List (MutationEntry (ProposalsStore P))} {s : Store (ProposalsStore P)}
        (strategy : Option Strategy)
        → Session log s
        → Session
            (log ++ new_entry (get_single_mutation_store strategy s).0 strategy ∷ [])
            (get_single_mutation_store strategy s).1
    setting :
        {log : List (MutationEntry (ProposalsStore P))} {s s' : Store (ProposalsStore P)} (k : ℕ)
        (ps : List P) (c : Bool)
        → Session log s
        → UniqueIds ps
        → set_proposals k ps c s ≡ returns s'
        → Session (assign k c (λ _. record { proposals = ps; certified = some c }) log) s'
    pushing :
        {log : List (MutationEntry (ProposalsStore P))} {s s' : Store (ProposalsStore P)} (k : ℕ)
        (ps : List P) (c : Bool)
        → Session log s
        → UniqueIds ps
        → DefinedIds ps
        → push_proposals id k ps c s ≡ returns s'
        → Session (assign k c (pushed id ps c) log) s'
    replacing :
        {log : List (MutationEntry (ProposalsStore P))} {s s' : Store (ProposalsStore P)} (k : ℕ)
        (ps : List P) (c : Bool)
        → Session log s
        → replace_in_store id k ps c s ≡ returns s'
        → Session (assign k c (replaced id ps c) log) s'
    removing :
        {log : List (MutationEntry (ProposalsStore P))} {s s' : Store (ProposalsStore P)} (k : ℕ)
        (ps : List P) (c : Bool)
        → Session log s
        → remove_proposals id k ps c s ≡ returns s'
        → Session (assign k c (without id ps) log) s'
    cancelling :
        {log : List (MutationEntry (ProposalsStore P))} {s s' : Store (ProposalsStore P)} (k : ℕ)
        → Session log s
        → cancel k s ≡ returns s'
        → Session (filter (lacks_key k) log) s'

  abbrev nothing : ProposalsStore P
  nothing = record { proposals = []; certified = none }

  Session-Reaches :
      {log : List (MutationEntry (ProposalsStore P))} {s : Store (ProposalsStore P)}
      → Session log s
      → Reaches nothing log s
  unfolding init_proposals_store set_proposals push_proposals replace_in_store remove_proposals
  Session-Reaches fresh = start
  Session-Reaches (open_call strategy r) = reserve strategy (Session-Reaches r)
  Session-Reaches (setting k ps c r u h) = respond k c _ (Session-Reaches r) h
  Session-Reaches (pushing k ps c r u d h) = respond k c _ (Session-Reaches r) h
  Session-Reaches (replacing k ps c r h) = respond k c _ (Session-Reaches r) h
  Session-Reaches (removing k ps c r h) = respond k c _ (Session-Reaches r) h
  Session-Reaches (cancelling k r h) = withdraw k (Session-Reaches r) h

  abbrev Shows : ProposalsStore P → Type 0
  Shows d = UniqueIds d.proposals

  pushed-Shows :
      (ps : List P) (c : Bool)
      → UniqueIds ps
      → DefinedIds ps
      → (d : ProposalsStore P) → Shows d
      → Shows (pushed id ps c d)
  pushed-Shows ps true u k d h = replace_and_concatenate-UniqueIds d.proposals ps h u
  pushed-Shows ps false u k d h = concatenate_unique-UniqueIds d.proposals ps h u k

  Session-Keeps :
      {log : List (MutationEntry (ProposalsStore P))} {s : Store (ProposalsStore P)}
      → Session log s
      → All (Keeps Shows) log
  Session-Keeps fresh = tt
  Session-Keeps (open_call {log} {s} strategy r) =
      reserve-Keeps Shows (get_single_mutation_store strategy s).0 strategy log (Session-Keeps r)
  Session-Keeps (setting {log} k ps c r u h) =
      assign-Keeps Shows k c _ log (λ d kept. u) (Session-Keeps r)
  Session-Keeps (pushing {log} k ps c r u d h) =
      assign-Keeps Shows k c _ log (pushed-Shows ps c u d) (Session-Keeps r)
  Session-Keeps (replacing {log} k ps c r h) =
      assign-Keeps Shows k c _ log (λ d kept. rw (map-id-replace_proposals id d.proposals ps) kept)
        (Session-Keeps r)
  Session-Keeps (removing {log} k ps c r h) =
      assign-Keeps Shows k c _ log (λ d kept. exclude-UniqueIds d.proposals ps kept)
        (Session-Keeps r)
  Session-Keeps (cancelling {log} k r h) = filter-Keeps Shows k log (Session-Keeps r)

  -- If each loaded page lists an id once, and pages to push have defined ids, the store never shows
  -- two proposals with one id, whatever the calls and the order of their responses.
  pub shown-UniqueIds :
      {log : List (MutationEntry (ProposalsStore P))} {s : Store (ProposalsStore P)}
      → Session log s
      → UniqueIds s.exposed.proposals
  shown-UniqueIds r = exposed_invariant Shows (Session-Reaches r) tt (Session-Keeps r)
