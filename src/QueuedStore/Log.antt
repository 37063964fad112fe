-- ===== src/QueuedStore/Log.antt =====
-- What a queued store promises: subscribers see the replay, from the initial data, of every
-- mutation that was received, in the order in which the places in the queue were reserved.
use nns_dapp.Common.{
  ℕ, nat_has_eq, ◌+◌, ◌<◌, ◌≡◌, refl, sym, ap, ◌∙◌, Bool, true, false, Option, none, some, List, [],
  ◌∷◌, ◌++◌, map, map-append, append_assoc, arith, filter, filter-append, find?, contains,
  contains-append, Distinct, Disjoint, Distinct-append, Distinct-filter, All, All-append, returns,
  Bool-cases, inl, inr, Option-cases, get_or_else, is_some, nat_beq,
}
use nns_dapp.QueuedStore.{
  Strategy, query_and_update, Mutation, MutationEntry, Store, init, effective, replay, has_key,
  assign, settle, add_mutation, cancel, get_single_mutation_store,
}
use nns_dapp.QueuedStore.Queue.{
  key, lacks_key, filter-lacks_key, map-key-filter, replay-filter, Final, drain-Split,
  replay-append, replay-drain, map-key-assign, assign-append, find?-append, find?-contains,
}

not-in-prefix :
    (xs ys : List ℕ) (k : ℕ) → Distinct (xs ++ ys) → contains ys k ≡ true → contains xs k ≡ false
not-in-prefix [] ys k d h = refl
not-in-prefix (x ∷ xs) ys k (n, d) h = elim (Bool-cases (nat_beq x k)) [
  | inl same ↦
      let e : x ≡ k = ground arith in ground (arith, ap (contains ys) e, contains-append xs ys x)
  | inr other ↦ ground (arith, not-in-prefix xs ys k d h)
]

bounded-Disjoint : (ks : List ℕ) (n : ℕ) → All (λ k. k < n) ks → Disjoint ks (n ∷ [])
bounded-Disjoint [] n h = tt
bounded-Disjoint (k ∷ ks) n (b, h) = (ground arith, bounded-Disjoint ks n h)

bounded_weaken : (ks : List ℕ) (n : ℕ) → All (λ k. k < n) ks → All (λ k. k < n + 1) ks
bounded_weaken [] n h = tt
bounded_weaken (k ∷ ks) n (b, h) = (omega arith, bounded_weaken ks n h)

bounded_filter :
    (p : ℕ → Bool) (ks : List ℕ) (n : ℕ) → All (λ k. k < n) ks → All (λ k. k < n) (filter p ks)
bounded_filter p [] n h = tt
bounded_filter p (k ∷ ks) n (b, h) = ground (arith, bounded_filter p ks n h)

module _ {D : Type 0} where
  abbrev pub new_entry : ℕ → Option Strategy → MutationEntry D
  new_entry k strategy = record {
    mutation_key = k;
    strategy = get_or_else strategy query_and_update;
    certified_mutation = none;
    non_certified_mutation = none;
  }

  -- The log holds every entry ever reserved and not cancelled, the drained ones too.
  pub record Represents (initial : D) (log : List (MutationEntry D)) (s : Store D) : Type 0 where
    pub drained : List (MutationEntry D)
    drained_final : All Final drained
    pub parts : drained ++ s.mutation_queue ≡ log
    pub certified : s.certified_data ≡ replay initial drained
    pub exposed : s.exposed ≡ replay initial log
    pub distinct : Distinct (map key log)
    bounded : All (λ k. k < s.next_mutation_key) (map key log)

  pub init-Represents : (initial : D) → Represents initial [] (init initial)
  unfolding init replay
  init-Represents initial = record {
    drained = [];
    drained_final = tt;
    parts = refl;
    certified = refl;
    exposed = refl;
    distinct = tt;
    bounded = tt;
  }

  -- What a successful call found, and what it left.
  pub add_mutation-returns :
      (k : ℕ) (c : Bool) (f : Mutation D) (s s' : Store D)
      → add_mutation k c f s ≡ returns s'
      → (contains (map key s.mutation_queue) k ≡ true) × (s' ≡ settle k c f s)
  unfolding add_mutation
  add_mutation-returns k c f s s' h = ground (arith, find?-contains k s.mutation_queue)

  cancel-returns :
      (k : ℕ) (s s' : Store D)
      → cancel k s ≡ returns s'
      → (e : MutationEntry D) × (find? (has_key k) s.mutation_queue ≡ some e)
        × (effective e ≡ none)
        × (s' ≡ record s { mutation_queue = filter (lacks_key k) s.mutation_queue })
  unfolding cancel
  cancel-returns k s s' h = elim (Option-cases (find? (has_key k) s.mutation_queue)) [
    | inl missing ↦ absurd (ground arith)
    | inr (e, found) ↦ (e, found, ground arith, ground arith)
  ]

  module _ {initial : D} {log : List (MutationEntry D)} {s : Store D}
      (r : Represents initial log s) where
    key-in_queue :
        (k : ℕ)
        → contains (map key s.mutation_queue) k ≡ true
        → contains (map key r.drained) k ≡ false
    key-in_queue k h =
        not-in-prefix (map key r.drained) (map key s.mutation_queue) k
          (rw (← map-append, r.parts) r.distinct) h

    assign-parts :
        (k : ℕ) (c : Bool) (f : Mutation D)
        → contains (map key s.mutation_queue) k ≡ true
        → r.drained ++ assign k c f s.mutation_queue ≡ assign k c f log
    assign-parts k c f h =
        sym (assign-append k c f r.drained s.mutation_queue (key-in_queue k h))
        ∙ ap (assign k c f) r.parts

    settle-Represents :
        (k : ℕ) (c : Bool) (f : Mutation D)
        → contains (map key s.mutation_queue) k ≡ true
        → Represents initial (assign k c f log) (settle k c f s)
    unfolding settle
    settle-Represents k c f h =
        let q = assign k c f s.mutation_queue in
        let sp = drain-Split s.certified_data q in
        record {
          drained = r.drained ++ sp.applied;
          drained_final = All-append _ r.drained sp.applied r.drained_final sp.applied_final;
          parts =
              append_assoc r.drained sp.applied _
              ∙ ap (λ l. r.drained ++ l) sp.parts
              ∙ assign-parts k c f h;
          certified =
              sp.result
              ∙ ap (λ d. replay d sp.applied) r.certified
              ∙ sym (replay-append initial r.drained sp.applied);
          exposed =
              replay-drain s.certified_data q
              ∙ ap (λ d. replay d q) r.certified
              ∙ sym (replay-append initial r.drained q)
              ∙ ap (replay initial) (assign-parts k c f h);
          distinct = rw map-key-assign r.distinct;
          bounded = rw map-key-assign r.bounded;
        }

    pub add_mutation-Represents :
        (k : ℕ) (c : Bool) (f : Mutation D) (s' : Store D)
        → add_mutation k c f s ≡ returns s'
        → Represents initial (assign k c f log) s'
    add_mutation-Represents k c f s' h =
        let (found, same) = add_mutation-returns k c f s s' h in
        rw same (settle-Represents k c f found)

    pub get_single_mutation_store-Represents :
        (strategy : Option Strategy)
        → let (k, s') = get_single_mutation_store strategy s in
          Represents initial (log ++ new_entry k strategy ∷ []) s'
    unfolding get_single_mutation_store replay
    get_single_mutation_store-Represents strategy =
        let e = new_entry s.next_mutation_key strategy in
        record {
          drained = r.drained;
          drained_final = r.drained_final;
          parts =
              sym (append_assoc r.drained s.mutation_queue (e ∷ []))
              ∙ ap (λ l. l ++ e ∷ []) r.parts;
          certified = r.certified;
          exposed = r.exposed ∙ sym (replay-append initial log (e ∷ []));
          distinct = rw map-append (
              Distinct-append (map key log) (s.next_mutation_key ∷ []) r.distinct (refl, tt)
                (bounded-Disjoint (map key log) s.next_mutation_key r.bounded));
          bounded = rw map-append (
              All-append _ (map key log) (s.next_mutation_key ∷ [])
                (bounded_weaken (map key log) s.next_mutation_key r.bounded) (omega arith, tt));
        }

    find?-in_log :
        (k : ℕ) (e : MutationEntry D)
        → contains (map key s.mutation_queue) k ≡ true
        → find? (has_key k) s.mutation_queue ≡ some e
        → find? (has_key k) log ≡ some e
    find?-in_log k e h found =
        ap (find? (has_key k)) (sym r.parts)
        ∙ find?-append k r.drained s.mutation_queue (key-in_queue k h)
        ∙ found

    pub cancel-Represents :
        (k : ℕ) (s' : Store D)
        → cancel k s ≡ returns s'
        → Represents initial (filter (lacks_key k) log) s'
    cancel-Represents k s' h =
        let (e, found, silent, same) = cancel-returns k s s' h in
        let in_queue : contains (map key s.mutation_queue) k ≡ true =
          sym (find?-contains k s.mutation_queue) ∙ ap is_some found in
        let not_drained = filter-lacks_key k r.drained (key-in_queue k in_queue) in
        let parts' : r.drained ++ filter (lacks_key k) s.mutation_queue ≡ filter (lacks_key k) log =
          ap (λ l. l ++ filter (lacks_key k) s.mutation_queue) (sym not_drained)
          ∙ sym (filter-append (lacks_key k) r.drained s.mutation_queue)
          ∙ ap (filter (lacks_key k)) r.parts in
        rw same (record {
          drained = r.drained;
          drained_final = r.drained_final;
          parts = parts';
          certified = r.certified;
          exposed =
              r.exposed
              ∙ sym (
                  replay-filter initial k log e r.distinct (find?-in_log k e in_queue found)
                    silent);
          distinct = rw map-key-filter (Distinct-filter _ (map key log) r.distinct);
          bounded = rw map-key-filter (bounded_filter _ (map key log) _ r.bounded);
        })
