-- ===== src/QueuedStore/Queue.antt =====
-- Facts on the queue of a queued store: replaying, assigning and draining.
use nns_dapp.Common.{
  ℕ, nat_has_eq, ◌≡◌, refl, ap, Bool, true, false, none, some, List, [], ◌∷◌, ◌++◌, map, arith, ◌≢◌,
  find?, contains, contains-append, map-append, Distinct, All, Bool-cases, inl, inr, is_some,
  nat_beq, filter, not, ◌∙◌, sym,
}
use nns_dapp.QueuedStore.{
  Mutation, MutationEntry, effective, apply_to, apply_entry, replay, is_final, has_key, assign,
  drain,
}

other_key :
    (k j : ℕ) (ks : List ℕ) → contains ks k ≡ false → contains ks j ≡ true → nat_beq k j ≡ false
other_key k j ks m h = elim (Bool-cases (nat_beq k j)) [
  | inl same ↦ let e : k ≡ j = ground arith in ground (arith, ap (contains ks) e)
  | inr other ↦ other
]

module _ {D : Type 0} where
  abbrev pub key : MutationEntry D → ℕ
  key e = e.mutation_key

  pub replay-append :
      (d : D) (xs ys : List (MutationEntry D)) → replay d (xs ++ ys) ≡ replay (replay d xs) ys
  unfolding replay
  replay-append d [] ys = refl
  replay-append d (x ∷ xs) ys = replay-append (apply_entry x d) xs ys

  pub map-key-assign :
      (k : ℕ) (c : Bool) (f : Mutation D) (q : List (MutationEntry D))
      → map key (assign k c f q) ≡ map key q
  unfolding assign
  map-key-assign k c f [] = refl
  map-key-assign k c f (e ∷ q) = ground (arith, map-key-assign k c f q)

  -- Draining does not change what the replay shows.
  pub replay-drain :
      (d : D) (q : List (MutationEntry D)) → replay (drain d q).0 (drain d q).1 ≡ replay d q
  unfolding replay drain
  replay-drain d [] = refl
  replay-drain d (e ∷ q) = ground (arith, replay-drain (apply_entry e d) q)

  -- `drain` splits the queue into applied entries, all final, and a rest whose head is not final.
  abbrev pub StartsPending : List (MutationEntry D) → Type 0
  StartsPending [] = Unit
  StartsPending (e ∷ q) = is_final e ≡ false

  abbrev pub Final : MutationEntry D → Type 0
  Final e = is_final e ≡ true

  pub record Split (d : D) (q : List (MutationEntry D)) : Type 0 where
    pub applied : List (MutationEntry D)
    pub applied_final : All Final applied
    pub parts : applied ++ (drain d q).1 ≡ q
    pub result : (drain d q).0 ≡ replay d applied
    pub pending : StartsPending (drain d q).1

  pub drain-Split : (d : D) (q : List (MutationEntry D)) → Split d q
  unfolding drain replay
  drain-Split d [] = record {
    applied = [];
    applied_final = tt;
    parts = refl;
    result = refl;
    pending = tt;
  }
  drain-Split d (e ∷ q) = elim (Bool-cases (is_final e)) [
    | inl final ↦
        let s = drain-Split (apply_entry e d) q in
        record {
          applied = e ∷ s.applied;
          applied_final = (final, s.applied_final);
          parts = rw final (ap (λ l. e ∷ l) s.parts);
          result = rw final s.result;
          pending = rw final s.pending;
        }
    | inr open_entry ↦ record {
      applied = [];
      applied_final = tt;
      parts = rw open_entry;
      result = rw open_entry;
      pending = rw open_entry open_entry;
    }
  ]

  -- An assignment passes over a prefix that lacks the key.
  pub assign-append :
      (k : ℕ) (c : Bool) (f : Mutation D) (xs ys : List (MutationEntry D))
      → contains (map key xs) k ≡ false
      → assign k c f (xs ++ ys) ≡ xs ++ assign k c f ys
  unfolding assign
  assign-append k c f [] ys h = refl
  assign-append k c f (e ∷ xs) ys h = ground (arith, assign-append k c f xs ys)

  pub find?-contains :
      (k : ℕ) (q : List (MutationEntry D)) → is_some (find? (has_key k) q) ≡ contains (map key q) k
  find?-contains k [] = refl
  find?-contains k (e ∷ q) = ground (arith, find?-contains k q)

  abbrev pub lacks_key : ℕ → MutationEntry D → Bool
  lacks_key k e = not (has_key k e)

  pub filter-lacks_key :
      (k : ℕ) (q : List (MutationEntry D))
      → contains (map key q) k ≡ false
      → filter (lacks_key k) q ≡ q
  filter-lacks_key k [] h = refl
  filter-lacks_key k (e ∷ q) h = ground (arith, filter-lacks_key k q)

  pub map-key-filter :
      (k : ℕ) (q : List (MutationEntry D))
      → map key (filter (lacks_key k) q) ≡ filter (λ j. not (nat_beq j k)) (map key q)
  map-key-filter k [] = refl
  map-key-filter k (e ∷ q) = ground (arith, map-key-filter k q)

  -- Dropping an entry that has received nothing is not seen.
  pub replay-filter :
      (d : D) (k : ℕ) (q : List (MutationEntry D)) (e : MutationEntry D)
      → Distinct (map key q)
      → find? (has_key k) q ≡ some e
      → effective e ≡ none
      → replay d (filter (lacks_key k) q) ≡ replay d q
  unfolding replay
  replay-filter d k [] e dq h n = refl
  replay-filter d k (x ∷ q) e (m, dq) h n = elim (Bool-cases (has_key k x)) [
    | inl same ↦
        let ex : x ≡ e = ground arith in
        let ek : x.mutation_key ≡ k = ground arith in
        let nx : effective x ≡ none = ap effective ex ∙ n in
        rw same
          (rw (filter-lacks_key k q (rw (← ek) m)) (ap (λ g. replay (apply_to g d) q) (sym nx)))
    | inr other ↦ rw other (replay-filter (apply_entry x d) k q e dq (rw other at h) n)
  ]

  pub find?-append :
      (k : ℕ) (xs ys : List (MutationEntry D))
      → contains (map key xs) k ≡ false
      → find? (has_key k) (xs ++ ys) ≡ find? (has_key k) ys
  find?-append k [] ys h = refl
  find?-append k (e ∷ xs) ys h = ground (arith, find?-append k xs ys)

  -- Writes for two keys may be made in either order.
  pub assign_comm :
      (k j : ℕ) (c b : Bool) (f g : Mutation D) (q : List (MutationEntry D))
      → k ≢ j
      → assign j b g (assign k c f q) ≡ assign k c f (assign j b g q)
  unfolding assign
  assign_comm k j c b f g [] ne = refl
  assign_comm k j c b f g (e ∷ q) ne = ground (arith, assign_comm k j c b f g q ne)

  drain-contains :
      (d : D) (q : List (MutationEntry D)) (j : ℕ)
      → contains (map key (drain d q).1) j ≡ true
      → contains (map key q) j ≡ true
  drain-contains d q j h =
      let s = drain-Split d q in
      let e : map key q ≡ map key s.applied ++ map key (drain d q).1 =
        ap (map key) (sym s.parts) ∙ map-append key s.applied (drain d q).1 in
      rw (e, contains-append) (ground arith)

  -- A write to an entry that draining leaves in place may be made before it.
  pub drain-assign :
      (d : D) (q : List (MutationEntry D)) (j : ℕ) (b : Bool) (g : Mutation D)
      → Distinct (map key q)
      → contains (map key (drain d q).1) j ≡ true
      → drain (drain d q).0 (assign j b g (drain d q).1) ≡ drain d (assign j b g q)
  unfolding drain assign
  drain-assign d [] j b g dq h = refl
  drain-assign d (e ∷ q) j b g (m, dq) h = elim (Bool-cases (is_final e)) [
    | inl final ↦
        let later : contains (map key (drain (apply_entry e d) q).1) j ≡ true = rw final at h in
        let in_rest = drain-contains (apply_entry e d) q j later in
        let other : has_key j e ≡ false = other_key e.mutation_key j (map key q) m in_rest in
        rw (final, other, final) (drain-assign (apply_entry e d) q j b g dq later)
    | inr open_entry ↦ rw open_entry
  ]
