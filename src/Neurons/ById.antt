-- ===== src/Neurons/ById.antt =====
-- The neurons that a lookup by id finds after a push and after a replacement.
use nns_dapp.Common.{
  ℕ, nat_has_eq, ◌≡◌, refl, ap, ap₂, ◌∙◌, Bool, Option, none, some, List, [], ◌∷◌, map, not, filter,
  find?, find?-append, contains, contains-unique, get_or_else, or_else, lookup, insert,
  lookup-insert, remove_keys, lookup-remove_keys, unique, if◌then◌else◌, is_some, arith, nat_beq,
  Bool-cases, inl, inr, All, Option-cases,
}
use mathlib.Core.Option
use nns_dapp.Neurons.{
  from_entries, pushed, entry, delete_used, newest_of, update_old, values, replaced,
}

module _ {N : Type 0} (neuron_id : N → ℕ) where
  abbrev pub has_id : ℕ → N → Bool
  has_id k n = nat_beq (neuron_id n) k

  -- `getNeuronById`
  abbrev pub find_id : ℕ → List N → Option N
  find_id k ns = find? (has_id k) ns

  abbrev pub find_last : ℕ → List N → Option N
  find_last k [] = none
  find_last k (n ∷ ns) = or_else (find_last k ns) (if has_id k n then some n else none)

  find_id-filter :
      (f : ℕ → Bool) (k : ℕ) (ns : List N)
      → find_id k (filter (λ n. f (neuron_id n)) ns) ≡ (if f k then find_id k ns else none)
  find_id-filter f k [] = ground arith
  find_id-filter f k (n ∷ ns) = elim (Bool-cases (has_id k n)) [
    | inl same ↦
        let e : neuron_id n ≡ k = ground arith in ground (arith, find_id-filter f k ns, ap f e)
    | inr other ↦ ground (arith, find_id-filter f k ns)
  ]

  pub contains-find_id :
      (k : ℕ) (ns : List N) → contains (map neuron_id ns) k ≡ is_some (find_id k ns)
  contains-find_id k [] = refl
  contains-find_id k (n ∷ ns) = ground (arith, contains-find_id k ns)

  -- After a push the pushed neurons are found, and the others as before.
  pub find_id-pushed :
      (k : ℕ) (neurons olds : List N)
      → find_id k (pushed neuron_id neurons olds) ≡ or_else (find_id k neurons) (find_id k olds)
  unfolding pushed
  find_id-pushed k neurons olds =
      find?-append (has_id k) (filter _ olds) neurons
      ∙ ap (λ o. or_else o (find_id k neurons))
          (find_id-filter (λ i. not (contains (unique (map neuron_id neurons)) i)) k olds)
      ∙ ground (arith, contains-unique (map neuron_id neurons) k, contains-find_id k neurons)

  lookup-from_entries :
      (k : ℕ) (m : List (ℕ × N)) (ns : List N)
      → lookup k (from_entries m (map (entry neuron_id) ns)) ≡ or_else (find_last k ns) (lookup k m)
  unfolding from_entries
  lookup-from_entries k m [] = refl
  lookup-from_entries k m (n ∷ ns) =
      lookup-from_entries k (insert (neuron_id n) n m) ns
      ∙ ground (arith, lookup-insert (neuron_id n) k n m)

  -- every neuron in the map stands under its id
  abbrev pub Keyed : List (ℕ × N) → Type 0
  Keyed m = All (λ e. neuron_id e.1 ≡ e.0) m

  lookup-Keyed :
      (k : ℕ) (m : List (ℕ × N)) {n : N} → Keyed m → lookup k m ≡ some n → neuron_id n ≡ k
  lookup-Keyed k [] h e = cc
  lookup-Keyed k ((j, x) ∷ m) {n} (h, hs) e = ground (arith, lookup-Keyed k m {n = n} hs)

  Keyed-insert : (n : N) (m : List (ℕ × N)) → Keyed m → Keyed (insert (neuron_id n) n m)
  Keyed-insert n [] h = (refl, tt)
  Keyed-insert n ((j, x) ∷ m) (h, hs) = ground (arith, Keyed-insert n m hs)

  Keyed-remove_keys : (ks : List ℕ) (m : List (ℕ × N)) → Keyed m → Keyed (remove_keys ks m)
  unfolding remove_keys
  Keyed-remove_keys ks [] h = tt
  Keyed-remove_keys ks ((j, x) ∷ m) (h, hs) = ground (arith, Keyed-remove_keys ks m hs)

  pub Keyed-from_entries :
      (m : List (ℕ × N)) (ns : List N) → Keyed m → Keyed (from_entries m (map (entry neuron_id) ns))
  unfolding from_entries
  Keyed-from_entries m [] h = h
  Keyed-from_entries m (n ∷ ns) h =
      Keyed-from_entries (insert (neuron_id n) n m) ns (Keyed-insert n m h)

  pub Keyed-delete_used :
      (old : N) (m : List (ℕ × N)) → Keyed m → Keyed (delete_used neuron_id old m)
  Keyed-delete_used old m h = ground (arith, Keyed-remove_keys (neuron_id old ∷ []) m h)

  lookup-delete_used :
      (k : ℕ) (old : N) (m : List (ℕ × N))
      → lookup k (delete_used neuron_id old m) ≡ (if has_id k old then none else lookup k m)
  lookup-delete_used k old m = elim (Bool-cases (has_id k old)) [
    | inl same ↦
        let e : neuron_id old ≡ k = ground arith in
        rw e (ground (arith, lookup-remove_keys (k ∷ []) k m))
    | inr other ↦ ground (arith, lookup-remove_keys (neuron_id old ∷ []) k m)
  ]

  pub newest_of-id :
      (m : List (ℕ × N)) (old : N) → Keyed m → neuron_id (newest_of neuron_id m old) ≡ neuron_id old
  newest_of-id m old h = elim (Option-cases (lookup (neuron_id old) m)) [
    | inl missing ↦ rw missing
    | inr (n, found) ↦ rw found (lookup-Keyed (neuron_id old) m h found)
  ]

  find_id-update_old :
      (k : ℕ) (olds : List N) (m : List (ℕ × N))
      → Keyed m
      → find_id k (update_old neuron_id olds m).0
        ≡ Option.map (get_or_else (lookup k m)) (find_id k olds)
  unfolding update_old
  find_id-update_old k [] m h = refl
  find_id-update_old k (old ∷ olds) m h =
      rw (newest_of-id m old h) (elim (Bool-cases (has_id k old)) [
        | inl same ↦
            let e : neuron_id old ≡ k = ground arith in
            rw same (ap (λ i. some (get_or_else (lookup i m) old)) e)
        | inr other ↦
            let kept : lookup k (delete_used neuron_id old m) ≡ lookup k m =
              lookup-delete_used k old m ∙ rw other in
            rw other (
              find_id-update_old k olds (delete_used neuron_id old m) (Keyed-delete_used old m h)
              ∙ ap (λ o. Option.map (get_or_else o) (find_id k olds)) kept)
      ])

  pub lookup-update_old :
      (k : ℕ) (olds : List N) (m : List (ℕ × N))
      → lookup k (update_old neuron_id olds m).1
        ≡ (if contains (map neuron_id olds) k then none else lookup k m)
  unfolding update_old
  lookup-update_old k [] m = refl
  lookup-update_old k (old ∷ olds) m =
      lookup-update_old k olds (delete_used neuron_id old m)
      ∙ ground (arith, lookup-delete_used k old m)

  pub Keyed-update_old :
      (olds : List N) (m : List (ℕ × N)) → Keyed m → Keyed (update_old neuron_id olds m).1
  unfolding update_old
  Keyed-update_old [] m h = h
  Keyed-update_old (old ∷ olds) m h =
      Keyed-update_old olds (delete_used neuron_id old m) (Keyed-delete_used old m h)

  find_id-values :
      (k : ℕ) (m : List (ℕ × N)) → Keyed m → find_id k (values neuron_id m) ≡ lookup k m
  find_id-values k [] h = refl
  find_id-values k ((j, n) ∷ m) (h, hs) = ground (arith, find_id-values k m hs)

  abbrev pub new_map : List N → List (ℕ × N)
  new_map neurons = from_entries [] (map (entry neuron_id) neurons)

  -- After a replacement the last of the given neurons with an id is found, and any other neuron as
  -- before.
  pub find_id-replaced :
      (k : ℕ) (neurons olds : List N)
      → find_id k (replaced neuron_id neurons olds) ≡ or_else (find_last k neurons) (find_id k olds)
  unfolding replaced
  find_id-replaced k neurons olds =
      let m = new_map neurons in
      let keyed = Keyed-from_entries [] neurons tt in
      find?-append (has_id k) (update_old neuron_id olds m).0
        (values neuron_id (update_old neuron_id olds m).1)
      ∙ ap₂ or_else (find_id-update_old k olds m keyed) (
          find_id-values k (update_old neuron_id olds m).1 (Keyed-update_old olds m keyed)
          ∙ lookup-update_old k olds m)
      ∙ ground (arith, lookup-from_entries k [] neurons, contains-find_id k olds)
