-- ===== src/Neurons/Ids.antt =====
-- Which ids the store lists after its operations, and in which order.
use nns_dapp.Common.{
  ℕ, nat_has_eq, ◌≡◌, refl, ap, ap₂, ◌∙◌, Bool, true, Option, List, [], ◌∷◌, ◌++◌, map, map-append,
  not, filter, contains, contains-filter, contains-unique, get_or_else, lookup, insert, remove_keys,
  unique, if◌then◌else◌, is_some, arith, nat_beq, Distinct, Distinct-append, Distinct-filter,
  Disjoint-intro,
}
use nns_dapp.Neurons.{
  NeuronsStore, init, set_neurons, reset, push_neurons, replace_neurons, from_entries, pushed,
  entry, delete_used, update_old, values, replaced,
}
use nns_dapp.Neurons.ById.{
  Keyed, Keyed-from_entries, Keyed-delete_used, Keyed-update_old, newest_of-id, new_map,
  lookup-update_old,
}

module _ {V : Type 0} where
  abbrev keys : List (ℕ × V) → List ℕ
  keys m = map (λ e. e.0) m

  contains-keys : (k : ℕ) (m : List (ℕ × V)) → contains (keys m) k ≡ is_some (lookup k m)
  contains-keys k [] = refl
  contains-keys k ((j, v) ∷ m) = ground (arith, contains-keys k m)

  contains-keys-insert :
      (k j : ℕ) (v : V) (m : List (ℕ × V))
      → contains (keys (insert k v m)) j ≡ (if nat_beq k j then true else contains (keys m) j)
  contains-keys-insert k j v [] = ground arith
  contains-keys-insert k j v ((i, w) ∷ m) = ground (arith, contains-keys-insert k j v m)

  Distinct-keys-insert :
      (k : ℕ) (v : V) (m : List (ℕ × V)) → Distinct (keys m) → Distinct (keys (insert k v m))
  Distinct-keys-insert k v [] d = (refl, tt)
  Distinct-keys-insert k v ((i, w) ∷ m) (n, d) =
      ground (arith, Distinct-keys-insert k v m d, contains-keys-insert k i v m)

  keys-remove_keys :
      (ks : List ℕ) (m : List (ℕ × V))
      → keys (remove_keys ks m) ≡ filter (λ k. not (contains ks k)) (keys m)
  unfolding remove_keys
  keys-remove_keys ks [] = refl
  keys-remove_keys ks ((j, v) ∷ m) = ground (arith, keys-remove_keys ks m)

module _ {N : Type 0} (neuron_id : N → ℕ) where
  abbrev pub ids : List N → List ℕ
  ids ns = map neuron_id ns

  Distinct-keys-from_entries :
      (m : List (ℕ × N)) (ns : List N)
      → Distinct (keys m)
      → Distinct (keys (from_entries m (map (entry neuron_id) ns)))
  unfolding from_entries
  Distinct-keys-from_entries m [] d = d
  Distinct-keys-from_entries m (n ∷ ns) d =
      Distinct-keys-from_entries (insert (neuron_id n) n m) ns
        (Distinct-keys-insert (neuron_id n) n m d)

  Distinct-keys-delete_used :
      (old : N) (m : List (ℕ × N))
      → Distinct (keys m)
      → Distinct (keys (delete_used neuron_id old m))
  Distinct-keys-delete_used old m d =
      let removed : Distinct (keys (remove_keys (neuron_id old ∷ []) m)) =
        rw (keys-remove_keys (neuron_id old ∷ []) m) (Distinct-filter _ (keys m) d) in
      ground arith

  Distinct-keys-update_old :
      (olds : List N) (m : List (ℕ × N))
      → Distinct (keys m)
      → Distinct (keys (update_old neuron_id olds m).1)
  unfolding update_old
  Distinct-keys-update_old [] m d = d
  Distinct-keys-update_old (old ∷ olds) m d =
      Distinct-keys-update_old olds (delete_used neuron_id old m)
        (Distinct-keys-delete_used old m d)

  ids-values : (m : List (ℕ × N)) → Keyed neuron_id m → ids (values neuron_id m) ≡ keys m
  ids-values [] h = refl
  ids-values ((j, n) ∷ m) (h, hs) = ap₂ (λ x xs. x ∷ xs) h (ids-values m hs)

  ids-update_old :
      (olds : List N) (m : List (ℕ × N))
      → Keyed neuron_id m
      → ids (update_old neuron_id olds m).0 ≡ ids olds
  unfolding update_old
  ids-update_old [] m h = refl
  ids-update_old (old ∷ olds) m h =
      ap₂ (λ x xs. x ∷ xs) (newest_of-id neuron_id m old h)
        (ids-update_old olds (delete_used neuron_id old m) (Keyed-delete_used neuron_id old m h))

  -- the given neurons whose id the old list lacks
  abbrev pub added : List N → List N → List N
  added neurons olds = values neuron_id (update_old neuron_id olds (new_map neuron_id neurons)).1

  -- A replacement keeps the ids of the old list in their order, and puts the new ones behind.
  pub ids-replaced :
      (neurons olds : List N)
      → ids (replaced neuron_id neurons olds) ≡ ids olds ++ ids (added neurons olds)
  unfolding replaced
  ids-replaced neurons olds =
      map-append neuron_id _ (added neurons olds)
      ∙ ap (λ l. l ++ ids (added neurons olds))
          (ids-update_old olds (new_map neuron_id neurons)
            (Keyed-from_entries neuron_id [] neurons tt))

  ids-added :
      (neurons olds : List N)
      → ids (added neurons olds) ≡ keys (update_old neuron_id olds (new_map neuron_id neurons)).1
  ids-added neurons olds = ids-values _ (
      Keyed-update_old neuron_id olds (new_map neuron_id neurons)
        (Keyed-from_entries neuron_id [] neurons tt))

  -- It lists an id once if the old list did, even where the given neurons repeat one.
  replaced-Distinct :
      (neurons olds : List N)
      → Distinct (ids olds)
      → Distinct (ids (replaced neuron_id neurons olds))
  replaced-Distinct neurons olds d =
      let m = new_map neuron_id neurons in
      rw (ids-replaced neurons olds, ids-added neurons olds)
        (Distinct-append (ids olds) (keys (update_old neuron_id olds m).1) d
          (Distinct-keys-update_old olds m (Distinct-keys-from_entries [] neurons tt))
          (Disjoint-intro (ids olds) (keys (update_old neuron_id olds m).1) (λ k h.
            contains-keys k (update_old neuron_id olds m).1
            ∙ ap is_some (lookup-update_old neuron_id k olds m)
            ∙ rw h)))

  ids-filter :
      (f : ℕ → Bool) (ns : List N) → ids (filter (λ n. f (neuron_id n)) ns) ≡ filter f (ids ns)
  ids-filter f [] = refl
  ids-filter f (n ∷ ns) = ground (arith, ids-filter f ns)

  -- A push of neurons with different ids keeps the ids of the store different.
  pushed-Distinct :
      (neurons olds : List N)
      → Distinct (ids neurons)
      → Distinct (ids olds)
      → Distinct (ids (pushed neuron_id neurons olds))
  unfolding pushed
  pushed-Distinct neurons olds d e =
      let f = λ (i : ℕ). not (contains (unique (ids neurons)) i) in
      rw (map-append, ids-filter f olds)
        (Distinct-append (filter f (ids olds)) (ids neurons) (Distinct-filter f (ids olds) e) d (
          Disjoint-intro (filter f (ids olds)) (ids neurons) (λ k h.
            ground (arith, contains-filter f (ids olds) k, contains-unique (ids neurons) k))))

  abbrev pub listed : NeuronsStore N → List N
  listed s = get_or_else s.neurons []

  -- the stores that the operations lead to, where loaded lists have different ids
  pub data Reaches : NeuronsStore N → Type 0 where
    start : Reaches init
    set :
        (ns : List N) (c : Option Bool) {s : NeuronsStore N}
        → Reaches s
        → Distinct (ids ns)
        → Reaches (set_neurons ns c s)
    push :
        (ns : List N) (c : Option Bool) {s : NeuronsStore N}
        → Reaches s
        → Distinct (ids ns)
        → Reaches (push_neurons neuron_id ns c s)
    replace :
        (ns : List N) {s : NeuronsStore N} → Reaches s → Reaches (replace_neurons neuron_id ns s)
    clear : {s : NeuronsStore N} → Reaches s → Reaches (reset s)

  -- Whatever sequence of operations is made, the store lists no id twice, if the lists that are set
  -- and pushed do not; the lists given to a replacement may.
  pub Reaches-Distinct : {s : NeuronsStore N} → Reaches s → Distinct (ids (listed s))
  unfolding init set_neurons push_neurons replace_neurons reset
  Reaches-Distinct start = tt
  Reaches-Distinct (set ns c r d) = d
  Reaches-Distinct (push ns c {s} r d) = pushed-Distinct ns (listed s) d (Reaches-Distinct r)
  Reaches-Distinct (replace ns {s} r) = replaced-Distinct ns (listed s) (Reaches-Distinct r)
  Reaches-Distinct (clear r) = tt
