-- ===== src/QueuedStore/Invariant.antt =====
-- An invariant of the data that every mutation keeps holds of what subscribers see.
use nns_dapp.Common.{
  ℕ, nat_has_eq, Bool, true, false, Option, none, some, List, [], ◌∷◌, ◌++◌, filter, All,
  All-append, or_else, Bool-cases, inl, inr,
}
use nns_dapp.QueuedStore.{
  Strategy, Mutation, MutationEntry, Store, effective, apply_to, apply_entry, replay, write_slot,
  has_key, assign,
}
use nns_dapp.QueuedStore.Queue.{lacks_key}
use nns_dapp.QueuedStore.Log.{new_entry}
use nns_dapp.QueuedStore.Order.{Reaches, exposed-eq-replay}

module _ {D : Type 0} (I : D → Type 0) where
  abbrev KeepsIf : Option (Mutation D) → Type 0
  KeepsIf none = Unit
  KeepsIf (some f) = (d : D) → I d → I (f d)

  pub record Keeps (e : MutationEntry D) : Type 0 where
    pub certified : KeepsIf e.certified_mutation
    non_certified : KeepsIf e.non_certified_mutation

  apply_to-keeps : (m : Option (Mutation D)) (d : D) → KeepsIf m → I d → I (apply_to m d)
  apply_to-keeps none d k h = h
  apply_to-keeps (some f) d k h = k d h

  effective-KeepsIf : (a b : Option (Mutation D)) → KeepsIf a → KeepsIf b → KeepsIf (or_else a b)
  effective-KeepsIf none b k h = h
  effective-KeepsIf (some f) b k h = k

  replay-keeps : (d : D) (log : List (MutationEntry D)) → All Keeps log → I d → I (replay d log)
  unfolding replay
  replay-keeps d [] k h = h
  replay-keeps d (e ∷ log) (k, ks) h = replay-keeps (apply_entry e d) log ks (
      apply_to-keeps (effective e) d
        (effective-KeepsIf e.certified_mutation e.non_certified_mutation k.certified
          k.non_certified)
        h)

  pub exposed_invariant :
      {initial : D} {log : List (MutationEntry D)} {s : Store D}
      → Reaches initial log s
      → I initial
      → All Keeps log
      → I s.exposed
  exposed_invariant {initial} {log} r h k = rw (exposed-eq-replay r) (replay-keeps initial log k h)

  write_slot-Keeps :
      (c : Bool) (f : Mutation D) (e : MutationEntry D)
      → ((d : D) → I d → I (f d))
      → Keeps e
      → Keeps (write_slot c f e)
  write_slot-Keeps true f e h k = record { certified = h; non_certified = k.non_certified }
  write_slot-Keeps false f e h k = record { certified = k.certified; non_certified = h }

  pub assign-Keeps :
      (k : ℕ) (c : Bool) (f : Mutation D) (log : List (MutationEntry D))
      → ((d : D) → I d → I (f d))
      → All Keeps log
      → All Keeps (assign k c f log)
  unfolding assign
  assign-Keeps k c f [] h ks = tt
  assign-Keeps k c f (e ∷ log) h (ke, ks) = elim (Bool-cases (has_key k e)) [
    | inl same ↦ rw same (write_slot-Keeps c f e h ke, ks)
    | inr other ↦ rw other (ke, assign-Keeps k c f log h ks)
  ]

  pub reserve-Keeps :
      (k : ℕ) (strategy : Option Strategy) (log : List (MutationEntry D))
      → All Keeps log
      → All Keeps (log ++ new_entry k strategy ∷ [])
  reserve-Keeps k strategy log ks =
      All-append Keeps log (new_entry k strategy ∷ []) ks
        (record { certified = tt; non_certified = tt }, tt)

  pub filter-Keeps :
      (k : ℕ) (log : List (MutationEntry D)) → All Keeps log → All Keeps (filter (lacks_key k) log)
  filter-Keeps k [] ks = tt
  filter-Keeps k (e ∷ log) (ke, ks) = elim (Bool-cases (has_key k e)) [
    | inl same ↦ rw same (filter-Keeps k log ks)
    | inr other ↦ rw other (ke, filter-Keeps k log ks)
  ]
