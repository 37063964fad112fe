-- ===== src/QueuedStore.antt =====
-- frontend/src/lib/stores/queued-store.ts: a store that keeps a queue of the mutations whose
-- certified response is outstanding. The closure's variables are the fields of a record, an
-- operation returns the new record, and a `throw` leaves the old one in place.
pub mod Queue
pub mod Log
pub mod Order
pub mod Invariant
mod Tests
use nns_dapp.Common.{
  ℕ, ◌+◌, Bool, true, false, Option, none, some, List, [], ◌∷◌, ◌++◌, Outcome, returns, throws,
  if◌then◌else◌, nat_beq, not, find?, filter, get_or_else, or_else, is_some,
}

pub data Strategy : Type 0 where
  query_and_update query update : Strategy

abbrev pub Mutation : Type 0 → Type 0
Mutation D = D → D

-- what the store's operations throw
pub data QueueError : Type 0 where
  no_entry : ℕ → QueueError
  already_have : Bool → QueueError
  already_applied : QueueError

pub record MutationEntry (D : Type 0) : Type 0 where
  pub mutation_key : ℕ
  pub strategy : Strategy
  pub certified_mutation : Option (Mutation D)
  pub non_certified_mutation : Option (Mutation D)

pub record Store (D : Type 0) : Type 0 where
  pub certified_data : D
  pub mutation_queue : List (MutationEntry D)
  pub next_mutation_key : ℕ
  -- what subscribers see
  pub exposed : D

module _ {D : Type 0} where
  unfoldable pub init : D → Store D
  init initial_data = record {
    certified_data = initial_data;
    mutation_queue = [];
    next_mutation_key = 1;
    exposed = initial_data;
  }

  abbrev pub effective : MutationEntry D → Option (Mutation D)
  effective e = or_else e.certified_mutation e.non_certified_mutation

  abbrev pub apply_to : Option (Mutation D) → D → D
  apply_to none d = d
  apply_to (some f) d = f d

  abbrev pub apply_entry : MutationEntry D → D → D
  apply_entry e d = apply_to (effective e) d

  -- the loop of `updateExposedData`
  pub replay : D → List (MutationEntry D) → D
  replay d [] = d
  replay d (e ∷ queue) = replay (apply_entry e d) queue

  pub update_exposed_data : Store D → Store D
  unfolding replay
  update_exposed_data s = record s { exposed = replay s.certified_data s.mutation_queue }

  abbrev is_final_under : Strategy → MutationEntry D → Bool
  is_final_under query_and_update e = is_some e.certified_mutation
  is_final_under update e = is_some e.certified_mutation
  is_final_under query e = is_some e.non_certified_mutation

  pub is_final : MutationEntry D → Bool
  is_final e = is_final_under e.strategy e

  -- the slot that a response is written to
  abbrev slot : Bool → MutationEntry D → Option (Mutation D)
  slot true e = e.certified_mutation
  slot false e = e.non_certified_mutation

  abbrev pub write_slot : Bool → Mutation D → MutationEntry D → MutationEntry D
  write_slot true f e = record e { certified_mutation = some f }
  write_slot false f e = record e { non_certified_mutation = some f }

  abbrev pub has_key : ℕ → MutationEntry D → Bool
  has_key k e = nat_beq e.mutation_key k

  -- `entry[key] = mutation` on the entry that `find` returned, the first one with the key
  pub assign : ℕ → Bool → Mutation D → List (MutationEntry D) → List (MutationEntry D)
  assign k certified f [] = []
  assign k certified f (e ∷ queue) =
      if has_key k e then write_slot certified f e ∷ queue else e ∷ assign k certified f queue

  -- the `while` loop of `addMutation`
  pub drain : D → List (MutationEntry D) → D × List (MutationEntry D)
  unfolding is_final
  drain d [] = (d, [])
  drain d (e ∷ queue) =
      let rest = drain (apply_entry e d) queue in if is_final e then rest else (d, e ∷ queue)

  -- what `addMutation` does once its two guards have passed
  unfoldable pub settle : ℕ → Bool → Mutation D → Store D → Store D
  unfolding assign drain update_exposed_data
  settle k certified f s =
      let (d, queue) = drain s.certified_data (assign k certified f s.mutation_queue) in
      update_exposed_data (record s { certified_data = d; mutation_queue = queue })

  unfoldable pub add_mutation : ℕ → Bool → Mutation D → Store D → Outcome QueueError (Store D)
  add_mutation k certified f s = elim (find? (has_key k) s.mutation_queue) [
    | none ↦ throws (no_entry k)
    | some e ↦
        if is_some (slot certified e)
        then throws (already_have certified)
        else returns (settle k certified f s)
  ]

  unfoldable pub cancel : ℕ → Store D → Outcome QueueError (Store D)
  cancel k s = elim (find? (has_key k) s.mutation_queue) [
    | none ↦ throws (no_entry k)
    | some e ↦
        if is_some e.certified_mutation
        then throws already_applied
        else if is_some e.non_certified_mutation
        then throws already_applied
        else returns
            (record s { mutation_queue = filter (λ e. not (has_key k e)) s.mutation_queue })
  ]

  -- The key stands for the three closures of a `SingleMutationStore`, `set`, `update` and `cancel`.
  unfoldable pub get_single_mutation_store : Option Strategy → Store D → ℕ × Store D
  get_single_mutation_store strategy s = (
    s.next_mutation_key,
    record s {
      mutation_queue =
          s.mutation_queue
          ++ record {
            mutation_key = s.next_mutation_key;
            strategy = get_or_else strategy query_and_update;
            certified_mutation = none;
            non_certified_mutation = none;
          }
            ∷ [];
      next_mutation_key = s.next_mutation_key + 1;
    },
  )

  abbrev pub set : ℕ → D → Bool → Store D → Outcome QueueError (Store D)
  set k d certified = add_mutation k certified (λ _. d)

  abbrev pub update_data : ℕ → Mutation D → Bool → Store D → Outcome QueueError (Store D)
  update_data k f certified = add_mutation k certified f

  set_for_testing : D → Store D → Store D
  set_for_testing d s = record s { certified_data = d; mutation_queue = []; exposed = d }

  reset_for_testing : D → Store D → Store D
  reset_for_testing initial_data s = record s {
    certified_data = initial_data;
    mutation_queue = [];
    exposed = initial_data;
  }
