-- ===== src/QueuedStore/Tests.antt =====
-- Concrete runs of a queued store, and the theorems at one of them.
use nns_dapp.Common.{
  ℕ, nat_has_eq, ◌*◌, ◌≡◌, refl, true, false, none, some, [], ◌∷◌, arith, throws, state_after,
}
use nns_dapp.QueuedStore.{
  Mutation, Store, QueueError, init, replay, settle, add_mutation, cancel,
  get_single_mutation_store,
}
use nns_dapp.QueuedStore.Log.{new_entry}
use nns_dapp.QueuedStore.Order.{
  Reaches, start, reserve, respond, exposed-eq-replay, add_mutation_settles, newer_data_survives,
  add_mutation_comm,
}

abbrev double : Mutation ℕ
double n = n * 2

-- two calls are made, with keys 1 and 2
abbrev two_calls : Store ℕ
two_calls = (get_single_mutation_store none (get_single_mutation_store none (init 5)).1).1

-- the query response of the second call, then the update response of the first
abbrev newer : Store ℕ
newer = state_after (add_mutation 2 false (λ _. 9) two_calls) two_calls

abbrev older : Store ℕ
older = state_after (add_mutation 1 true double newer) newer

abbrev settled : Store ℕ
settled = state_after (add_mutation 2 true (λ _. 8) older) older

-- the same two responses the other way round
abbrev older_first : Store ℕ
older_first = state_after (add_mutation 1 true double two_calls) two_calls

abbrev both : Store ℕ
both = state_after (add_mutation 2 false (λ _. 9) older_first) older_first

run_exposed :
    (newer.exposed ≡ 9) × (older.exposed ≡ 9) × (older.certified_data ≡ 10) × (settled.exposed ≡ 8)
unfolding get_single_mutation_store init add_mutation settle
run_exposed = (refl, refl, refl, refl)

late_query_throws : add_mutation 1 false double older ≡ throws (QueueError.no_entry 1)
unfolding get_single_mutation_store init add_mutation settle
late_query_throws = refl

twice_throws : add_mutation 2 false double newer ≡ throws (QueueError.already_have false)
unfolding get_single_mutation_store init add_mutation settle
twice_throws = refl

cancel_throws : cancel 2 newer ≡ throws QueueError.already_applied
unfolding get_single_mutation_store init add_mutation settle cancel
cancel_throws = refl

two_calls-Reaches : Reaches 5 (new_entry 1 none ∷ new_entry 2 none ∷ []) two_calls
unfolding get_single_mutation_store init
two_calls-Reaches = reserve none (reserve none start)

newer-Reaches :
    Reaches 5
      (new_entry 1 none ∷ record (new_entry 2 none) { non_certified_mutation = some (λ _. 9) } ∷ [])
      newer
unfolding get_single_mutation_store init add_mutation settle
newer-Reaches = respond 2 false (λ _. 9) two_calls-Reaches refl

older-Reaches :
    Reaches 5
      (record (new_entry 1 none) { certified_mutation = some double }
        ∷ record (new_entry 2 none) { non_certified_mutation = some (λ _. 9) }
        ∷ [])
      older
unfolding get_single_mutation_store init add_mutation settle
older-Reaches = respond 1 true double newer-Reaches refl

exposed-eq-replay_example :
    older.exposed
    ≡ replay 5 (
        record (new_entry 1 none) { certified_mutation = some double }
        ∷ record (new_entry 2 none) { non_certified_mutation = some (λ _. 9) }
        ∷ [])
exposed-eq-replay_example = exposed-eq-replay older-Reaches

add_mutation_settles_example :
    (settled.mutation_queue ≡ []) × (settled.certified_data ≡ settled.exposed)
unfolding get_single_mutation_store init add_mutation settle
add_mutation_settles_example =
    add_mutation_settles 2 true (λ _. 8) older-Reaches refl (refl, (refl, tt))

newer_data_survives_example : (newer.exposed ≡ 9) × (older.exposed ≡ 9)
unfolding get_single_mutation_store init add_mutation settle
newer_data_survives_example =
    newer_data_survives (new_entry 1 none ∷ [])
      (record (new_entry 2 none) { non_certified_mutation = some (λ _. 9) }) 9 1 true double
      newer-Reaches refl refl (omega arith) refl

add_mutation_comm_example : older ≡ both
unfolding get_single_mutation_store init add_mutation settle
add_mutation_comm_example =
    add_mutation_comm 2 1 false true (λ _. 9) double two_calls-Reaches (omega arith) refl refl refl
      refl
