-- ===== src/Proposals/Store.antt =====
-- frontend/src/lib/stores/proposals.store.ts: the queued store of proposals, the filters and the
-- payloads. Local storage, which mirrors the filters, is not modelled.
pub mod Unique
use nns_dapp.Common.{
  ℕ, nat_has_eq, Bool, true, false, Option, none, some, List, [], ◌∷◌, Outcome, insert, lookup,
  ◌&&◌, ◌||◌, HasEq, contains, filter, not, is_some, find?, if◌then◌else◌, length, nat_beq, throws,
}
use nns_dapp.QueuedStore.{
  Strategy, Mutation, QueueError, Store, init, get_single_mutation_store, set, update_data, cancel,
}
use nns_dapp.Proposals.{
  exclude_proposals, concatenate_unique_proposals, replace_proposals,
  replace_and_concatenate_proposals,
}

pub record ProposalsStore (P : Type 0) : Type 0 where
  pub proposals : List P
  pub certified : Option Bool

-- `oldCertified && newCertified`
abbrev and_certified : Option Bool → Bool → Option Bool
and_certified none new_certified = none
and_certified (some false) new_certified = some false
and_certified (some true) new_certified = some new_certified

module _ {P : Type 0} where
  unfoldable pub init_proposals_store : Store (ProposalsStore P)
  init_proposals_store = init (record { proposals = []; certified = none })

  unfoldable pub set_proposals :
      ℕ → List P → Bool → Store (ProposalsStore P) → Outcome QueueError (Store (ProposalsStore P))
  set_proposals k proposals certified =
      set k (record { proposals = proposals; certified = some certified }) certified

module _ {P : Type 0} (id : P → Option ℕ) where
  abbrev pub without : List P → Mutation (ProposalsStore P)
  without proposals_to_remove d = record d {
    proposals = exclude_proposals id d.proposals proposals_to_remove;
  }

  pub remove_proposals :
      ℕ → List P → Bool → Store (ProposalsStore P) → Outcome QueueError (Store (ProposalsStore P))
  remove_proposals k proposals_to_remove certified =
      update_data k (without proposals_to_remove) certified

  abbrev pub pushed : List P → Bool → Mutation (ProposalsStore P)
  pushed proposals certified d = record {
    proposals =
        if certified
        then replace_and_concatenate_proposals id d.proposals proposals
        else concatenate_unique_proposals id d.proposals proposals;
    certified = some certified;
  }

  unfoldable pub push_proposals :
      ℕ → List P → Bool → Store (ProposalsStore P) → Outcome QueueError (Store (ProposalsStore P))
  push_proposals k proposals certified = update_data k (pushed proposals certified) certified

  abbrev pub replaced : List P → Bool → Mutation (ProposalsStore P)
  replaced proposals new_certified d = record {
    proposals = replace_proposals id d.proposals proposals;
    certified = and_certified d.certified new_certified;
  }

  pub replace_in_store :
      ℕ → List P → Bool → Store (ProposalsStore P) → Outcome QueueError (Store (ProposalsStore P))
  replace_in_store k proposals new_certified =
      update_data k (replaced proposals new_certified) new_certified

-- The filters of the page, and whether a proposal matches them; topics and states are numbers.
pub record ProposalsFilters : Type 0 where
  pub topics : List ℕ
  pub status : List ℕ

filter_topics : List ℕ → ProposalsFilters → ProposalsFilters
filter_topics topics filters = record filters { topics = topics }

filter_status : List ℕ → ProposalsFilters → ProposalsFilters
filter_status status filters = record filters { status = status }

module _ {P : Type 0} (topic status : P → ℕ) where
  match_filters : P → ProposalsFilters → Bool
  match_filters p filters =
      (nat_beq (length filters.topics) 0 || contains filters.topics (topic p))
      && (nat_beq (length filters.status) 0 || contains filters.status (status p))

  hide_proposal : P → ProposalsFilters → Bool
  unfolding match_filters
  hide_proposal p filters = not (match_filters p filters)

  has_matching_proposals : List P → ProposalsFilters → Bool
  unfolding hide_proposal
  has_matching_proposals proposals filters =
      if nat_beq (length proposals) 0
      then false
      else is_some (find? (λ p. not (hide_proposal p filters)) proposals)

-- The payloads: a map whose own `set` throws, so that `setPayload` is the one way to write.
pub data PayloadError : Type 0 where
  use_set_payload : PayloadError

module _ {V : Type 0} where
  map_set : ℕ → V → List (ℕ × V) → Outcome PayloadError (List (ℕ × V))
  map_set proposal_id payload payloads = throws use_set_payload

  set_payload : ℕ → V → List (ℕ × V) → List (ℕ × V)
  set_payload proposal_id payload state_map = insert proposal_id payload state_map
