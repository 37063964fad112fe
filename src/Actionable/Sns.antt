-- ===== src/Actionable/Sns.antt =====
-- frontend/src/lib/services/actionable-sns-proposals.services.ts and
-- frontend/src/lib/stores/actionable-sns-proposals.store.ts, with `sortSnsProposalsById` and
-- `lastProposalId` of frontend/src/lib/utils/sns-proposals.utils.ts: the proposals of SNS projects
-- that the user can vote on, by the text of the root canister's id. The identity, the replies of
-- the canisters and `votableSnsNeurons` are arguments.
pub mod Failures
pub mod Loading
use nns_dapp.Common.{
  ℕ, ◌≡◌, Bool, true, false, Option, none, some, List, [], ◌∷◌, ◌++◌, String, string_has_eq, not,
  ◌==◌, length, filter, last?, unique, lookup, insert, remove_keys, ltb, get_or_else, is_some, pos,
  negsuc, Outcome, returns, throws, ◌>>=◌, if◌then◌else◌,
}
use nns_dapp.Sorting.{Comparator, sort}
use nns_dapp.SnsStores.{ProjectNeuronStore, neurons_of, set_neurons}
use nns_dapp.Actionable.{load_pages, max_actionable_request_count}

abbrev pub default_sns_proposals_page_size : ℕ
default_sns_proposals_page_size = 20

module _ {P : Type 0} (id : P → Option ℕ) where
  -- never 0: of two proposals with one id the later one comes first
  pub compare_sns_ids : Comparator P
  compare_sns_ids a b =
      if ltb (get_or_else (id b) 0) (get_or_else (id a) 0) then negsuc 0 else pos 1

  -- for a list that is not `undefined`
  pub sort_sns_proposals_by_id : List P → List P
  unfolding compare_sns_ids
  sort_sns_proposals_by_id proposals = sort compare_sns_ids proposals

  pub last_sns_proposal_id : List P → Option ℕ
  unfolding sort_sns_proposals_by_id
  last_sns_proposal_id proposals = elim (last? (sort_sns_proposals_by_id proposals)) [
    | none ↦ none
    | some p ↦ id p
  ]

  pub query_sns_proposals : {E : Type 0} → (ℕ → Option ℕ → Outcome E (List P)) → Outcome E (List P)
  unfolding load_pages last_sns_proposal_id sort_sns_proposals_by_id
  query_sns_proposals query =
      load_pages default_sns_proposals_page_size last_sns_proposal_id sort_sns_proposals_by_id query
        max_actionable_request_count 0 []

-- the store of proposals
module _ {P : Type 0} where
  pub set_actionable_sns : String → List P → List (String × List P) → List (String × List P)
  set_actionable_sns root proposals s = insert root proposals s

  reset_for_sns : String → List (String × List P) → List (String × List P)
  reset_for_sns root s = remove_keys (root ∷ []) s

-- the store of projects that failed
pub add_failed : String → List String → List String
add_failed root failed = unique (failed ++ root ∷ [])

pub remove_failed : String → List String → List String
remove_failed root failed = filter (λ i. not (i == root)) failed

-- the stores that a load reads and writes
pub record SnsState (P N : Type 0) : Type 0 where
  pub neurons : List (String × ProjectNeuronStore N)
  pub actionable : List (String × List P)
  pub failed : List String

-- what a load gets from elsewhere
pub record SnsReplies (P N I E : Type 0) : Type 0 where
  pub proposal_id : P → Option ℕ
  pub identity : Outcome E I
  pub query_page : String → I → ℕ → Option ℕ → Outcome E (List P)
  pub query_neurons : String → Outcome E (List N)
  pub votable_neurons : I → List N → P → List N

module _ {N E : Type 0} where
  -- `queryNeurons`: the store of neurons after the call
  pub ensure_sns_neurons :
      String
      → Outcome E (List N)
      → List (String × ProjectNeuronStore N)
      → Outcome E (List (String × ProjectNeuronStore N))
  unfolding set_neurons
  ensure_sns_neurons root query s =
      if is_some (lookup root s)
      then returns s
      else (query >>= λ neurons. returns (set_neurons root neurons (some false) s))

module _ {P N I E : Type 0} (env : SnsReplies P N I E) where
  abbrev pub is_votable_sns : I → List N → P → Bool
  is_votable_sns identity neurons p = ltb 0 (length (env.votable_neurons identity neurons p))

  pub load_actionable_proposals_for_sns : String → SnsState P N → SnsState P N
  unfolding query_sns_proposals ensure_sns_neurons set_actionable_sns add_failed remove_failed
  load_actionable_proposals_for_sns root s = elim env.identity [
    | throws e ↦ record s { failed = add_failed root s.failed }
    | returns identity ↦ elim (query_sns_proposals env.proposal_id (env.query_page root identity)) [
      | throws e ↦ record s { failed = add_failed root s.failed }
      | returns all_proposals ↦
          let failed = remove_failed root s.failed in
          elim (ensure_sns_neurons root (env.query_neurons root) s.neurons) [
            | throws e ↦ record s { failed = add_failed root failed }
            | returns neurons_store ↦
                let neurons = neurons_of (lookup root neurons_store) in
                record {
                  neurons = neurons_store;
                  actionable =
                      set_actionable_sns root
                        (filter (is_votable_sns identity neurons) all_proposals) s.actionable;
                  failed = failed;
                }
          ]
    ]
  ]

  -- one after the other; the loads of different projects touch different parts of the stores
  pub load_actionable_sns_proposals : List String → SnsState P N → SnsState P N
  unfolding load_actionable_proposals_for_sns
  load_actionable_sns_proposals [] s = s
  load_actionable_sns_proposals (root ∷ roots) s =
      load_actionable_sns_proposals roots (load_actionable_proposals_for_sns root s)
