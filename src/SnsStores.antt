-- ===== src/SnsStores.antt =====
-- The stores of SNS projects, by root canister id: frontend/src/lib/stores/sns-proposals.store.ts
-- and frontend/src/lib/stores/sns-neurons.store.ts, and the store of neurons whose balance was
-- checked, frontend/src/lib/stores/checked-neurons.store.ts. The ids of proposals and neurons are
-- read by parameters.
pub mod Projects
pub mod CheckedOnce
mod Tests
use nns_dapp.Common.{
  ℕ, nat_has_eq, option_has_eq, Bool, true, false, Option, none, some, List, [], ◌∷◌, ◌++◌, String,
  string_has_eq, HasEq, not, map, filter, contains, unique, get_or_else, is_some, lookup, insert,
  remove_keys, if◌then◌else◌,
}

pub record ProjectProposalData (P : Type 0) : Type 0 where
  pub proposals : List P
  pub certified : Option Bool
  pub completed : Bool

pub record ProjectNeuronStore (N : Type 0) : Type 0 where
  pub neurons : List N
  pub certified : Option Bool

-- the given items, then the old ones that have none of their ids
pub put_first : {A I : Type 0} ⦃e : HasEq I⦄ (id : A → I) → List A → List A → List A
put_first id items old =
    let new_ids = unique (map id items) in items ++ filter (λ a. not (contains new_ids (id a))) old

abbrev pub proposals_of : {P : Type 0} → Option (ProjectProposalData P) → List P
proposals_of none = []
proposals_of (some p) = p.proposals

abbrev pub neurons_of : {N : Type 0} → Option (ProjectNeuronStore N) → List N
neurons_of none = []
neurons_of (some p) = p.neurons

module _ {P : Type 0} where
  pub set_proposals :
      String
      → List P
      → Option Bool
      → Bool
      → List (String × ProjectProposalData P)
      → List (String × ProjectProposalData P)
  set_proposals root proposals certified completed s =
      insert root (record { proposals = proposals; certified = certified; completed = completed }) s

  pub add_proposals :
      (P → Option ℕ)
      → String
      → List P
      → Option Bool
      → Bool
      → List (String × ProjectProposalData P)
      → List (String × ProjectProposalData P)
  unfolding put_first
  add_proposals id root proposals certified completed s =
      insert root
        (record {
          proposals = put_first id proposals (proposals_of (lookup root s));
          certified = certified;
          completed = completed;
        })
        s

  reset_proposals : List (String × ProjectProposalData P) → List (String × ProjectProposalData P)
  reset_proposals s = []

module _ {N : Type 0} where
  unfoldable pub set_neurons :
      String
      → List N
      → Option Bool
      → List (String × ProjectNeuronStore N)
      → List (String × ProjectNeuronStore N)
  set_neurons root neurons certified s =
      insert root (record { neurons = neurons; certified = certified }) s

  -- the id is `getSnsNeuronIdAsHexString`
  pub add_neurons :
      (N → String)
      → String
      → List N
      → Option Bool
      → List (String × ProjectNeuronStore N)
      → List (String × ProjectNeuronStore N)
  unfolding put_first
  add_neurons id root neurons certified s =
      insert root
        (record {
          neurons = put_first id neurons (neurons_of (lookup root s));
          certified = certified;
        })
        s

  reset_neurons : List (String × ProjectNeuronStore N) → List (String × ProjectNeuronStore N)
  reset_neurons s = []

  reset_project :
      String → List (String × ProjectNeuronStore N) → List (String × ProjectNeuronStore N)
  reset_project root s = remove_keys (root ∷ []) s

-- `{ [universeId]: { [subaccountHex]: true } }`
abbrev pub Checked : Type 0
Checked = List (String × List (String × Bool))

pub is_present : String → String → Checked → Bool
is_present universe subaccount s =
    get_or_else (lookup subaccount (get_or_else (lookup universe s) [])) false

-- the result, and the state after the call
pub add_subaccount : String → String → Checked → Bool × Checked
unfolding is_present
add_subaccount universe subaccount s =
    if is_present universe subaccount s
    then (false, s)
    else (true, insert universe (insert subaccount true (get_or_else (lookup universe s) [])) s)

reset_checked : Checked → Checked
reset_checked s = []
