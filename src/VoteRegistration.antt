-- ===== src/VoteRegistration.antt =====
-- frontend/src/lib/stores/vote-registration.store.ts, `initVoteRegistrationStore`: the votes in
-- progress, for each universe a list of entries that are found by their proposal. The type of
-- votes is a parameter. `console.error` is not modelled.
pub mod Entries
pub mod Lifecycle
pub mod Found
pub mod Managing
pub mod Nns
mod Tests
use nns_dapp.Common.{
  Bool, true, false, Option, none, some, List, [], ◌∷◌, ◌++◌, String, string_has_eq, not, ◌==◌,
  ◌&&◌, filter, find?, contains, unique, insert, lookup, Outcome, returns, throws, if◌then◌else◌,
  is_some, get_or_else, length, ltb,
}

pub data VoteRegistrationStatus : Type 0 where
  vote_registration post_update : VoteRegistrationStatus

pub data RegistrationError : Type 0 where
  simultaneous_voting no_registrations : RegistrationError

module _ (V : Type 0) where
  pub record Entry : Type 0 where
    pub status : VoteRegistrationStatus
    pub proposal_id_string : String
    pub neuron_id_strings : List String
    pub successfully_voted : List String
    pub vote : V

  abbrev pub Registrations : Type 0
  Registrations = List (String × List Entry)

module _ {V : Type 0} where
  abbrev pub is_for : String → Entry V → Bool
  is_for proposal e = e.proposal_id_string == proposal

  abbrev pub is_not_for : String → Entry V → Bool
  is_not_for proposal e = not (e.proposal_id_string == proposal)

  abbrev pub new_entry : String → List String → V → Entry V
  new_entry proposal neurons vote = record {
    status = vote_registration;
    proposal_id_string = proposal;
    neuron_id_strings = neurons;
    successfully_voted = [];
    vote = vote;
  }

  pub add :
      String
      → String
      → List String
      → V
      → Registrations V
      → Outcome RegistrationError (Registrations V)
  add canister proposal neurons vote registrations = elim (lookup canister registrations) [
    | none ↦ returns (insert canister (new_entry proposal neurons vote ∷ []) registrations)
    | some entries ↦
        if is_some (find? (is_for proposal) entries)
        then throws simultaneous_voting
        else returns
            (insert canister (entries ++ new_entry proposal neurons vote ∷ []) registrations)
  ]

  -- the update of one entry in place of the old one, behind the others
  abbrev pub moved : String → Entry V → List (Entry V) → List (Entry V)
  moved proposal entry entries = filter (is_not_for proposal) entries ++ entry ∷ []

  abbrev pub change :
      String
      → String
      → (Entry V → Entry V)
      → Registrations V
      → Outcome RegistrationError (Registrations V)
  change canister proposal f registrations = elim (lookup canister registrations) [
    | none ↦ throws no_registrations
    | some entries ↦ elim (find? (is_for proposal) entries) [
      | none ↦ returns registrations
      | some entry ↦ returns (insert canister (moved proposal (f entry) entries) registrations)
    ]
  ]

  abbrev pub with_voted : String → Entry V → Entry V
  with_voted neuron e = record e {
    successfully_voted = unique (e.successfully_voted ++ neuron ∷ []);
  }

  pub add_successfully_voted_neuron_id :
      String → String → String → Registrations V → Outcome RegistrationError (Registrations V)
  add_successfully_voted_neuron_id canister proposal neuron registrations =
      change canister proposal (with_voted neuron) registrations

  pub update_status :
      String
      → String
      → VoteRegistrationStatus
      → Registrations V
      → Outcome RegistrationError (Registrations V)
  update_status canister proposal status registrations =
      change canister proposal (λ e. record e { status = status }) registrations

  pub remove : String → String → Registrations V → Outcome RegistrationError (Registrations V)
  remove canister proposal registrations = elim (lookup canister registrations) [
    | none ↦ throws no_registrations
    | some entries ↦ returns (insert canister (filter (is_not_for proposal) entries) registrations)
  ]

  pub reset : Registrations V → Registrations V
  reset registrations = []

  -- `neuronVoting` of neuron.utils.ts, for the registrations of one universe
  pub neuron_voting : String → String → Registrations V → Bool
  neuron_voting own_canister neuron registrations = is_some (
      find? (λ e. contains e.neuron_id_strings neuron && not (contains e.successfully_voted neuron))
        (get_or_else (lookup own_canister registrations) []))

  -- `voteRegistrationActive` of proposals.utils.ts
  vote_registration_active : List (Entry V) → Bool
  vote_registration_active votes =
      is_some (find? (λ e. ltb (length e.successfully_voted) (length e.neuron_id_strings)) votes)
