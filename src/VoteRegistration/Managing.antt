-- ===== src/VoteRegistration/Managing.antt =====
-- frontend/src/lib/services/vote-registration.services.ts: a vote of several neurons, its entry in
-- the store of registrations and the toast that shows how far it is. The toasts of
-- @dfinity/gix-components are an interface. A promise resolves, rejects or stays pending, and what
-- was written before it did stays written. The texts of messages are not modelled.
use nns_dapp.Common.{
  ℕ, ◌≡◌, Bool, true, Option, none, some, List, [], ◌∷◌, String, string_has_eq, nat_has_eq,
  option_has_eq, ◌==◌, ◌&&◌, map, length, find?, lookup, is_some, Outcome, returns, throws,
  if◌then◌else◌, ltb,
}
use nns_dapp.VoteRegistration.{
  post_update, RegistrationError, Entry, Registrations, is_for, add, update_status, remove,
}

-- how many neurons have voted, of how many
pub data ToastStatus : Type 0 where
  registering : ℕ → ℕ → ToastStatus
  updating : ToastStatus

pub data ToastMessage : Type 0 where
  -- adopted or rejected, the proposal, its type
  vote_in_progress : Bool → String → String → ToastStatus → ToastMessage
  register_vote_unknown : Option String → ToastMessage
  -- the proposal, its type, the details
  register_vote : String → String → List String → ToastMessage

-- the store of toasts: a shown toast gets a new symbol
pub record ToastStore (T : Type 0) : Type 0 where
  pub show_toast : ToastMessage → T → ℕ × T
  pub update : ℕ → ToastMessage → T → T
  pub hide_toast : ℕ → T → T
  pub visible : ℕ → T → Option ToastMessage
  pub show_fresh : (m : ToastMessage) (t : T) → visible (show_toast m t).0 t ≡ none
  pub visible-show :
      (m : ToastMessage) (i : ℕ) (t : T)
      → visible i (show_toast m t).1 ≡ (if (show_toast m t).0 == i then some m else visible i t)
  pub visible-update :
      (m : ToastMessage) (i j : ℕ) (t : T)
      → visible i (update j m t)
        ≡ (if (j == i) && is_some (visible i t) then some m else visible i t)
  pub visible-hide :
      (i j : ℕ) (t : T) → visible i (hide_toast j t) ≡ (if j == i then none else visible i t)

pub data VoteError (E : Type 0) : Type 0 where
  store_error : RegistrationError → VoteError E
  -- no list for the universe or no entry for the proposal
  missing_registration : VoteError E
  call_error : E → VoteError E

pub data Settled (E A : Type 0) : Type 0 where
  resolved : A → Settled E A
  rejected : E → Settled E A
  pending : Settled E A

pub record Voting (V T : Type 0) : Type 0 where
  pub registrations : Registrations V
  pub toasts : T

-- a piece of asynchronous code
abbrev pub Action : Type 0 → Type 0 → Type 0 → Type 0 → Type 0
Action V T E A = Voting V T → Settled (VoteError E) A × Voting V T

module _ {V T E : Type 0} where
  infixl 5 ◌>>=◌ ◌>>◌
  abbrev pub pure : {A : Type 0} → A → Action V T E A
  pure a s = (resolved a, s)

  abbrev pub ◌>>=◌ : {A B : Type 0} → Action V T E A → (A → Action V T E B) → Action V T E B
  ◌>>=◌ m f s =
      let (r, s') = m s in
      elim r [ resolved a ↦ f a s' | rejected e ↦ (rejected e, s') | pending ↦ (pending, s') ]

  abbrev pub ◌>>◌ : {A B : Type 0} → Action V T E A → Action V T E B → Action V T E B
  m >> k = m >>= λ _. k

  -- a call of the store of registrations
  abbrev pub on_store :
      (Registrations V → Outcome RegistrationError (Registrations V)) → Action V T E (Unit {0})
  on_store f s = elim (f s.registrations) [
    | returns r ↦ (resolved tt, record s { registrations = r })
    | throws e ↦ (rejected (store_error e), s)
  ]

  unfoldable pub vote_registration_by_proposal : String → String → Action V T E (Entry V)
  vote_registration_by_proposal universe proposal s = elim (lookup universe s.registrations) [
    | none ↦ (rejected missing_registration, s)
    | some entries ↦ elim (find? (is_for proposal) entries) [
      | none ↦ (rejected missing_registration, s)
      | some entry ↦ (resolved entry, s)
    ]
  ]

-- what is fixed: the store of toasts, the vote that adopts, the texts of errors
pub record Setting (V T E : Type 0) : Type 0 where
  pub toast_store : ToastStore T
  pub is_yes : V → Bool
  pub error_to_string : VoteError E → Option String
  -- `registerVoteErrorReason` of a rejected response
  pub reason_text : Option String → VoteError E → String

-- what a vote is about
pub record Ballots (V : Type 0) : Type 0 where
  pub universe : String
  pub neuron_id_strings : List String
  pub proposal_id_string : String
  pub proposal_type : String
  pub vote : V

module _ {V T E : Type 0} (setting : Setting V T E) where
  unfoldable pub create_register_votes_toast : Ballots V → Action V T E ℕ
  create_register_votes_toast b s =
      let message =
        vote_in_progress (setting.is_yes b.vote) b.proposal_id_string b.proposal_type
          (registering 0 (length b.neuron_id_strings)) in
      let (toast, toasts) = setting.toast_store.show_toast message s.toasts in
      (resolved toast, record s { toasts = toasts })

  -- with the vote, the ids of the neurons and of those that have voted
  unfoldable pub update_vote_registration_toast_message :
      ℕ → String → String → List String → List String → Bool → V → Action V T E (Unit {0})
  update_vote_registration_toast_message toast proposal type neurons voted registration_done vote
        s =
      let status =
        if registration_done then updating else registering (length voted) (length neurons) in
      let message = vote_in_progress (setting.is_yes vote) proposal type status in
      (resolved tt, record s { toasts = setting.toast_store.update toast message s.toasts })

  unfoldable pub toasts_hide : ℕ → Action V T E (Unit {0})
  toasts_hide toast s =
      (resolved tt, record s { toasts = setting.toast_store.hide_toast toast s.toasts })

  unfoldable pub toasts_error : VoteError E → Action V T E (Unit {0})
  toasts_error e s =
      let message = register_vote_unknown (setting.error_to_string e) in
      (resolved tt, record s { toasts = (setting.toast_store.show_toast message s.toasts).1 })

  -- the `try` block
  unfoldable pub register_and_clean_up :
      Ballots V → (ℕ → Action V T E (Unit {0})) → Action V T E (Unit {0}) → Action V T E (Unit {0})
  unfolding create_register_votes_toast add update_status vote_registration_by_proposal
      update_vote_registration_toast_message toasts_hide remove
  register_and_clean_up b register_neuron_votes post_registration = do
    toast ← create_register_votes_toast b
    on_store (add b.universe b.proposal_id_string b.neuron_id_strings b.vote)
    register_neuron_votes toast
    on_store (update_status b.universe b.proposal_id_string post_update)
    entry ← vote_registration_by_proposal b.universe b.proposal_id_string
    update_vote_registration_toast_message toast b.proposal_id_string b.proposal_type
        b.neuron_id_strings entry.successfully_voted true b.vote
    post_registration
    toasts_hide toast
    on_store (remove b.universe b.proposal_id_string)

  -- the `catch` block
  unfoldable pub caught :
      Settled (VoteError E) (Unit {0}) × Voting V T → Settled (VoteError E) (Unit {0}) × Voting V T
  unfolding toasts_error
  caught (r, s) = elim r [
    | resolved u ↦ (resolved u, s)
    | rejected e ↦ toasts_error e s
    | pending ↦ (pending, s)
  ]

  unfoldable pub manage_votes_registration :
      Ballots V → (ℕ → Action V T E (Unit {0})) → Action V T E (Unit {0}) → Action V T E (Unit {0})
  unfolding register_and_clean_up caught
  manage_votes_registration b register_neuron_votes post_registration s =
      caught (register_and_clean_up b register_neuron_votes post_registration s)

  unfoldable pub is_already_voted_error : VoteError E → Bool
  is_already_voted_error e = setting.error_to_string e == some "Neuron already voted on proposal."

  -- the rejected responses that count, each with the id at its index
  unfoldable pub rejected_responses :
      List (Settled (VoteError E) (Unit {0})) → List String → List (VoteError E × Option String)
  unfolding is_already_voted_error
  rejected_responses [] ids = []
  rejected_responses (r ∷ rs) [] = elim r [
    | rejected e ↦
        if is_already_voted_error e
        then rejected_responses rs []
        else (e, none) ∷ rejected_responses rs []
    | _ ↦ rejected_responses rs []
  ]
  rejected_responses (r ∷ rs) (i ∷ ids) = elim r [
    | rejected e ↦
        if is_already_voted_error e
        then rejected_responses rs ids
        else (e, some i) ∷ rejected_responses rs ids
    | _ ↦ rejected_responses rs ids
  ]

  unfoldable pub register_vote_error_details : List (VoteError E × Option String) → List String
  register_vote_error_details responses = map (λ r. setting.reason_text r.1 r.0) responses

  unfoldable pub process_register_vote_errors :
      List (Settled (VoteError E) (Unit {0}))
      → List String
      → String
      → String
      → Action V T E (Unit {0})
  unfolding rejected_responses register_vote_error_details
  process_register_vote_errors responses ids proposal type s =
      let failed = rejected_responses responses ids in
      let message = register_vote proposal type (register_vote_error_details failed) in
      if ltb 0 (length failed)
      then (resolved tt, record s { toasts = (setting.toast_store.show_toast message s.toasts).1 })
      else (resolved tt, s)
