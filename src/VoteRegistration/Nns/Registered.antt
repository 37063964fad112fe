-- ===== src/VoteRegistration/Nns/Registered.antt =====
-- frontend/src/lib/services/nns-vote-registration.services.ts, `registerNnsNeuronsVote`, from the
-- beginning of a vote to the end of its calls.
use nns_dapp.Common.{
  ℕ, nat_has_eq, ◌≡◌, refl, ap, Bool, true, false, not, Option, none, some, List, String,
  string_has_eq, ◌==◌, ◌&&◌, length, ltb, is_some, if◌then◌else◌, arith, eq_of_eqb, Bool-cases, inl,
  inr,
}
use nns_dapp.VoteRegistration.{Entry, Registrations, new_entry}
use nns_dapp.VoteRegistration.Found.{entry_of}
use nns_dapp.VoteRegistration.Managing.{
  ToastMessage, vote_in_progress, registering, register_vote, VoteError, Settled, resolved,
  rejected, pending, Voting, Setting, Ballots, rejected_responses, register_vote_error_details,
  process_register_vote_errors, caught,
}
use nns_dapp.VoteRegistration.Nns.{
  Replies, requests, all_settled, some_pending, register_nns_neurons_vote,
}
use nns_dapp.VoteRegistration.Nns.Requests.{Running, requests-Running}

module _ {V T E : Type 0} (setting : Setting V T E) (b : Ballots V) (replies : Replies E) where
  open setting use {toast_store}

  abbrev pub is_resolved : Settled (VoteError E) (Unit {0}) → Bool
  is_resolved (resolved u) = true
  is_resolved _ = false

  -- the responses of all neurons, in the order of the neurons
  abbrev pub responses : List (Settled (VoteError E) (Unit {0}))
  responses = all_settled setting b b.neuron_id_strings replies.arrivals

  -- those that are shown in an error toast
  abbrev pub failed : List (VoteError E × Option String)
  failed = rejected_responses setting responses b.neuron_id_strings

  abbrev pub error_toast : ToastMessage
  error_toast =
      register_vote b.proposal_id_string b.proposal_type
        (register_vote_error_details setting failed)

  abbrev pub calls_settle : Bool
  calls_settle = is_resolved replies.identity && not (some_pending setting b responses)

  -- the identity is there, each call has settled, and both reloads succeed
  abbrev pub completes : Bool
  completes = calls_settle && is_resolved replies.list_neurons && replies.reloaded

  abbrev pub some_failed : Bool
  some_failed = ltb 0 (length failed)

  unfoldable pub first_message : ToastMessage
  first_message =
      vote_in_progress (setting.is_yes b.vote) b.proposal_id_string b.proposal_type
        (registering 0 (length b.neuron_id_strings))

  unfoldable pub first_toast : T → ℕ
  first_toast t = (toast_store.show_toast first_message t).0

  -- the stores once the toast is shown and the entry added
  abbrev pub begun : Voting V T → Registrations V → Voting V T
  begun s r = record {
    registrations = r;
    toasts = (toast_store.show_toast first_message s.toasts).1;
  }

  pub begun-Running :
      (s : Voting V T) (r : Registrations V)
      → entry_of b.universe b.proposal_id_string r
        ≡ some (new_entry b.proposal_id_string b.neuron_id_strings b.vote)
      → Running setting b (first_toast s.toasts) s.toasts (begun s r)
  unfolding first_toast
  begun-Running s r found = record {
    entry = new_entry b.proposal_id_string b.neuron_id_strings b.vote;
    found = found;
    ours = refl;
    shows = (first_message, λ i. toast_store.visible-show first_message i s.toasts);
  }

  -- the vote is in progress, its toast is visible and perhaps one with errors
  pub record Voted (toast : ℕ) (before : T) (s : Voting V T) : Type 0 where
    pub entry : Entry V
    pub found : entry_of b.universe b.proposal_id_string s.registrations ≡ some entry
    pub ours : entry.proposal_id_string ≡ b.proposal_id_string
    pub message : ToastMessage
    pub second : ℕ
    pub apart : some_failed ≡ true → (toast == second) ≡ false
    pub fresh : some_failed ≡ true → toast_store.visible second before ≡ none
    pub shows :
        (i : ℕ)
        → toast_store.visible i s.toasts ≡ (
            if toast == i
            then some message
            else if some_failed && second == i
            then some error_toast
            else toast_store.visible i before)

  processed :
      (toast : ℕ) (before : T) (s : Voting V T)
      → Running setting b toast before s
      → (s' : Voting V T) × (caught setting (
            process_register_vote_errors setting responses b.neuron_id_strings b.proposal_id_string
              b.proposal_type s)
          ≡ (resolved tt, s'))
        × Voted toast before s'
  unfolding process_register_vote_errors caught
  processed toast before s run =
      let (m, h) = run.shows in
      let second = (toast_store.show_toast error_toast s.toasts).0 in
      let fresh = toast_store.show_fresh error_toast s.toasts in
      elim (Bool-cases some_failed) [
        | inl some_error ↦ (
          record s { toasts = (toast_store.show_toast error_toast s.toasts).1 },
          ground arith,
          record {
            entry = run.entry;
            found = run.found;
            ours = run.ours;
            message = m;
            second = second;
            apart = λ e. ground (arith, h second);
            fresh = λ e. ground (arith, h second);
            shows = λ i. ground (
              arith,
              toast_store.visible-show error_toast i s.toasts,
              h i,
              h second,
              eq_of_eqb second i,
            );
          },
        )
        | inr no_error ↦ (
          s,
          ground arith,
          record {
            entry = run.entry;
            found = run.found;
            ours = run.ours;
            message = m;
            second = toast;
            apart = λ e. ground arith;
            fresh = λ e. ground arith;
            shows = λ i. ground (arith, h i);
          },
        )
      ]

  identity_resolved : is_resolved replies.identity ≡ true → replies.identity ≡ resolved tt
  identity_resolved h =
      elim replies.identity as (λ r. is_resolved r ≡ true → r ≡ resolved tt) [
        | resolved u ↦ λ h. refl
        | rejected e ↦ λ h. cc
        | pending ↦ λ h. cc
      ]
        h

  pub registered :
      (toast : ℕ) (before : T) (s : Voting V T)
      → calls_settle ≡ true
      → Running setting b toast before s
      → (s' : Voting V T) × (register_nns_neurons_vote setting b replies toast s
          ≡ (resolved tt, s'))
        × Voted toast before s'
  unfolding register_nns_neurons_vote
  registered toast before s settles run =
      let (same, run') =
        requests-Running setting b replies.stored_type toast before replies.arrivals s run in
      let known = identity_resolved (ground arith) in
      let none_pending : some_pending setting b responses ≡ false = ground arith in
      let (s', e, voted) =
        processed toast before (requests setting b replies.stored_type toast replies.arrivals s).1
          run' in
      (
        s',
        ground (
          arith,
          same,
          known,
          none_pending,
          e,
          ap (all_settled setting b b.neuron_id_strings) same,
        ),
        voted,
      )

  -- a step that does not resolve while the vote is in progress
  abbrev pub Stops : Settled (VoteError E) (Unit {0}) × Voting V T → Type 0
  Stops result =
      (is_resolved result.0 ≡ false)
      × (is_some (entry_of b.universe b.proposal_id_string result.1.registrations) ≡ true)

  pub not_registered :
      (toast : ℕ) (before : T) (s : Voting V T)
      → calls_settle ≡ false
      → Running setting b toast before s
      → Stops (register_nns_neurons_vote setting b replies toast s)
  unfolding register_nns_neurons_vote
  not_registered toast before s unsettled run =
      let (same, run') =
        requests-Running setting b replies.stored_type toast before replies.arrivals s run in
      ground (
        arith,
        same,
        unsettled,
        run.found,
        run'.found,
        ap (all_settled setting b b.neuron_id_strings) same,
      )
