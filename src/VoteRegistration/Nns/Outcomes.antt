-- ===== src/VoteRegistration/Nns/Outcomes.antt =====
-- frontend/src/lib/services/nns-vote-registration.services.ts, `registerNnsVotes`: what a vote of
-- several neurons leaves behind.
use nns_dapp.Common.{
  ℕ, nat_has_eq, ◌≡◌, ap, Bool, true, none, some, string_has_eq, ◌==◌, ◌&&◌, is_some, if◌then◌else◌,
  arith, eq_of_eqb, eqb_comm, Bool-cases, inl, inr,
}
use nns_dapp.VoteRegistration.{Entry, post_update, update_status}
use nns_dapp.VoteRegistration.Found.{entry_of, add-found, change-found, remove-found}
use nns_dapp.VoteRegistration.Managing.{
  ToastMessage, vote_in_progress, updating, resolved, Voting, Setting, Ballots,
  create_register_votes_toast, update_vote_registration_toast_message, register_and_clean_up,
  manage_votes_registration, caught, toasts_hide,
}
use nns_dapp.VoteRegistration.Nns.{Replies, update_after_nns_vote_registration, register_nns_votes}
use nns_dapp.VoteRegistration.Nns.Requests.{by_proposal-found}
use nns_dapp.VoteRegistration.Nns.Registered.{
  is_resolved, error_toast, completes, some_failed, first_message, first_toast, begun,
  begun-Running, Voted, registered,
}

module _ {V T E : Type 0} (setting : Setting V T E) (b : Ballots V) (replies : Replies E) where
  open setting use {toast_store}

  reloads_resolve :
      (s : Voting V T)
      → (is_resolved setting b replies replies.list_neurons && replies.reloaded) ≡ true
      → update_after_nns_vote_registration setting b replies s ≡ (resolved tt, s)
  unfolding update_after_nns_vote_registration
  reloads_resolve s h = ground arith

  -- the stores at the end: no entry, and of the toasts of the vote at most the one with errors
  pub record CleanedUp (before after : Voting V T) : Type 0 where
    pub no_entry : entry_of b.universe b.proposal_id_string after.registrations ≡ none
    pub second : ℕ
    pub was_free :
        some_failed setting b replies ≡ true → toast_store.visible second before.toasts ≡ none
    pub toasts :
        (i : ℕ)
        → toast_store.visible i after.toasts ≡ (
            if some_failed setting b replies && second == i
            then some (error_toast setting b replies)
            else toast_store.visible i before.toasts)

  toasts_left :
      (toast : ℕ) (message : ToastMessage) (before : T) (s : Voting V T)
      (voted : Voted setting b replies toast before s)
      → toast_store.visible toast before ≡ none
      → (i : ℕ)
      → toast_store.visible i
          (toast_store.hide_toast toast (toast_store.update toast message s.toasts))
        ≡ (if some_failed setting b replies && voted.second == i
            then some (error_toast setting b replies)
            else toast_store.visible i before)
  toasts_left toast message before s voted fresh i = elim (Bool-cases (toast == i)) [
    | inl own ↦
        let same = eq_of_eqb toast i own in
        ground (
          arith,
          toast_store.visible-hide i toast (toast_store.update toast message s.toasts),
          own,
          same,
          voted.apart,
          ap (λ j. toast_store.visible j before) same,
          fresh,
          eqb_comm voted.second i,
          ap (λ j. j == voted.second) same,
        )
    | inr other ↦ ground (
      arith,
      toast_store.visible-hide i toast (toast_store.update toast message s.toasts),
      toast_store.visible-update message i toast s.toasts,
      voted.shows i,
      other,
    )
  ]

  -- A vote that can complete resolves, and leaves no entry for the proposal. Its toast is gone,
  -- and the others are as before, but for one new toast with the reasons if calls failed for
  -- another reason than that the neuron has voted.
  pub register_nns_votes-cleans_up :
      (s : Voting V T)
      → entry_of b.universe b.proposal_id_string s.registrations ≡ none
      → completes setting b replies ≡ true
      → (s' : Voting V T) × (register_nns_votes setting b replies s ≡ (resolved tt, s'))
        × CleanedUp s s'
  unfolding register_nns_votes manage_votes_registration register_and_clean_up caught
      create_register_votes_toast first_toast first_message update_status
      update_vote_registration_toast_message toasts_hide
  register_nns_votes-cleans_up s free can_complete =
      let u = b.universe in
      let p = b.proposal_id_string in
      let toast = first_toast setting b replies s.toasts in
      let (r₁, added, found₁) = add-found u p b.neuron_id_strings b.vote s.registrations free in
      let (s₂, called, voted) =
        registered setting b replies toast s.toasts (begun setting b replies s r₁) (ground arith)
          (begun-Running setting b replies s r₁ found₁) in
      let done = record voted.entry { status = post_update } in
      let (r₃, changed, found₃) =
        change-found u p (λ (e : Entry V). record e { status = post_update }) s₂.registrations
          voted.entry voted.found voted.ours in
      let message = vote_in_progress (setting.is_yes b.vote) p b.proposal_type updating in
      let s₃ : Voting V T = record { registrations = r₃; toasts = s₂.toasts } in
      let s₄ : Voting V T = record s₃ { toasts = toast_store.update toast message s₂.toasts } in
      let (r₅, removed, found₅) = remove-found u p r₃ found₃ in
      (
        record { registrations = r₅; toasts = toast_store.hide_toast toast s₄.toasts },
        ground (
          arith,
          added,
          called,
          changed,
          by_proposal-found setting b s₃ found₃,
          reloads_resolve s₄ (ground arith),
          removed,
        ),
        record {
          no_entry = found₅;
          second = voted.second;
          was_free = voted.fresh;
          toasts =
              toasts_left toast message s.toasts s₂ voted
                (toast_store.show_fresh (first_message setting b replies) s.toasts);
        },
      )

  abbrev in_progress : Voting V T → Bool
  in_progress s = is_some (entry_of b.universe b.proposal_id_string s.registrations)
