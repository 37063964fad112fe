-- ===== src/VoteRegistration/Nns/Requests.antt =====
-- The calls of a vote of neurons of the NNS, one after the other as they settle: the entry of the
-- vote stays, each call has its own response, and no toast but that of the vote changes.
use nns_dapp.Common.{
  ℕ, nat_has_eq, ◌≡◌, refl, ap₂, some, List, [], ◌∷◌, String, string_has_eq, ◌==◌, if◌then◌else◌,
  arith, lookup, Option-cases, inl, inr, length,
}
use nns_dapp.VoteRegistration.{Entry, with_voted, add_successfully_voted_neuron_id}
use nns_dapp.VoteRegistration.Found.{entry_of, change-found}
use nns_dapp.VoteRegistration.Managing.{
  ToastMessage, vote_in_progress, registering, VoteError, Settled, resolved, rejected, pending,
  Voting, vote_registration_by_proposal, Setting, Ballots, update_vote_registration_toast_message,
}
use nns_dapp.VoteRegistration.Nns.{update_toast_after_neuron_registration, request, requests}

module _ {V T E : Type 0} (setting : Setting V T E) where
  open setting use {toast_store}

  -- the toasts are those of before, but for one that was added and may have changed since
  abbrev pub Shows : ℕ → T → T → Type 0
  Shows toast before now =
      (m : ToastMessage) × ((i : ℕ)
        → toast_store.visible i now ≡ (if toast == i then some m else toast_store.visible i before))

  pub Shows-update :
      (toast : ℕ) (m : ToastMessage) (before now : T)
      → Shows toast before now
      → Shows toast before (toast_store.update toast m now)
  Shows-update toast m before now (m₀, h) =
      (m, λ i. ground (arith, toast_store.visible-update m i toast now, h i))

  module _ (b : Ballots V) where
    pub by_proposal-found :
        (s : Voting V T) {e : Entry V}
        → entry_of b.universe b.proposal_id_string s.registrations ≡ some e
        → vote_registration_by_proposal {E = E} b.universe b.proposal_id_string s ≡ (resolved e, s)
    unfolding vote_registration_by_proposal
    by_proposal-found s {e} found = elim (Option-cases (lookup b.universe s.registrations)) [
      | inl no_list ↦ absurd (ground arith)
      | inr (entries, here) ↦ ground arith
    ]

    -- the vote is in progress, and its toast is the only new one
    pub record Running (toast : ℕ) (before : T) (s : Voting V T) : Type 0 where
      pub entry : Entry V
      pub found : entry_of b.universe b.proposal_id_string s.registrations ≡ some entry
      pub ours : entry.proposal_id_string ≡ b.proposal_id_string
      pub shows : Shows toast before s.toasts

    updated :
        (type neuron : String) (toast : ℕ) (before : T) (s : Voting V T)
        → Running toast before s
        → (s' : Voting V T) × (update_toast_after_neuron_registration {E = E} setting b type neuron
              toast s
            ≡ (resolved tt, s'))
          × Running toast before s'
    unfolding update_toast_after_neuron_registration add_successfully_voted_neuron_id
        update_vote_registration_toast_message
    updated type neuron toast before s run =
        let (r', changed, found') =
          change-found b.universe b.proposal_id_string (with_voted neuron) s.registrations run.entry
            run.found run.ours in
        let s₁ : Voting V T = record s { registrations = r' } in
        let newest = with_voted neuron run.entry in
        let message =
          vote_in_progress (setting.is_yes run.entry.vote) b.proposal_id_string type
            (registering (length newest.successfully_voted) (length run.entry.neuron_id_strings)) in
        (
          record { registrations = r'; toasts = toast_store.update toast message s.toasts },
          ground (arith, by_proposal-found s run.found, changed, by_proposal-found s₁ found'),
          record {
            entry = with_voted neuron run.entry;
            found = found';
            ours = run.ours;
            shows = Shows-update toast message before s.toasts run.shows;
          },
        )

    pub request-Running :
        (type : String) (toast : ℕ) (before : T) (neuron : String)
        (reply : Settled (VoteError E) (Unit {0})) (s : Voting V T)
        → Running toast before s
        → ((request setting b type toast neuron reply s).0 ≡ reply)
          × Running toast before (request setting b type toast neuron reply s).1
    unfolding request
    request-Running type toast before neuron (resolved u) s run =
        let (s', e, run') = updated type neuron toast before s run in rw e (refl, run')
    request-Running type toast before neuron (rejected x) s run = (refl, run)
    request-Running type toast before neuron pending s run = (refl, run)

    -- Each call has its own reply as its response, since what runs after it cannot fail.
    pub requests-Running :
        (type : String) (toast : ℕ) (before : T)
        (arrivals : List (String × Settled (VoteError E) (Unit {0}))) (s : Voting V T)
        → Running toast before s
        → ((requests setting b type toast arrivals s).0 ≡ arrivals)
          × Running toast before (requests setting b type toast arrivals s).1
    unfolding requests
    requests-Running type toast before [] s run = (refl, run)
    requests-Running type toast before ((neuron, reply) ∷ rest) s run =
        let (own, run₁) = request-Running type toast before neuron reply s run in
        let (others, run₂) =
          requests-Running type toast before rest (request setting b type toast neuron reply s).1
            run₁ in
        (ap₂ (λ r rs. (neuron, r) ∷ rs) own others, run₂)
