-- ===== src/VoteRegistration/Nns.antt =====
-- frontend/src/lib/services/nns-vote-registration.services.ts: votes of neurons of the NNS. The
-- calls run at once: `arrivals` lists the neurons in the order in which their calls settle, each
-- with what its call gives. The type that the store of proposals gives for the proposal, and what
-- the reloads after the vote give, are arguments; what those write is not modelled, nor is what
-- follows them: the reloaded proposal is put into its store and given to the caller's callback,
-- which is taken not to throw, and the load of actionable proposals is begun and not waited for.
pub mod Requests
pub mod Registered
pub mod Outcomes
mod Tests
use nns_dapp.Common.{
  ℕ, Bool, true, false, Option, none, some, List, [], ◌∷◌, String, string_has_eq, lookup,
  get_or_else, map, ◌||◌, if◌then◌else◌,
}
use nns_dapp.VoteRegistration.{add_successfully_voted_neuron_id}
use nns_dapp.VoteRegistration.Managing.{
  VoteError, Settled, resolved, rejected, pending, Voting, Action, pure, ◌>>=◌, ◌>>◌, on_store,
  vote_registration_by_proposal, Setting, Ballots, update_vote_registration_toast_message,
  manage_votes_registration, process_register_vote_errors, caught,
}

-- what the calls of the canisters give
pub record Replies (E : Type 0) : Type 0 where
  pub identity : Settled (VoteError E) (Unit {0})
  pub arrivals : List (String × Settled (VoteError E) (Unit {0}))
  pub stored_type : String
  pub list_neurons : Settled (VoteError E) (Unit {0})
  -- whether `setProposal` is called with the reloaded proposal
  pub reloaded : Bool

module _ {V T E : Type 0} (setting : Setting V T E) (b : Ballots V) where
  pub update_toast_after_neuron_registration : String → String → ℕ → Action V T E (Unit {0})
  unfolding add_successfully_voted_neuron_id vote_registration_by_proposal
      update_vote_registration_toast_message
  update_toast_after_neuron_registration type neuron toast = do
    entry ← vote_registration_by_proposal b.universe b.proposal_id_string
    on_store (add_successfully_voted_neuron_id b.universe b.proposal_id_string neuron)
    newest ← vote_registration_by_proposal b.universe b.proposal_id_string
    update_vote_registration_toast_message setting toast b.proposal_id_string type
        entry.neuron_id_strings newest.successfully_voted false entry.vote

  -- one call: the code of `then` runs if it resolves
  pub request : String → ℕ → String → Settled (VoteError E) (Unit {0}) → Action V T E (Unit {0})
  unfolding update_toast_after_neuron_registration
  request type toast neuron (resolved u) s =
      update_toast_after_neuron_registration type neuron toast s
  request type toast neuron (rejected e) s = (rejected e, s)
  request type toast neuron pending s = (pending, s)

  -- the calls as they arrive, with the response of each
  pub requests :
      String
      → ℕ
      → List (String × Settled (VoteError E) (Unit {0}))
      → Voting V T
      → List (String × Settled (VoteError E) (Unit {0})) × Voting V T
  unfolding request
  requests type toast [] s = ([], s)
  requests type toast ((neuron, reply) ∷ rest) s =
      let (response, s') = request type toast neuron reply s in
      let (responses, s'') = requests type toast rest s' in ((neuron, response) ∷ responses, s'')

  abbrev pub is_pending : Settled (VoteError E) (Unit {0}) → Bool
  is_pending pending = true
  is_pending _ = false

  abbrev pub some_pending : List (Settled (VoteError E) (Unit {0})) → Bool
  some_pending [] = false
  some_pending (r ∷ rs) = is_pending r || some_pending rs

  -- `Promise.allSettled`: the responses in the order of the neurons
  pub all_settled :
      List String
      → List (String × Settled (VoteError E) (Unit {0}))
      → List (Settled (VoteError E) (Unit {0}))
  all_settled neurons responses = map (λ n. get_or_else (lookup n responses) pending) neurons

  pub register_nns_neurons_vote : Replies E → ℕ → Action V T E (Unit {0})
  unfolding requests all_settled process_register_vote_errors caught
  register_nns_neurons_vote replies toast s = elim replies.identity [
    | rejected e ↦ (rejected e, s)
    | pending ↦ (pending, s)
    | resolved u ↦
        let (responses, s') = requests replies.stored_type toast replies.arrivals s in
        let settled = all_settled b.neuron_id_strings responses in
        if some_pending settled
        then (pending, s')
        else caught setting (
            process_register_vote_errors setting settled b.neuron_id_strings b.proposal_id_string
              b.proposal_type s')
  ]

  -- `Promise.all` of the two reloads: a rejection ends it, a missing reply keeps it waiting
  pub update_after_nns_vote_registration : Replies E → Action V T E (Unit {0})
  update_after_nns_vote_registration replies s = elim replies.list_neurons [
    | rejected e ↦ (rejected e, s)
    | pending ↦ (pending, s)
    | resolved u ↦ if replies.reloaded then (resolved tt, s) else (pending, s)
  ]

  pub register_nns_votes : Replies E → Action V T E (Unit {0})
  unfolding manage_votes_registration register_nns_neurons_vote update_after_nns_vote_registration
  register_nns_votes replies =
      manage_votes_registration setting b (register_nns_neurons_vote replies)
        (update_after_nns_vote_registration replies)
