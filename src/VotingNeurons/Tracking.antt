-- ===== src/VotingNeurons/Tracking.antt =====
-- frontend/src/lib/stores/vote-registration.store.ts, `initNeuronSelectStore`: the history of one
-- neuron decides whether it is selected.
use nns_dapp.Common.{
  ◌≡◌, refl, ◌∙◌, Bool, false, List, [], ◌∷◌, String, string_has_eq, not, ◌==◌, ◌&&◌, ◌||◌,
  contains, if◌then◌else◌, arith,
}
use nns_dapp.VotingNeurons.{
  VotingNeuron, NeuronSelection, init, set, reset, update_neurons, toggle_selection,
}
use nns_dapp.VotingNeurons.Selection.{listed, contains-toggle_selection, contains-update_neurons}

-- the calls of the store
pub data StoreCall : Type 0 where
  load_call : List VotingNeuron → StoreCall
  change_call : List VotingNeuron → StoreCall
  click_call : String → StoreCall
  clear_call : StoreCall

unfoldable pub perform : StoreCall → NeuronSelection → NeuronSelection
unfolding set reset update_neurons toggle_selection
perform (load_call ns) s = set ns s
perform (change_call ns) s = update_neurons ns s
perform (click_call n) s = toggle_selection n s
perform clear_call s = reset s

unfoldable pub run : List StoreCall → NeuronSelection → NeuronSelection
unfolding perform
run [] s = s
run (o ∷ os) s = run os (perform o s)

-- what there is to know of one neuron: whether it is listed, and whether it is selected
pub record Standing : Type 0 where
  pub known : Bool
  pub chosen : Bool

abbrev pub unseen : Standing
unseen = record { known = false; chosen = false }

-- A load selects what it lists. A change keeps the choice of what was listed and selects what is
-- new. A click turns the choice round.
abbrev pub follow : String → StoreCall → Standing → Standing
follow i (load_call ns) p = record { known = listed ns i; chosen = listed ns i }
follow i (change_call ns) p = record {
  known = listed ns i;
  chosen = listed ns i && (p.chosen || not p.known);
}
follow i (click_call n) p = record p { chosen = if n == i then not p.chosen else p.chosen }
follow i clear_call p = unseen

unfoldable pub followed : String → List StoreCall → Standing → Standing
followed i [] p = p
followed i (o ∷ os) p = followed i os (follow i o p)

-- a selection and what is known of a neuron agree
abbrev Agrees : String → NeuronSelection → Standing → Type 0
Agrees i s p = (contains s.selected_ids i ≡ p.chosen) × (listed s.neurons i ≡ p.known)

perform-Agrees :
    (i : String) (o : StoreCall) (s : NeuronSelection) (p : Standing)
    → Agrees i s p
    → Agrees i (perform o s) (follow i o p)
unfolding perform set reset
perform-Agrees i (load_call ns) s p (chosen, known) = (refl, refl)
perform-Agrees i (change_call ns) s p (chosen, known) =
    (contains-update_neurons ns s i ∙ ground (arith, chosen, known), refl)
perform-Agrees i (click_call n) s p (chosen, known) =
    (contains-toggle_selection n i s ∙ ground (arith, chosen), known)
perform-Agrees i clear_call s p (chosen, known) = (refl, refl)

run-Agrees :
    (i : String) (os : List StoreCall) (s : NeuronSelection) (p : Standing)
    → Agrees i s p
    → Agrees i (run os s) (followed i os p)
unfolding run followed
run-Agrees i [] s p agree = agree
run-Agrees i (o ∷ os) s p agree =
    run-Agrees i os (perform o s) (follow i o p) (perform-Agrees i o s p agree)

-- After any loads, updates, clicks and resets a neuron is selected if and only if its own history
-- says so: a load selects what it lists, an update keeps the choice of what was listed, selects
-- what is new and deselects what is gone, a click turns the choice round, and a reset forgets all.
-- It is listed if and only if the last load or update lists it and no reset is behind that.
pub contains-run :
    (i : String) (os : List StoreCall)
    → (contains (run os init).selected_ids i ≡ (followed i os unseen).chosen)
      × (listed (run os init).neurons i ≡ (followed i os unseen).known)
unfolding init
contains-run i os = run-Agrees i os init unseen (refl, refl)
