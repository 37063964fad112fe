-- ===== src/SnsStores/Tests.antt =====
-- Runs on concrete projects, for frontend/src/lib/stores/sns-neurons.store.ts,
-- frontend/src/lib/stores/sns-proposals.store.ts and
-- frontend/src/lib/stores/checked-neurons.store.ts.
use nns_dapp.Common.{
  ℕ, true, false, some, List, [], ◌∷◌, String, nat_has_eq, option_has_eq, string_has_eq,
}
use nns_dapp.SnsStores.{ProjectProposalData, ProjectNeuronStore}

abbrev old : List (String × ProjectNeuronStore (String × ℕ))
old = ("root", record { neurons = ("a", 1) ∷ ("b", 2) ∷ []; certified = some true }) ∷ []

abbrev old_proposals : List (String × ProjectProposalData (ℕ × ℕ))
old_proposals =
    ("root", record { proposals = (1, 0) ∷ []; certified = some true; completed = false }) ∷ []
