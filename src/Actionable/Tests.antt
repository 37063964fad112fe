-- ===== src/Actionable/Tests.antt =====
-- Tests of the loading of actionable proposals, and the theorems at concrete inputs.
use nns_dapp.Common.{
  ℕ, zero, suc, ◌≤◌, ◌<◌, ◌≡◌, refl, false, Option, none, some, List, [], ◌∷◌, ◌++◌, String, filter,
  take, All, ◌==◌, nat_has_eq, string_has_eq, contains, lookup, Perm, Outcome, returns, throws,
  arith, if◌then◌else◌,
}
use nns_dapp.Sorting.{nat_comparable, create_descending_comparator, sort}
use nns_dapp.Sorting.Sorted.{IsSorted}
use nns_dapp.Neurons.{NeuronsStore}
use nns_dapp.NnsNeurons.{NeuronInfo, locked}
use nns_dapp.NnsNeurons.Amounts.{defined_neurons}
use nns_dapp.Navigation.{sort_proposals_by_id_descending_order}
use nns_dapp.Navigation.Steps.{id_or_zero}
use nns_dapp.Actionable.{ensure_neurons, query_proposals, is_votable, load_actionable_proposals}
use nns_dapp.Actionable.Pages.{Descending, below}
use nns_dapp.Actionable.Complete.{most, query_proposals-eq-take, load_actionable_proposals_complete}
use nns_dapp.Actionable.Sns.{SnsState, SnsReplies, load_actionable_sns_proposals}
use nns_dapp.Actionable.Sns.Failures.{
  found, is_failure, proposals_after, load_actionable_sns_proposals-each,
}

-- proposals are their ids
abbrev countdown : ℕ → List ℕ
countdown zero = []
countdown (suc n) = suc n ∷ countdown n

All-countdown : (n m : ℕ) → n ≤ m → All (λ k. k < suc m) (countdown n)
All-countdown zero m h = tt
All-countdown (suc n) m h = (omega arith, All-countdown n m (omega arith))

countdown-Descending : (n : ℕ) → Descending (λ (p : ℕ). p) (countdown n)
countdown-Descending zero = tt
countdown-Descending (suc n) = (All-countdown n n (omega arith), countdown-Descending n)

abbrev itself : ℕ → ℕ
itself p = p

abbrev canister : ℕ → List ℕ → ℕ → Option ℕ → Outcome String (List ℕ)
canister size all k before = returns (take size (below itself before all))

query_proposals-eq-take_example :
    query_proposals some (canister 100 (countdown 250)) ≡ returns (take most (countdown 250))
query_proposals-eq-take_example =
    query_proposals-eq-take some itself (λ p. refl) (canister 100 (countdown 250)) (countdown 250)
      (countdown-Descending 250) (λ k before. refl)

abbrev rich : NeuronInfo
rich = record {
  neuron_id = 1;
  neuron_type = none;
  state = locked;
  dissolve_delay_seconds = 100;
  created_timestamp_seconds = 1;
  joined_community_fund_timestamp_seconds = none;
  full_neuron = some record {
    controller = some "aaaaa-aa";
    hot_keys = [];
    cached_neuron_stake = 20_000;
    neuron_fees = 0;
    maturity_e8s_equivalent = 0;
    staked_maturity_e8s_equivalent = none;
    followees = [];
    voting_power_refreshed_timestamp_seconds = none;
  };
}

abbrev loaded_neurons : NeuronsStore NeuronInfo
loaded_neurons = record { neurons = some (rich ∷ []); certified = some false }

-- the neurons can vote on what is not proposal 4
abbrev votable : List NeuronInfo → ℕ → List NeuronInfo
votable neurons p = if p == 4 then [] else neurons

abbrev management : List ℕ
management = 8 ∷ 4 ∷ []

abbrev loaded_proposals : Outcome String (Option (List ℕ))
loaded_proposals =
    load_actionable_proposals some votable loaded_neurons (throws "not needed")
      (canister 100 (countdown 3)) (canister 100 management) none

loaded-example : loaded_proposals ≡ returns (some (8 ∷ 3 ∷ 2 ∷ 1 ∷ []))
unfolding load_actionable_proposals sort_proposals_by_id_descending_order sort
loaded-example = refl

load_actionable_proposals_complete_example :
    (ps : List ℕ) × (loaded_proposals ≡ returns (some ps))
    × IsSorted (create_descending_comparator (id_or_zero some)) ps
    × Perm ps (
        filter
          (is_votable some votable (defined_neurons (some (rich ∷ []))))
          (countdown 3 ++ management))
unfolding defined_neurons ensure_neurons
load_actionable_proposals_complete_example =
    load_actionable_proposals_complete some itself (λ p. refl) votable (canister 100 (countdown 3))
      (canister 100 management) (countdown 3) management (omega arith) (omega arith)
      (countdown-Descending 3) ((omega arith, tt), (tt, tt)) (λ k before. refl) (λ k before. refl)
      loaded_neurons loaded_neurons (throws "not needed") none refl refl

-- the second project's canister does not answer; neurons can vote on all proposals
abbrev projects : SnsReplies ℕ ℕ String String
projects = record {
  proposal_id = some;
  identity = returns "user";
  query_page = λ root i k before.
      if root == "b" then throws "no answer" else canister 20 (countdown 2) k before;
  query_neurons = λ root. returns (1 ∷ []);
  votable_neurons = λ i neurons p. neurons;
}

abbrev no_data : SnsState ℕ ℕ
no_data = record { neurons = []; actionable = ("b", 5 ∷ []) ∷ []; failed = "a" ∷ [] }

load_actionable_sns_proposals-each_example :
    (contains (load_actionable_sns_proposals projects ("a" ∷ "b" ∷ []) no_data).failed "b"
      ≡ is_failure projects (found projects "b" []))
    × (lookup "b" (load_actionable_sns_proposals projects ("a" ∷ "b" ∷ []) no_data).actionable
        ≡ proposals_after projects (found projects "b" []) (some (5 ∷ [])))
load_actionable_sns_proposals-each_example =
    load_actionable_sns_proposals-each projects ("a" ∷ "b" ∷ []) "b" no_data (refl, (refl, tt)) refl
