-- ===== src/Actionable/Sns/Failures.antt =====
-- What a load of the actionable proposals of SNS projects leaves in the stores, by
-- frontend/src/lib/services/actionable-sns-proposals.services.ts.
use nns_dapp.Common.{
  ◌≡◌, refl, ap, ◌∙◌, Bool, true, false, Option, some, List, [], ◌∷◌, ◌++◌, String, string_has_eq,
  not, ◌==◌, ◌&&◌, ◌||◌, filter, contains, contains-append, contains-filter, contains-unique,
  lookup, lookup-insert, Outcome, returns, throws, ◌>>=◌, arith, eqb_refl, eq_of_eqb, sym,
  Bool-cases, Outcome-cases, inl, inr, Distinct, if◌then◌else◌,
}
use nns_dapp.SnsStores.{ProjectNeuronStore, neurons_of}
use nns_dapp.Actionable.Sns.{
  query_sns_proposals, set_actionable_sns, add_failed, remove_failed, SnsState, SnsReplies,
  ensure_sns_neurons, is_votable_sns, load_actionable_proposals_for_sns,
  load_actionable_sns_proposals,
}

contains-add_failed :
    (root r : String) (failed : List String)
    → contains (add_failed root failed) r ≡ contains failed r || root == r
unfolding add_failed
contains-add_failed root r failed =
    contains-unique (failed ++ root ∷ []) r ∙ contains-append failed (root ∷ []) r ∙ ground arith

contains-remove_failed :
    (root r : String) (failed : List String)
    → contains (remove_failed root failed) r ≡ not (r == root) && contains failed r
unfolding remove_failed
contains-remove_failed root r failed = contains-filter _ failed r

module _ {P N I E : Type 0} (env : SnsReplies P N I E) where
  -- the proposals that a load finds, or why it does not
  pub found : String → List (String × ProjectNeuronStore N) → Outcome E (List P)
  found root store = do
    identity ← env.identity
    proposals ← query_sns_proposals env.proposal_id (env.query_page root identity)
    neurons ← ensure_sns_neurons root (env.query_neurons root) store
    returns (filter (is_votable_sns env identity (neurons_of (lookup root neurons))) proposals)

  abbrev pub is_failure : Outcome E (List P) → Bool
  is_failure (returns ps) = false
  is_failure (throws e) = true

  -- the stores after a load of what was found
  shown_after : String → Outcome E (List P) → List (String × List P) → List (String × List P)
  unfolding set_actionable_sns
  shown_after root (returns ps) actionable = set_actionable_sns root ps actionable
  shown_after root (throws e) actionable = actionable

  actionable-load :
      (root : String) (s : SnsState P N)
      → (load_actionable_proposals_for_sns env root s).actionable
        ≡ shown_after root (found root s.neurons) s.actionable
  unfolding found load_actionable_proposals_for_sns shown_after
  actionable-load root s = ground arith

  failed-load :
      (root r : String) (s : SnsState P N)
      → contains (load_actionable_proposals_for_sns env root s).failed r
        ≡ (if root == r then is_failure (found root s.neurons) else contains s.failed r)
  unfolding found load_actionable_proposals_for_sns
  failed-load root r s = ground (
    arith,
    contains-add_failed root r s.failed,
    contains-add_failed root r (remove_failed root s.failed),
    contains-remove_failed root r s.failed,
    string_has_eq.eqb_iff root r,
    string_has_eq.eqb_iff r root,
  )

  neurons-load :
      (root r : String) (s : SnsState P N)
      → (root == r) ≡ false
      → lookup r (load_actionable_proposals_for_sns env root s).neurons ≡ lookup r s.neurons
  unfolding found load_actionable_proposals_for_sns ensure_sns_neurons
  neurons-load root r s other = elim (Outcome-cases (env.query_neurons root)) [
    | inl (ns, e) ↦
        ground
          (arith, lookup-insert root r (record { neurons = ns; certified = some false }) s.neurons)
    | inr (x, e) ↦ ground arith
  ]

  abbrev pub proposals_after : Outcome E (List P) → Option (List P) → Option (List P)
  proposals_after (returns ps) old = some ps
  proposals_after (throws e) old = old

  lookup-shown_after :
      (root r : String) (o : Outcome E (List P)) (actionable : List (String × List P))
      → lookup r (shown_after root o actionable)
        ≡ (if root == r then proposals_after o (lookup r actionable) else lookup r actionable)
  unfolding shown_after set_actionable_sns
  lookup-shown_after root r (returns ps) actionable =
      ground (arith, lookup-insert root r ps actionable)
  lookup-shown_after root r (throws e) actionable = ground arith

  lookup-load :
      (root r : String) (s : SnsState P N)
      → lookup r (load_actionable_proposals_for_sns env root s).actionable ≡ (
          if root == r
          then proposals_after (found root s.neurons) (lookup r s.actionable)
          else lookup r s.actionable)
  lookup-load root r s =
      ap (lookup r) (actionable-load root s)
      ∙ lookup-shown_after root r (found root s.neurons) s.actionable

  -- what a load finds for a project depends on the neurons of that project only
  found_congr :
      (root : String) (s t : List (String × ProjectNeuronStore N))
      → lookup root s ≡ lookup root t
      → found root s ≡ found root t
  unfolding found ensure_sns_neurons
  found_congr root s t same = elim (Outcome-cases (env.query_neurons root)) [
    | inl (ns, e) ↦
        let new : ProjectNeuronStore N = record { neurons = ns; certified = some false } in
        ground (arith, eqb_refl root, lookup-insert root root new s, lookup-insert root root new t)
    | inr (x, e) ↦ ground arith
  ]

  load_all-others :
      (roots : List String) (r : String) (s : SnsState P N)
      → contains roots r ≡ false
      → (contains (load_actionable_sns_proposals env roots s).failed r ≡ contains s.failed r)
        × (lookup r (load_actionable_sns_proposals env roots s).actionable ≡ lookup r s.actionable)
  unfolding load_actionable_sns_proposals
  load_all-others [] r s n = (refl, refl)
  load_all-others (root ∷ roots) r s n = ground (
    arith,
    load_all-others roots r (load_actionable_proposals_for_sns env root s) (ground arith),
    failed-load root r s,
    lookup-load root r s,
  )

  -- Each project ends in the list of failures if and only if its own load failed, whatever the
  -- others do, and its proposals are then left as they were; otherwise they are the ones found.
  pub load_actionable_sns_proposals-each :
      (roots : List String) (r : String) (s : SnsState P N)
      → Distinct roots
      → contains roots r ≡ true
      → (contains (load_actionable_sns_proposals env roots s).failed r
          ≡ is_failure (found r s.neurons))
        × (lookup r (load_actionable_sns_proposals env roots s).actionable
            ≡ proposals_after (found r s.neurons) (lookup r s.actionable))
  unfolding load_actionable_sns_proposals
  load_actionable_sns_proposals-each [] r s d h = cc
  load_actionable_sns_proposals-each (root ∷ roots) r s (n, d) h =
      let s' = load_actionable_proposals_for_sns env root s in
      elim (Bool-cases (root == r)) [
        | inl same ↦
            let e = eq_of_eqb root r same in
            let found_same = ap (λ i. found i s.neurons) e in
            ground (
              arith,
              load_all-others roots r s' (ap (contains roots) (sym e) ∙ n),
              failed-load root r s,
              lookup-load root r s,
              found_same,
            )
        | inr other ↦ ground (
          arith,
          load_actionable_sns_proposals-each roots r s' d (ground arith),
          failed-load root r s,
          lookup-load root r s,
          found_congr r s'.neurons s.neurons (neurons-load root r s other),
        )
      ]
