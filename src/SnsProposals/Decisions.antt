-- ===== src/SnsProposals/Decisions.antt =====
-- frontend/src/lib/utils/sns-proposals.utils.ts, `isAccepted` and `snsRewardStatus`.
use native.Mathlib.Nat.{mul-le-mul_left, mul-le-mul_right, add-mul}
use nns_dapp.Common.{ℕ, ◌+◌, ◌*◌, ◌-◌, ◌≤◌, ◌<◌, ◌≡◌, ◌↔◌, refl, ap, ◌∙◌, true, some, arith}
use nns_dapp.SnsNeurons.{SnsProposalData, SnsTally}
use nns_dapp.SnsProposals.{
  minimum_yes_proportion_of_total, minimum_yes_proportion_of_exercised, majority_decision,
  is_accepted,
}

-- the two conditions for acceptance, on a tally
pub record Accepted (exercised of_total : ℕ) (tally : SnsTally) : Type 0 where
  pub majority : (tally.yes + tally.no) * exercised < tally.yes * 10_000
  pub quorum : tally.total * of_total ≤ tally.yes * 10_000

Accepted-iff :
    (proposal : SnsProposalData) {tally : SnsTally}
    → proposal.latest_tally ≡ some tally
    → (is_accepted proposal ≡ true)
      ↔ Accepted
          (minimum_yes_proportion_of_exercised proposal)
          (minimum_yes_proportion_of_total proposal)
          tally
unfolding is_accepted majority_decision
Accepted-iff proposal {tally} e = ground (arith, e)

more_yes-Accepted :
    (exercised of_total : ℕ) (t t' : SnsTally)
    → exercised ≤ 10_000
    → t.yes ≤ t'.yes
    → t'.no ≤ t.no
    → t'.total ≤ t.total
    → Accepted exercised of_total t
    → Accepted exercised of_total t'
more_yes-Accepted exercised of_total t t' in_range yes_more no_less total_less h =
    let more = t'.yes - t.yes in
    let split : t'.yes ≡ t.yes + more = omega arith in
    let added : more * exercised ≤ more * 10_000 = mul-le-mul_left more in_range in
    let yes_distributed : t'.yes * exercised ≡ t.yes * exercised + more * exercised =
      ap (λ y. y * exercised) split ∙ add-mul t.yes more exercised in
    let no_below : t'.no * exercised ≤ t.no * exercised = mul-le-mul_right exercised no_less in
    let total_below : t'.total * of_total ≤ t.total * of_total =
      mul-le-mul_right of_total total_less in
    record {
      majority = omega (
        arith,
        h.majority,
        add-mul t.yes t.no exercised,
        add-mul t'.yes t'.no exercised,
        yes_distributed,
        no_below,
        added,
        split,
      );
      quorum = omega (arith, h.quorum, total_below, yes_more);
    }

-- More votes for a proposal, fewer against it and no more in total never undo its acceptance. The
-- required part of the votes is at most all of them.
pub is_accepted-more_yes :
    (proposal : SnsProposalData) (t t' : SnsTally)
    → proposal.latest_tally ≡ some t
    → minimum_yes_proportion_of_exercised proposal ≤ 10_000
    → t.yes ≤ t'.yes
    → t'.no ≤ t.no
    → t'.total ≤ t.total
    → is_accepted proposal ≡ true
    → is_accepted (record proposal { latest_tally = some t' }) ≡ true
unfolding minimum_yes_proportion_of_exercised minimum_yes_proportion_of_total
is_accepted-more_yes proposal t t' e in_range yes_more no_less total_less h =
    (Accepted-iff (record proposal { latest_tally = some t' }) refl).1 (
      more_yes-Accepted (minimum_yes_proportion_of_exercised proposal)
        (minimum_yes_proportion_of_total proposal) t t' in_range yes_more no_less total_less
        ((Accepted-iff proposal e).0 h))
