-- ===== src/SnsSwap/Participation/Flows.antt =====
-- frontend/src/lib/services/sns-sale.services.ts, `initiateSnsSaleParticipation` and
-- `restoreSnsSaleParticipation`: what they leave in the store of tickets.
use nns_dapp.Common.{
  ℕ, ◌+◌, ◌≡◌, ◌⊎◌, refl, true, false, ◌||◌, some, [], ◌∷◌, ◌++◌, String, string_has_eq, nat_has_eq,
  option_has_eq, ◌==◌, lookup, lookup-insert, returns, Outcome-cases, Option-cases, Bool-cases, inl,
  inr, arith, eqb_refl, eq_of_eqb, ap, sym, ◌∙◌, is_some, ltb,
}
use nns_dapp.SnsSwap.{set_no_ticket, ticket_null, ticket, ticket_undefined, valid_participation}
use nns_dapp.SnsSwap.Sale.{
  initialization, SnsSwapTicket, TicketAccount, NewTicketRequest, SaleAccount, SaleState,
  SaleReplies, Action, pure, ◌>>◌,
}
use nns_dapp.SnsSwap.Tickets.{load_open_ticket, load_new_sale_ticket}
use nns_dapp.SnsSwap.Participation.{
  participate_in_sns_sale, begin_participation, initiate_sns_sale_participation,
  restore_sns_sale_participation,
}
use nns_dapp.SnsSwap.Participation.Quiet.{load_new_sale_ticket-Quiet, load_open_ticket-Quiet}
use nns_dapp.SnsSwap.Participation.Payments.{
  is_returned, is_paid, finished, paid, participate_in_sns_sale-success,
  participate_in_sns_sale-tickets,
}

module _ (env : SaleReplies) (root : String) where
  -- without an account or with an account of another user nothing is paid
  not_owned :
      (swap_canister_id : String) (user_commitment : ℕ) (t : SnsSwapTicket) (s : SaleState)
      → ((account : TicketAccount) × (t.account ≡ some account)
          × (account.owner ≡ some env.principal))
        ⊎ (((participate_in_sns_sale env root swap_canister_id user_commitment t s).0 ≡ returns true
              → ⊥)
            × ((participate_in_sns_sale env root swap_canister_id user_commitment t s).1.tickets
                ≡ s.tickets))
  unfolding participate_in_sns_sale
  not_owned swap_canister_id user_commitment t s = elim (Option-cases t.account) [
    | inl e ↦ inr (λ h. ground (arith, h, e), ground (arith, e))
    | inr (account, e) ↦ elim (Option-cases account.owner) [
      | inl f ↦ inr (λ h. ground (arith, h, e, f), ground (arith, e, f))
      | inr (owner, f) ↦ elim (Bool-cases (env.principal == owner)) [
        | inl same ↦ inl (account, e, f ∙ ap some (sym (eq_of_eqb env.principal owner same)))
        | inr different ↦
            inr (λ h. ground (arith, h, e, f, different), ground (arith, e, f, different))
      ]
    ]
  ]

  -- a participation changes no other project's ticket, and removes that of the project if it
  -- succeeds
  participation-tickets :
      (swap_canister_id : String) (user_commitment : ℕ) (t : SnsSwapTicket) (s : SaleState)
      → let (result, s') = participate_in_sns_sale env root swap_canister_id user_commitment t s in
        (result ≡ returns true → lookup root s'.tickets ≡ some ticket_null)
        × ((r : String) → (root == r) ≡ false → lookup r s'.tickets ≡ lookup r s.tickets)
  participation-tickets swap_canister_id user_commitment t s =
      elim (not_owned swap_canister_id user_commitment t s) [
        | inr (fails, same) ↦ (λ h. absurd (fails h), λ r other_root. ap (lookup r) same)
        | inl (account, accounted, owned) ↦
            let success =
              participate_in_sns_sale-success env root user_commitment t swap_canister_id account s
                accounted owned in
            let tickets =
              participate_in_sns_sale-tickets env root user_commitment t swap_canister_id account s
                accounted owned in
            (
              λ h. ground (arith, tickets root, success.0 h, eqb_refl root),
              λ r other_root. ground (arith, tickets r, other_root),
            )
      ]

  -- Of a participation that is begun without the funds for amount and fee, or with an amount that
  -- is not valid for the project, nothing is asked of the canisters: it returns false, and the
  -- store has no ticket for the project.
  pub initiate_sns_sale_participation-refused :
      (amount : ℕ) (account : SaleAccount) (user_commitment : ℕ) (s : SaleState)
      → (ltb account.balance (amount + env.transaction_fee)
          || is_some (valid_participation (env.projects root) amount))
        ≡ true
      → let (result, s') =
          initiate_sns_sale_participation env amount root account user_commitment s in
        (result ≡ returns false)
        × (s'.polls ≡ s.polls)
        × (s'.requests ≡ s.requests)
        × (lookup root s'.tickets ≡ some ticket_null)
  unfolding initiate_sns_sale_participation begin_participation set_no_ticket
  initiate_sns_sale_participation-refused amount account user_commitment s h =
      elim (Option-cases (valid_participation (env.projects root) amount)) [
        | inl valid ↦ (
          ground (arith, valid, h),
          ground (arith, valid, h),
          ground (arith, valid, h),
          ground (arith, valid, h, lookup-insert root root ticket_null s.tickets, eqb_refl root),
        )
        | inr (label, invalid) ↦ (
          ground (arith, invalid),
          ground (arith, invalid),
          ground (arith, invalid),
          ground (arith, invalid, lookup-insert root root ticket_null s.tickets, eqb_refl root),
        )
      ]

  begin_participation-tickets :
      (amount : ℕ) (account : SaleAccount) (user_commitment : ℕ) (s : SaleState)
      → let (result, s') = begin_participation env amount root account user_commitment s in
        (result ≡ returns true → lookup root s'.tickets ≡ some ticket_null)
        × ((r : String) → (root == r) ≡ false → lookup r s'.tickets ≡ lookup r s.tickets)
  unfolding begin_participation
  begin_participation-tickets amount account user_commitment s =
      let begun : SaleState = record s { steps = s.steps ++ initialization ∷ [] } in
      let (loads, same) = load_new_sale_ticket-Quiet env root amount account.subaccount begun in
      let request : NewTicketRequest = record {
        root_canister_id = root;
        amount = amount;
        subaccount = account.subaccount;
      } in
      let loaded = (load_new_sale_ticket env request begun).1 in
      elim (Option-cases (env.projects root)) [
        | inl nothing ↦ (
          λ h. ground (arith, h, loads, nothing),
          λ r other_root. ground (arith, loads, same r other_root, nothing),
        )
        | inr (project, found) ↦ elim (Option-cases (lookup root loaded.tickets)) [
          | inl missing ↦ (
            λ h. ground (arith, h, loads, found, missing),
            λ r other_root. ground (arith, loads, same r other_root, found, missing),
          )
          | inr (ticket_undefined, e) ↦ (
            λ h. ground (arith, h, loads, found, e),
            λ r other_root. ground (arith, loads, same r other_root, found, e),
          )
          | inr (ticket_null, e) ↦ (
            λ h. ground (arith, h, loads, found, e),
            λ r other_root. ground (arith, loads, same r other_root, found, e),
          )
          | inr (ticket t, e) ↦
              let (removed, kept) =
                participation-tickets project.summary.swap_canister_id user_commitment t loaded in
              (
                λ h. ground (arith, h, loads, found, e, removed),
                λ r other_root.
                    ground (arith, loads, same r other_root, found, e, kept r other_root),
              )
        ]
      ]

  -- A participation that is begun always returns; if it returns true, the store has no ticket for
  -- the project any more; the tickets of other projects stay.
  pub initiate_sns_sale_participation-returns :
      (amount : ℕ) (account : SaleAccount) (user_commitment : ℕ) (s : SaleState)
      → let (result, s') =
          initiate_sns_sale_participation env amount root account user_commitment s in
        (is_returned result ≡ true)
        × (result ≡ returns true → lookup root s'.tickets ≡ some ticket_null)
        × ((r : String) → (root == r) ≡ false → lookup r s'.tickets ≡ lookup r s.tickets)
  unfolding initiate_sns_sale_participation set_no_ticket
  initiate_sns_sale_participation-returns amount account user_commitment s =
      let (removed, kept) = begin_participation-tickets amount account user_commitment s in
      elim (Outcome-cases (begin_participation env amount root account user_commitment s).0) [
        | inl (b, e) ↦ (
          ground (arith, e),
          λ h. ground (arith, e, h, removed),
          λ r other_root. ground (arith, e, kept r other_root),
        )
        | inr (err, e) ↦ (
          ground (arith, e),
          λ h. ground (arith, e, h),
          λ r other_root. ground (
            arith,
            e,
            kept r other_root,
            other_root,
            lookup-insert root r ticket_null
                (begin_participation env amount root account user_commitment s).1.tickets,
          ),
        )
      ]

  -- Where the payment of a ticket of the user in the store is made, but the notification is not
  -- accepted or the code that is to run at the end throws, the ticket stays in the store, and to
  -- resume the participation does nothing.
  pub restore_sns_sale_participation-waits :
      (swap_canister_id : String) (user_commitment : ℕ) (t : SnsSwapTicket)
      (account : TicketAccount) (s : SaleState)
      → t.account ≡ some account
      → account.owner ≡ some env.principal
      → lookup root s.tickets ≡ some (ticket t)
      → is_paid (paid env root user_commitment t swap_canister_id account s).0 ≡ true
      → finished env root user_commitment t
          (paid env root user_commitment t swap_canister_id account s).1
        ≡ false
      → (commitment : ℕ)
      → let s' = (participate_in_sns_sale env root swap_canister_id user_commitment t s).1 in
        (lookup root s'.tickets ≡ some (ticket t))
        × (restore_sns_sale_participation env root swap_canister_id commitment s'
            ≡ (returns tt, s'))
  unfolding restore_sns_sale_participation
  restore_sns_sale_participation-waits swap_canister_id user_commitment t account s accounted owned
        stored made refused commitment =
      let tickets =
        participate_in_sns_sale-tickets env root user_commitment t swap_canister_id account s
          accounted owned root in
      let stays : lookup root
            (participate_in_sns_sale env root swap_canister_id user_commitment t s).1.tickets
          ≡ some (ticket t) =
        ground (arith, tickets, made, refused, stored) in
      (stays, rw stays refl)

  abbrev resume : String → ℕ → Action (Unit {0})
  resume swap_canister_id user_commitment = load_open_ticket env root swap_canister_id true >> λ s'.
      elim (lookup root s'.tickets) [
        | some (ticket t) ↦
            (participate_in_sns_sale env root swap_canister_id user_commitment t >> pure tt) s'
        | _ ↦ pure tt s'
      ]

  resume-other :
      (swap_canister_id : String) (user_commitment : ℕ) (s : SaleState) (r : String)
      → (root == r) ≡ false
      → lookup r (resume swap_canister_id user_commitment s).1.tickets ≡ lookup r s.tickets
  resume-other swap_canister_id user_commitment s r other_root =
      let (loads, same) = load_open_ticket-Quiet env root swap_canister_id true s in
      let loaded = (load_open_ticket env root swap_canister_id true s).1 in
      elim (Option-cases (lookup root loaded.tickets)) [
        | inl absent ↦ ground (arith, loads, absent, same r other_root)
        | inr (ticket_undefined, present) ↦ ground (arith, loads, present, same r other_root)
        | inr (ticket_null, present) ↦ ground (arith, loads, present, same r other_root)
        | inr (ticket t, present) ↦
            let (removed, kept) = participation-tickets swap_canister_id user_commitment t loaded in
            ground (arith, loads, present, same r other_root, kept r other_root)
      ]

  -- to resume a participation changes no other project's ticket
  restore_sns_sale_participation-other :
      (swap_canister_id : String) (user_commitment : ℕ) (s : SaleState) (r : String)
      → (root == r) ≡ false
      → lookup r
          (restore_sns_sale_participation env root swap_canister_id user_commitment s).1.tickets
        ≡ lookup r s.tickets
  unfolding restore_sns_sale_participation
  restore_sns_sale_participation-other swap_canister_id user_commitment s r other_root =
      elim (Option-cases (lookup root s.tickets)) [
        | inr (ticket t, present) ↦ ground (arith, present)
        | inr (ticket_undefined, present) ↦
            ground (arith, resume-other swap_canister_id user_commitment s r other_root, present)
        | inr (ticket_null, present) ↦
            ground (arith, resume-other swap_canister_id user_commitment s r other_root, present)
        | inl absent ↦
            ground (arith, resume-other swap_canister_id user_commitment s r other_root, absent)
      ]
