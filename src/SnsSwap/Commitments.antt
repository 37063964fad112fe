-- ===== src/SnsSwap/Commitments.antt =====
-- frontend/src/lib/utils/projects.utils.ts: the amounts that are valid for a participation.
use nns_dapp.Common.{
  ℕ, ◌<◌, ◌+◌, ◌≤◌, ◌≡◌, ◌↔◌, ◌⊎◌, inl, inr, Bool-cases, refl, ap, ap₂, ◌∙◌, Option, Bool, true,
  false, none, some, String, string_has_eq, length, contains, ltb, get_or_else, pos, difference,
  ltb_ℤ, arith, if◌then◌else◌,
}
use nns_dapp.SnsSwap.{
  SnsSummary, SnsSwapCommitment, SnsFullProject, get_commitment_e8s, project_remaining_amount,
  current_user_max_commitment, commitment_too_small, commitment_too_large,
  commitment_exceeds_amount_left, valid_participation, SnsSwapLifecycle, lifecycle_unspecified,
  lifecycle_pending, lifecycle_open, lifecycle_committed, lifecycle_aborted, lifecycle_adopted,
  is_open_lifecycle, is_project_open, TicketValue, ticket_null, is_null, StoreData, ticket,
  ticket_undefined, country, loading_failed, not_loaded, enabled, participate_button_status,
  country_status,
}

-- the user's commitment so far
abbrev pub committed : SnsFullProject → ℕ
unfolding get_commitment_e8s
committed project = get_or_else (get_commitment_e8s project.swap_commitment) 0

difference-ltb : (a b c : ℕ) → ltb_ℤ (difference a b) (pos c) ≡ ltb a (b + c)
difference-ltb a b c = ground arith

-- A participation is valid if and only if the project is open, and with the amount the commitment
-- of the user is within the limits for a participant and that of all users within the maximum of
-- the project.
pub valid_participation_iff :
    (project : SnsFullProject) (amount : ℕ)
    → (valid_participation (some project) amount ≡ none) ↔ (
        (is_project_open project.summary ≡ true)
        × (project.summary.min_participant_icp_e8s ≤ committed project + amount)
        × (committed project + amount ≤ project.summary.max_participant_icp_e8s)
        × (project.summary.buyer_total_icp_e8s + amount ≤ project.summary.max_icp_e8s))
unfolding valid_participation commitment_too_small commitment_too_large
    commitment_exceeds_amount_left project_remaining_amount
valid_participation_iff project amount =
    let left =
      difference-ltb project.summary.max_icp_e8s project.summary.buyer_total_icp_e8s amount in
    (
      λ h. (ground (arith, h), ground (arith, h), ground (arith, h), ground (arith, h, left)),
      λ (a, b, c, d). ground (arith, left),
    )

-- A participation in a project is valid if and only if the project is open, the minimum for a
-- participant is reached and the amount is at most the user's maximal commitment.
pub valid_participation-within_max :
    (project : SnsFullProject) (amount : ℕ)
    → (valid_participation (some project) amount ≡ none) ↔ (
        (is_project_open project.summary ≡ true)
        × (commitment_too_small project amount ≡ false)
        × (ltb_ℤ (current_user_max_commitment project.summary project.swap_commitment) (pos amount)
            ≡ false))
unfolding valid_participation commitment_too_small commitment_too_large
    commitment_exceeds_amount_left project_remaining_amount current_user_max_commitment
valid_participation-within_max project amount =
    let left =
      difference-ltb project.summary.max_icp_e8s project.summary.buyer_total_icp_e8s amount in
    let own = difference-ltb project.summary.max_participant_icp_e8s (committed project) amount in
    (
      λ h. (ground (arith, h), ground (arith, h), ground (arith, h, left, own)),
      λ (a, b, c). ground (arith, left, own),
    )

-- what the countries allow
abbrev pub Allowed : SnsSummary → StoreData → Type 0
Allowed summary user_country =
    (length summary.denied_countries ≡ 0)
    ⊎ (user_country ≡ loading_failed)
    ⊎ ((code : String) × (user_country ≡ country code)
        × (contains summary.denied_countries code ≡ false))

country_status-enabled :
    (summary : SnsSummary) (user_country : StoreData)
    → ((if ltb 0 (length summary.denied_countries)
          then country_status summary user_country
          else enabled)
        ≡ enabled)
      ↔ Allowed summary user_country
country_status-enabled summary user_country =
    elim (Bool-cases (ltb 0 (length summary.denied_countries))) [
      | inr nobody ↦ (λ h. inl (ground (arith, nobody)), λ h. ground (arith, nobody))
      | inl somebody ↦
          elim user_country
            as (λ k.
              ((if ltb 0 (length summary.denied_countries)
                  then country_status summary k
                  else enabled)
                ≡ enabled)
              ↔ Allowed summary k) [
                | not_loaded ↦ (
                  λ h. ground (arith, h, somebody),
                  λ h. elim h [
                    | inl n ↦ ground (arith, n, somebody)
                    | inr (inl e) ↦ cc
                    | inr (inr (code, e, out)) ↦ cc
                  ],
                )
                | loading_failed ↦ (λ h. inr (inl refl), λ h. ground (arith, somebody))
                | country code ↦ (
                  λ h. inr (inr (code, refl, ground (arith, h, somebody))),
                  λ h. elim h [
                    | inl n ↦ ground (arith, n, somebody)
                    | inr (inl e) ↦ cc
                    | inr (inr (other, e, out)) ↦ ground (arith, e, out)
                  ],
                )
              ]
    ]

is_null-true : {K : Type 0} (t : TicketValue K) → is_null t ≡ true → t ≡ ticket_null
is_null-true ticket_undefined h = cc
is_null-true ticket_null h = refl
is_null-true (ticket k) h = cc

loaded_status-enabled :
    {K : Type 0} (summary : SnsSummary) (c : SnsSwapCommitment) (logged_in : Bool)
    (t : TicketValue K) (user_country : StoreData)
    → (participate_button_status (some summary) (some c) logged_in t user_country ≡ enabled) ↔ (
        (logged_in ≡ true)
        × (is_project_open summary ≡ true)
        × (get_or_else c.my_commitment 0 < summary.max_participant_icp_e8s)
        × (t ≡ ticket_null)
        × Allowed summary user_country)
unfolding participate_button_status commitment_too_large
loaded_status-enabled summary c logged_in t user_country = (
  λ h. (
    ground (arith, h),
    ground (arith, h),
    ground (arith, h),
    is_null-true t (ground (arith, h)),
    (country_status-enabled summary user_country).0 (ground (arith, h)),
  ),
  λ (a, b, c, d, e). ground (arith, (country_status-enabled summary user_country).1 e, d),
)

is_open-true : (l : SnsSwapLifecycle) → is_open_lifecycle l ≡ true → l ≡ lifecycle_open
is_open-true lifecycle_open h = refl
is_open-true lifecycle_unspecified h = cc
is_open-true lifecycle_pending h = cc
is_open-true lifecycle_committed h = cc
is_open-true lifecycle_aborted h = cc
is_open-true lifecycle_adopted h = cc

abbrev Ready :
    {K : Type 0}
    → Option SnsSummary
    → Option SnsSwapCommitment
    → Bool
    → TicketValue K
    → StoreData
    → Type 0
Ready summary commitment logged_in t user_country =
    (s : SnsSummary) × (c : SnsSwapCommitment) × (summary ≡ some s)
    × (commitment ≡ some c)
    × (logged_in ≡ true)
    × (s.lifecycle ≡ lifecycle_open)
    × (get_or_else c.my_commitment 0 < s.max_participant_icp_e8s)
    × (t ≡ ticket_null)
    × Allowed s user_country

loaded_if_enabled :
    {K : Type 0} (summary : Option SnsSummary) (commitment : Option SnsSwapCommitment)
    (logged_in : Bool) (t : TicketValue K) (user_country : StoreData)
    → participate_button_status summary commitment logged_in t user_country ≡ enabled
    → Ready summary commitment logged_in t user_country
unfolding participate_button_status
loaded_if_enabled none commitment logged_in t user_country h = absurd (ground (arith, h))
loaded_if_enabled (some summary) none logged_in t user_country h = absurd (ground (arith, h))
loaded_if_enabled (some summary) (some own) logged_in t user_country h =
    let (logged, is_open, below, no_ticket, allowed) =
      (loaded_status-enabled summary own logged_in t user_country).0 h in
    (
      summary,
      own,
      refl,
      refl,
      logged,
      is_open-true summary.lifecycle is_open,
      below,
      no_ticket,
      allowed,
    )

-- The button is enabled if and only if the summary and the commitment are loaded, the user is logged
-- in, the project is open, the user's commitment is below the maximum for a participant, there is
-- known to be no ticket, and the user's country is not denied: either no country is, or the user's
-- country could not be found out or is another one.
pub participate_button_status-enabled :
    {K : Type 0} (summary : Option SnsSummary) (commitment : Option SnsSwapCommitment)
    (logged_in : Bool) (t : TicketValue K) (user_country : StoreData)
    → (participate_button_status summary commitment logged_in t user_country ≡ enabled) ↔ (
        (s : SnsSummary) × (c : SnsSwapCommitment) × (summary ≡ some s)
        × (commitment ≡ some c)
        × (logged_in ≡ true)
        × (s.lifecycle ≡ lifecycle_open)
        × (get_or_else c.my_commitment 0 < s.max_participant_icp_e8s)
        × (t ≡ ticket_null)
        × Allowed s user_country)
participate_button_status-enabled {K} summary commitment logged_in t user_country = (
  loaded_if_enabled summary commitment logged_in t user_country,
  λ (s, c, loaded, own, logged, is_open, below, no_ticket, allowed).
      ap₂ (λ x y. participate_button_status x y logged_in t user_country) loaded own
      ∙ (loaded_status-enabled s c logged_in t user_country).1
          (logged, ap is_open_lifecycle is_open, below, no_ticket, allowed),
)
