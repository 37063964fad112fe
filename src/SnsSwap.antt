-- ===== src/SnsSwap.antt =====
-- The swap of an SNS project: frontend/src/lib/utils/projects.utils.ts, `getCommitmentE8s` and
-- `hasOpenTicketInProcess` of frontend/src/lib/utils/sns.utils.ts, and
-- frontend/src/lib/stores/sns-tickets.store.ts. Of a project only the fields that these read are
-- kept; a principal is its text.
pub mod Commitments
pub mod Sale
pub mod Tickets
pub mod Participation
mod Tests
use nns_dapp.Common.{
  ℕ, zero, suc, ◌+◌, ◌-◌, ◌*◌, ◌≡◌, Bool, true, false, not, ◌&&◌, ◌||◌, Option, none, some, List,
  [], ◌∷◌, String, string_has_eq, nat_has_eq, ◌==◌, length, filter, contains, lookup, insert, ltb,
  get_or_else, ℤ, pos, negsuc, difference, ltb_ℤ, if◌then◌else◌,
}

-- `SnsSwapLifecycle` of @dfinity/sns
pub data SnsSwapLifecycle : Type 0 where
  lifecycle_unspecified lifecycle_pending lifecycle_open lifecycle_committed : SnsSwapLifecycle
  lifecycle_aborted lifecycle_adopted : SnsSwapLifecycle

abbrev pub is_open_lifecycle : SnsSwapLifecycle → Bool
is_open_lifecycle lifecycle_open = true
is_open_lifecycle _ = false

abbrev is_active_lifecycle : SnsSwapLifecycle → Bool
is_active_lifecycle lifecycle_open = true
is_active_lifecycle lifecycle_committed = true
is_active_lifecycle lifecycle_adopted = true
is_active_lifecycle _ = false

pub record SnsSummary : Type 0 where
  pub lifecycle : SnsSwapLifecycle
  pub swap_canister_id : String
  pub min_participant_icp_e8s : ℕ
  pub max_participant_icp_e8s : ℕ
  pub max_icp_e8s : ℕ
  pub buyer_total_icp_e8s : ℕ
  pub denied_countries : List String
  pub confirmation_text : Option String

-- the amount of the user's commitment, where there is one
pub record SnsSwapCommitment : Type 0 where
  pub my_commitment : Option ℕ

pub record SnsFullProject : Type 0 where
  pub summary : SnsSummary
  pub swap_commitment : Option SnsSwapCommitment

unfoldable pub get_commitment_e8s : Option SnsSwapCommitment → Option ℕ
get_commitment_e8s none = none
get_commitment_e8s (some c) = some (get_or_else c.my_commitment 0)

abbrev pub is_project_open : SnsSummary → Bool
is_project_open summary = is_open_lifecycle summary.lifecycle

filter_active_projects : List SnsFullProject → List SnsFullProject
filter_active_projects projects = filter (λ p. is_active_lifecycle p.summary.lifecycle) projects

unfoldable pub project_remaining_amount : SnsSummary → ℤ
project_remaining_amount summary = difference summary.max_icp_e8s summary.buyer_total_icp_e8s

unfoldable pub current_user_max_commitment : SnsSummary → Option SnsSwapCommitment → ℤ
unfolding get_commitment_e8s project_remaining_amount
current_user_max_commitment summary commitment =
    let remaining_project = project_remaining_amount summary in
    let remaining_user =
      difference summary.max_participant_icp_e8s (get_or_else (get_commitment_e8s commitment) 0) in
    if ltb_ℤ remaining_project remaining_user then remaining_project else remaining_user

unfoldable pub commitment_too_small : SnsFullProject → ℕ → Bool
unfolding get_commitment_e8s
commitment_too_small project amount =
    ltb (amount + get_or_else (get_commitment_e8s project.swap_commitment) 0)
      project.summary.min_participant_icp_e8s

unfoldable pub commitment_too_large : SnsSummary → ℕ → Bool
commitment_too_large summary amount = ltb summary.max_participant_icp_e8s amount

unfoldable pub commitment_exceeds_amount_left : SnsSummary → ℕ → Bool
unfolding project_remaining_amount
commitment_exceeds_amount_left summary amount =
    ltb_ℤ (project_remaining_amount summary) (pos amount)

-- for a summary that is there
unfoldable pub can_user_participate_to_swap : SnsSummary → Option SnsSwapCommitment → Bool
unfolding get_commitment_e8s commitment_too_large
can_user_participate_to_swap summary commitment =
    let my_commitment = get_or_else (get_commitment_e8s commitment) 0 in
    is_project_open summary && not (commitment_too_large summary (my_commitment + 1))

unfoldable pub user_country_is_needed : SnsSummary → Option SnsSwapCommitment → Bool → Bool
unfolding can_user_participate_to_swap
user_country_is_needed summary commitment logged_in =
    can_user_participate_to_swap summary commitment
    && logged_in
    && ltb 0 (length summary.denied_countries)

has_user_participated_to_swap : Option SnsSwapCommitment → Bool
unfolding get_commitment_e8s
has_user_participated_to_swap commitment = ltb 0 (get_or_else (get_commitment_e8s commitment) 0)

-- the label of the message, `none` where the participation is valid
unfoldable pub valid_participation : Option SnsFullProject → ℕ → Option String
unfolding commitment_too_small get_commitment_e8s commitment_too_large
    commitment_exceeds_amount_left
valid_participation none amount = some "error__sns.project_not_found"
valid_participation (some project) amount =
    let total_commitment = get_or_else (get_commitment_e8s project.swap_commitment) 0 + amount in
    if not (is_project_open project.summary)
    then some "error__sns.project_not_open"
    else if commitment_too_small project amount
    then some "error__sns.not_enough_amount"
    else if commitment_too_large project.summary total_commitment
    then some "error__sns.commitment_too_large"
    else if commitment_exceeds_amount_left project.summary amount
    then some "error__sns.commitment_exceeds_current_allowed"
    else none

-- `ticket` of an entry: `undefined`, `null` or a ticket
pub data TicketValue (K : Type 0) : Type 0 where
  ticket_undefined : TicketValue K
  ticket_null : TicketValue K
  ticket : K → TicketValue K

-- `StoreData<Country>`, by the code of the country
pub data StoreData : Type 0 where
  not_loaded : StoreData
  loading_failed : StoreData
  country : String → StoreData

pub data ParticipationButtonStatus : Type 0 where
  disabled_max_participation disabled_not_eligible disabled_not_open : ParticipationButtonStatus
  enabled loading logged_out : ParticipationButtonStatus

abbrev pub country_status : SnsSummary → StoreData → ParticipationButtonStatus
country_status summary not_loaded = loading
country_status summary loading_failed = enabled
country_status summary (country code) =
    if contains summary.denied_countries code then disabled_not_eligible else enabled

module _ {K : Type 0} where
  abbrev pub is_null : TicketValue K → Bool
  is_null ticket_null = true
  is_null _ = false

  unfoldable pub participate_button_status :
      Option SnsSummary
      → Option SnsSwapCommitment
      → Bool
      → TicketValue K
      → StoreData
      → ParticipationButtonStatus
  unfolding get_commitment_e8s commitment_too_large
  participate_button_status none commitment logged_in t user_country =
      if logged_in then loading else logged_out
  participate_button_status (some summary) none logged_in t user_country =
      if logged_in then loading else logged_out
  participate_button_status (some summary) (some commitment) logged_in t user_country =
      let current_commitment = get_or_else commitment.my_commitment 0 in
      if not logged_in
      then logged_out
      else if not (is_project_open summary)
      then disabled_not_open
      else if not (is_null t)
      then loading
      else if commitment_too_large summary (current_commitment + 1)
      then disabled_max_participation
      else if ltb 0 (length summary.denied_countries)
      then country_status summary user_country
      else enabled

  -- the store of tickets, by the text of the root canister's id
  unfoldable pub set_ticket :
      String → TicketValue K → List (String × TicketValue K) → List (String × TicketValue K)
  set_ticket root t s = insert root t s

  unfoldable pub set_no_ticket :
      String → List (String × TicketValue K) → List (String × TicketValue K)
  set_no_ticket root s = insert root ticket_null s

  reset_tickets : List (String × TicketValue K) → List (String × TicketValue K)
  reset_tickets s = []

pub data TicketStatus : Type 0 where
  status_unknown status_open status_none status_loading : TicketStatus

has_open_ticket_in_process :
    {K : Type 0} → Option String → List (String × TicketValue K) → TicketStatus
has_open_ticket_in_process none s = status_unknown
has_open_ticket_in_process (some root) s = elim (lookup root s) [
  | none ↦ status_unknown
  | some t ↦ elim t [
    | ticket_undefined ↦ status_loading
    | ticket_null ↦ status_none
    | ticket k ↦ status_open
  ]
]
