-- ===== src/Proposals/Tests.antt =====
-- Merges of small pages, and the theorems at them. A proposal is its id with a version.
use nns_dapp.Common.{
  ℕ, nat_has_eq, option_has_eq, ◌≡◌, refl, false, Option, none, some, List, [], ◌∷◌, or_else,
  get_or_else, unique_from, state_after,
}
use mathlib.Core.Option
use nns_dapp.QueuedStore.{Store, init, get_single_mutation_store, add_mutation, settle, assign}
use nns_dapp.QueuedStore.Log.{new_entry}
use nns_dapp.Proposals.{
  exclude_proposals, concatenate_unique_proposals, replace_proposals,
  replace_and_concatenate_proposals,
}
use nns_dapp.Proposals.ById.{find_id, find_id-replace_proposals, find_id-replace_and_concatenate}
use nns_dapp.Proposals.Store.{ProposalsStore, init_proposals_store, push_proposals, pushed}
use nns_dapp.Proposals.Store.Unique.{Session, fresh, open_call, pushing, shown-UniqueIds, UniqueIds}

abbrev Versioned : Type 0
Versioned = Option ℕ × ℕ

abbrev id : Versioned → Option ℕ
id p = p.0

abbrev old_page : List Versioned
old_page = (some 7, 1) ∷ (none, 1) ∷ (some 5, 1) ∷ []

abbrev new_page : List Versioned
new_page = (some 5, 2) ∷ (some 4, 2) ∷ []

certified_page :
    replace_and_concatenate_proposals id old_page new_page
    ≡ (some 7, 1) ∷ (none, 1) ∷ (some 5, 2) ∷ (some 4, 2) ∷ []
unfolding replace_and_concatenate_proposals concatenate_unique_proposals exclude_proposals
    unique_from
certified_page = refl

query_page :
    concatenate_unique_proposals id old_page new_page
    ≡ (some 7, 1) ∷ (none, 1) ∷ (some 5, 1) ∷ (some 4, 2) ∷ []
unfolding concatenate_unique_proposals exclude_proposals unique_from
query_page = refl

find_id-replace_proposals_example :
    find_id id 5 (replace_proposals id old_page new_page)
    ≡ Option.map (get_or_else (find_id id 5 new_page)) (find_id id 5 old_page)
find_id-replace_proposals_example = find_id-replace_proposals id 5 old_page new_page

find_id-replace_and_concatenate_example :
    find_id id 5 (replace_and_concatenate_proposals id old_page new_page)
    ≡ or_else (find_id id 5 new_page) (find_id id 5 old_page)
find_id-replace_and_concatenate_example = find_id-replace_and_concatenate id 5 old_page new_page

-- one call is opened, and its query loads the new page
abbrev opened : Store (ProposalsStore Versioned)
opened = (get_single_mutation_store none init_proposals_store).1

abbrev loaded : Store (ProposalsStore Versioned)
loaded = state_after (push_proposals id 1 new_page false opened) opened

loaded-Session :
    Session id (assign 1 false (pushed id new_page false) (new_entry 1 none ∷ [])) loaded
unfolding init_proposals_store init get_single_mutation_store push_proposals add_mutation settle
loaded-Session =
    pushing 1 new_page false (open_call none fresh) (refl, (refl, tt)) (refl, (refl, tt)) refl

loaded_shows : loaded.exposed.proposals ≡ new_page
unfolding init_proposals_store init get_single_mutation_store push_proposals add_mutation settle
    concatenate_unique_proposals exclude_proposals unique_from
loaded_shows = refl

shown-UniqueIds_example : UniqueIds id loaded.exposed.proposals
shown-UniqueIds_example = shown-UniqueIds id loaded-Session
