-- ===== src/QueryAndUpdate/Tests.antt =====
-- The two orders of the replies to "query_and_update".
use nns_dapp.Common.{ℕ, ◌≡◌, refl, Bool, true, false, Option, none, some, [], ◌∷◌, ◌⊎◌, List}
use nns_dapp.QueryAndUpdate.{
  Reply, response, failure, on_load, on_error, current_strategy, deliver, only_query,
}
use nns_dapp.QueuedStore.{query, update, query_and_update}
use nns_dapp.Common.{returns, throws}
use nns_dapp.QueryAndUpdate.Delivery.{
  current_strategy_anonymous, deliver-eq-all_notices, any_certified, all_notices, up_to_certified,
}

abbrev accepts : Bool → ℕ → Option ℕ
accepts certified r = none

query_first :
    deliver accepts false ((false, response 1) ∷ (true, failure 7) ∷ [])
    ≡ (true, on_load false 1 ∷ on_error true 7 ∷ [])
unfolding deliver
query_first = refl

update_first :
    deliver accepts false ((true, response 2) ∷ (false, response 1) ∷ [])
    ≡ (true, on_load true 2 ∷ [])
unfolding deliver
update_first = refl

abbrev late : List (Bool × Reply ℕ ℕ)
late = (true, response 2) ∷ (false, response 1) ∷ []

deliver-eq-all_notices_example :
    deliver accepts false late
    ≡ (any_certified accepts late, all_notices accepts (up_to_certified accepts late))
deliver-eq-all_notices_example = deliver-eq-all_notices accepts late

current_strategy_anonymous_example :
    (current_strategy true (some update) ≡ returns query)
    ⊎ (((some update ≡ some update) ⊎ (some update ≡ some query_and_update))
        × (current_strategy true (some update) ≡ throws only_query))
current_strategy_anonymous_example = current_strategy_anonymous (some update)
