-- ===== src/QueryAndUpdate.antt =====
-- frontend/src/lib/services/utils.services.ts: one call of `queryAndUpdate`, from the choice of
-- its requests to the callbacks made for each reply. A reply is an event; the promises, the
-- identity services and the logging are not modelled. `onLoad` belongs to the caller, and may
-- throw: `load_error` says when it does.
pub mod Delivery
mod Tests
use nns_dapp.Common.{
  Bool, true, false, Option, none, some, List, [], ◌∷◌, ◌++◌, ◌||◌, ◌&&◌, not, Outcome, returns,
  throws, if◌then◌else◌, is_some, get_or_else,
}
use nns_dapp.QueuedStore.{Strategy, query_and_update, query, update}

-- thrown for an anonymous identity
pub data StrategyError : Type 0 where
  only_query : StrategyError

abbrev is_query : Strategy → Bool
is_query query = true
is_query _ = false

-- `strategy !== undefined && strategy !== "query"`
abbrev asks_update : Option Strategy → Bool
asks_update none = false
asks_update (some s) = not (is_query s)

pub current_strategy : Bool → Option Strategy → Outcome StrategyError Strategy
current_strategy anonymous strategy =
    if anonymous && asks_update strategy
    then throws only_query
    else returns (if anonymous then query else get_or_else strategy query_and_update)

-- the requests that are sent, by their `certified` flag
requests : Strategy → List Bool
requests query = false ∷ []
requests update = true ∷ []
requests query_and_update = false ∷ true ∷ []

pub data Reply (R E : Type 0) : Type 0 where
  response : R → Reply R E
  failure : E → Reply R E

-- a callback, with its `certified` flag
pub data Notice (R E : Type 0) : Type 0 where
  on_load : Bool → R → Notice R E
  on_error : Bool → E → Notice R E

module _ {R E : Type 0} where
  -- The `then` and `catch` handlers of one request, on `certifiedDone`. An error that `onLoad`
  -- throws reaches the `catch` handler.
  module _ (load_error : Bool → R → Option E) where
    abbrev handle_failure : Bool → Bool → E → Bool × List (Notice R E)
    handle_failure done certified error =
        if done then (done, []) else (done || certified, on_error certified error ∷ [])

    abbrev after_load : Bool → Bool → R → Option E → Bool × List (Notice R E)
    after_load done certified r none = (done, on_load certified r ∷ [])
    after_load done certified r (some error) =
        let (done', notices) = handle_failure done certified error in
        (done', on_load certified r ∷ notices)

    pub handle : Bool → Bool → Reply R E → Bool × List (Notice R E)
    handle done certified (failure error) = handle_failure done certified error
    handle done certified (response r) =
        if done
        then (done, [])
        else after_load (done || certified) certified r (load_error certified r)

    -- the replies in the order in which they arrive
    pub deliver : Bool → List (Bool × Reply R E) → Bool × List (Notice R E)
    unfolding handle
    deliver done [] = (done, [])
    deliver done ((certified, reply) ∷ replies) =
        let (done', first) = handle done certified reply in
        let (done'', later) = deliver done' replies in (done'', first ++ later)
