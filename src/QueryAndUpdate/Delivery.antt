-- ===== src/QueryAndUpdate/Delivery.antt =====
-- Which callbacks a call of `queryAndUpdate` makes, for every order of the replies.
use nns_dapp.Common.{
  ◌≡◌, refl, Bool, true, false, Option, none, some, List, [], ◌∷◌, ◌++◌, ◌||◌, arith, returns,
  throws, ◌⊎◌, inl, inr,
}
use nns_dapp.QueuedStore.{Strategy, query_and_update, query, update}
use nns_dapp.QueryAndUpdate.{
  current_strategy, only_query, Reply, response, failure, Notice, on_load, on_error, handle,
  deliver,
}

-- An anonymous identity only ever sends queries: any other strategy is refused.
pub current_strategy_anonymous :
    (strategy : Option Strategy)
    → (current_strategy true strategy ≡ returns query)
      ⊎ (((strategy ≡ some update) ⊎ (strategy ≡ some query_and_update))
          × (current_strategy true strategy ≡ throws only_query))
unfolding current_strategy
current_strategy_anonymous none = inl refl
current_strategy_anonymous (some query) = inl refl
current_strategy_anonymous (some update) = inr (inl refl, refl)
current_strategy_anonymous (some query_and_update) = inr (inr refl, refl)

module _ {R E : Type 0} (load_error : Bool → R → Option E) where
  -- Nothing that arrives after the certified reply is passed on.
  deliver-done : (replies : List (Bool × Reply R E)) → deliver load_error true replies ≡ (true, [])
  unfolding deliver
  deliver-done [] = refl
  deliver-done ((c, response r) ∷ replies) = rw (deliver-done replies)
  deliver-done ((c, failure e) ∷ replies) = rw (deliver-done replies)

  -- the replies up to the first certified one, and that one
  pub up_to_certified : List (Bool × Reply R E) → List (Bool × Reply R E)
  up_to_certified [] = []
  up_to_certified ((true, reply) ∷ replies) = (true, reply) ∷ []
  up_to_certified ((false, reply) ∷ replies) = (false, reply) ∷ up_to_certified replies

  -- One reply makes one callback, and an uncertified response that `onLoad` rejects a second one.
  abbrev rejected : R → Option E → List (Notice R E)
  rejected r none = on_load false r ∷ []
  rejected r (some error) = on_load false r ∷ on_error false error ∷ []

  abbrev notices_of : Bool × Reply R E → List (Notice R E)
  notices_of (c, failure error) = on_error c error ∷ []
  notices_of (true, response r) = on_load true r ∷ []
  notices_of (false, response r) = rejected r (load_error false r)

  pub all_notices : List (Bool × Reply R E) → List (Notice R E)
  all_notices [] = []
  all_notices (reply ∷ replies) = notices_of reply ++ all_notices replies

  abbrev pub any_certified : List (Bool × Reply R E) → Bool
  any_certified [] = false
  any_certified ((c, reply) ∷ replies) = c || any_certified replies

  handle-certified :
      (reply : Reply R E) → handle load_error false true reply ≡ (true, notices_of (true, reply))
  unfolding handle
  handle-certified (failure error) = refl
  handle-certified (response r) = ground arith

  handle-uncertified :
      (reply : Reply R E) → handle load_error false false reply ≡ (false, notices_of (false, reply))
  unfolding handle
  handle-uncertified (failure error) = refl
  handle-uncertified (response r) = ground arith

  -- In whatever order replies arrive, the callbacks are those of the replies up to the first
  -- certified one, that one included, and none of any later reply.
  pub deliver-eq-all_notices :
      (replies : List (Bool × Reply R E))
      → deliver load_error false replies
        ≡ (any_certified replies, all_notices (up_to_certified replies))
  unfolding deliver all_notices up_to_certified
  deliver-eq-all_notices [] = refl
  deliver-eq-all_notices ((true, reply) ∷ replies) =
      rw (handle-certified reply, deliver-done replies)
  deliver-eq-all_notices ((false, reply) ∷ replies) =
      rw (handle-uncertified reply, deliver-eq-all_notices replies)
