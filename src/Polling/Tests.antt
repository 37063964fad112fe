-- ===== src/Polling/Tests.antt =====
-- A run of `poll` of frontend/src/lib/utils/utils.ts that succeeds at its third attempt.
use nns_dapp.Common.{
  ℕ, zero, suc, ◌+◌, ◌<◌, ◌≡◌, refl, true, false, none, some, [], ◌∷◌, Outcome, returns, throws,
  arith,
}
use nns_dapp.Polling.{
  PollError, polling_limit_exceeded, other, polling_cancelled?, Params, Environment, World, poll,
  wait_result, call_result,
}
use nns_dapp.Polling.Attempts.{Retries}
use nns_dapp.Polling.Cleanup.{poll_restores, poll_returns_first_success}

abbrev params : Params ℕ ℕ
params = record {
  should_exit = λ e. false;
  max_attempts = 5;
  milliseconds_to_wait = 500;
  use_exponential_backoff = true;
  failures_before_high_load_message = some 1;
  poll_id = some 7;
}

abbrev answers : ℕ → Outcome (PollError ℕ) ℕ
answers zero = throws (other 1)
answers (suc zero) = throws polling_limit_exceeded
answers (suc (suc k)) = returns 42

abbrev env : Environment ℕ ℕ
env = record {
  answer = answers;
  cancelled_while_waiting = λ k. false;
  cancelled_while_calling = λ k. false;
}

abbrev world : World
world = record {
  current_polls = 3 ∷ [];
  toasts = 0 ∷ [];
  next_toast = 1;
  high_load_toast = none;
  calls = 0;
  waited = 0;
}

retries : (j : ℕ) → j < 2 → Retries params env j
unfolding wait_result call_result polling_cancelled?
retries zero h = record { error = other 1; waited = refl; failed = refl; goes_on = refl }
retries (suc zero) h = record {
  error = polling_limit_exceeded;
  waited = refl;
  failed = refl;
  goes_on = refl;
}
retries (suc (suc j)) h = let never : ⊥ = omega arith in elim never [ ]

third_waits : wait_result params env 2 ≡ returns tt
unfolding wait_result
third_waits = refl

third_returns : call_result params env 2 ≡ returns 42
unfolding call_result
third_returns = refl

poll_restores_example :
    ((poll params env world).1.current_polls ≡ 3 ∷ []) × ((poll params env world).1.toasts ≡ 0 ∷ [])
poll_restores_example = poll_restores params env world refl

poll_returns_first_success_example :
    ((poll params env world).0 ≡ returns 42) × ((poll params env world).1.calls ≡ 2 + 1)
poll_returns_first_success_example =
    poll_returns_first_success params env world refl 2 42 (omega arith) retries third_waits
      third_returns

-- a wait of 500 and one of 1000
waited-example : (poll params env world).1.waited ≡ 1500
unfolding poll
waited-example = refl
