-- ===== src/Polling.antt =====
-- frontend/src/lib/utils/utils.ts, `poll` and `cancelPoll`. The polled function and the moments of
-- cancellation are the environment: what the call of each attempt gives, and whether
-- `cancelPoll` is called during the wait before it or during the call. An id stands for a symbol.
pub mod Attempts
pub mod Toasts
pub mod Cleanup
mod Tests
use nns_dapp.Common.{
  ℕ, zero, suc, ◌+◌, ◌*◌, nat_has_eq, Bool, true, false, Option, none, some, List, [], ◌∷◌, ◌++◌,
  not, ◌==◌, ◌&&◌, ◌||◌, filter, contains, is_some, ltb, nat_beq, if◌then◌else◌, Outcome, returns,
  throws,
}

module _ (E : Type 0) where
  pub data PollError : Type 0 where
    polling_limit_exceeded : PollError
    polling_cancelled : ℕ → PollError
    other : E → PollError

module _ {E : Type 0} where
  unfoldable pub polling_cancelled? : PollError E → Bool
  polling_cancelled? (polling_cancelled id) = true
  polling_cancelled? polling_limit_exceeded = false
  polling_cancelled? (other e) = false

  -- `pollingLimit`
  polling_limit? : PollError E → Bool
  polling_limit? polling_limit_exceeded = true
  polling_limit? (polling_cancelled id) = false
  polling_limit? (other e) = false

module _ (E T : Type 0) where
  pub record Params : Type 0 where
    pub should_exit : PollError E → Bool
    pub max_attempts : ℕ
    pub milliseconds_to_wait : ℕ
    pub use_exponential_backoff : Bool
    pub failures_before_high_load_message : Option ℕ
    pub poll_id : Option ℕ

  -- what happens at each attempt
  pub record Environment : Type 0 where
    pub answer : ℕ → Outcome (PollError E) T
    pub cancelled_while_waiting : ℕ → Bool
    pub cancelled_while_calling : ℕ → Bool

-- `currentPolls`, the visible toasts, and a record of a poll's calls and of the
-- time of the waits that it began
pub record World : Type 0 where
  pub current_polls : List ℕ
  pub toasts : List ℕ
  pub next_toast : ℕ
  pub high_load_toast : Option ℕ
  pub calls : ℕ
  pub waited : ℕ

-- `toastsError`, which returns the symbol of a new toast
show_high_load : World → World
show_high_load w = record w {
  toasts = w.toasts ++ w.next_toast ∷ [];
  next_toast = w.next_toast + 1;
  high_load_toast = some w.next_toast;
}

abbrev pub is_failure_count : Option ℕ → ℕ → Bool
is_failure_count none counter = false
is_failure_count (some n) counter = nat_beq counter n

-- `Promise.race` with the promise that only a cancellation rejects
abbrev race : {E T : Type 0} → Option ℕ → Bool → Outcome (PollError E) T → Outcome (PollError E) T
race none cancelled result = result
race (some id) cancelled result = if cancelled then throws (polling_cancelled id) else result

abbrev pub hide : Option ℕ → List ℕ → List ℕ
hide none toasts = toasts
hide (some t) toasts = filter (λ u. not (u == t)) toasts

abbrev pub unregister : Option ℕ → List ℕ → List ℕ
unregister none polls = polls
unregister (some id) polls = filter (λ i. not (i == id)) polls

-- the `finally` block
pub clean_up : Option ℕ → World → World
clean_up poll_id w = record w {
  toasts = hide w.high_load_toast w.toasts;
  current_polls = unregister poll_id w.current_polls;
}

-- `currentPolls.set(pollId, …)`
abbrev pub register : Option ℕ → List ℕ → List ℕ
register none polls = polls
register (some id) polls = polls ++ id ∷ []

-- the id, if a poll with it is in progress
abbrev pub blocking : Option ℕ → List ℕ → Option ℕ
blocking none polls = none
blocking (some id) polls = if contains polls id then some id else none

abbrev wait_for : ℕ → World → World
wait_for ms w = record w { waited = w.waited + ms }

module _ {E T : Type 0} (p : Params E T) (env : Environment E T) where
  -- the part of an attempt before its call
  pub before_call : ℕ → ℕ → World → World
  unfolding show_high_load
  before_call counter ms w =
      if ltb 0 counter
      then wait_for ms (
          if is_failure_count p.failures_before_high_load_message counter
          then show_high_load w
          else w)
      else w

  pub wait_result : ℕ → Outcome (PollError E) (Unit {0})
  wait_result counter =
      if ltb 0 counter
      then race p.poll_id (env.cancelled_while_waiting counter) (returns tt)
      else returns tt

  pub next_wait : ℕ → ℕ → ℕ
  next_wait counter ms = if ltb 0 counter && p.use_exponential_backoff then ms * 2 else ms

  pub call_result : ℕ → Outcome (PollError E) T
  call_result counter = race p.poll_id (env.cancelled_while_calling counter) (env.answer counter)

  abbrev pub called : World → World
  called w = record w { calls = w.calls + 1 }

  -- what follows an answer: the result of the poll, or the other attempts
  abbrev after_call :
      Outcome (PollError E) T
      → World
      → Outcome (PollError E) T × World
      → Outcome (PollError E) T × World
  after_call (returns result) w others = (returns result, w)
  after_call (throws error) w others =
      if p.should_exit error || polling_cancelled? error then (throws error, w) else others

  abbrev after_wait :
      Outcome (PollError E) (Unit {0})
      → World
      → Outcome (PollError E) T × World
      → Outcome (PollError E) T × World
  after_wait (returns u) w called_on = called_on
  after_wait (throws error) w called_on = (throws error, w)

  -- the `for` loop, by the number of attempts that are left
  pub attempts : ℕ → ℕ → ℕ → World → Outcome (PollError E) T × World
  unfolding before_call wait_result next_wait call_result polling_cancelled?
  attempts zero counter ms w = (throws polling_limit_exceeded, w)
  attempts (suc left) counter ms w =
      let w' = before_call counter ms w in
      let others = attempts left (counter + 1) (next_wait counter ms) (called w') in
      after_wait (wait_result counter) w' (after_call (call_result counter) (called w') others)

  abbrev pub started : World → World
  started w = record w {
    current_polls = register p.poll_id w.current_polls;
    high_load_toast = none;
    calls = 0;
    waited = 0;
  }

  unfoldable pub poll : World → Outcome (PollError E) T × World
  unfolding attempts clean_up
  poll w = elim (blocking p.poll_id w.current_polls) [
    | some id ↦ (throws (polling_cancelled id), w)
    | none ↦
        let (result, w') = attempts p.max_attempts 0 p.milliseconds_to_wait (started w) in
        (result, clean_up p.poll_id w')
  ]
