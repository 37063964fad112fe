-- ===== src/Polling/Attempts.antt =====
-- frontend/src/lib/utils/utils.ts, the loop of `poll`: how often it calls, how long it waits and
-- what it returns.
use nns_dapp.Common.{
  ℕ, zero, suc, ◌+◌, ◌*◌, ◌≤◌, ◌<◌, ◌≡◌, ◌⊎◌, refl, sym, subst, inl, inr, true, false, ◌||◌, ltb,
  if◌then◌else◌, Bool-cases, Outcome, returns, throws, arith,
}
use nns_dapp.Polling.{
  PollError, is_failure_count, polling_cancelled?, Params, Environment, World, before_call,
  wait_result, next_wait, call_result, called, attempts,
}

pub Outcome-cases {ℓ} :
    {E : Type 0} {A : Type ℓ} (o : Outcome E A)
    → ((a : A) × (o ≡ returns a)) ⊎ ((e : E) × (o ≡ throws e))
Outcome-cases (returns a) = inl (a, refl)
Outcome-cases (throws e) = inr (e, refl)

-- a number doubled some times
pub doubled : ℕ → ℕ → ℕ
doubled ms zero = ms
doubled ms (suc k) = doubled (ms * 2) k

module _ {E T : Type 0} (p : Params E T) (env : Environment E T) where
  before_call-calls : (c ms : ℕ) (w : World) → (before_call p env c ms w).calls ≡ w.calls
  unfolding before_call
  before_call-calls c ms w = elim (Bool-cases (ltb 0 c)) [
    | inr first ↦ rw first
    | inl later ↦ elim (Bool-cases (is_failure_count p.failures_before_high_load_message c)) [
      | inl high ↦ rw (later, high)
      | inr low ↦ rw (later, low)
    ]
  ]

  before_call-waited :
      (c ms : ℕ) (w : World)
      → (before_call p env c ms w).waited ≡ (if ltb 0 c then w.waited + ms else w.waited)
  unfolding before_call
  before_call-waited c ms w = elim (Bool-cases (ltb 0 c)) [
    | inr first ↦ rw first
    | inl later ↦ elim (Bool-cases (is_failure_count p.failures_before_high_load_message c)) [
      | inl high ↦ rw (later, high)
      | inr low ↦ rw (later, low)
    ]
  ]

  -- The loop calls the function at most once for each attempt that is left.
  pub attempts-calls_bound :
      (left c ms : ℕ) (w : World) → (attempts p env left c ms w).1.calls ≤ w.calls + left
  unfolding attempts
  attempts-calls_bound zero c ms w = omega arith
  attempts-calls_bound (suc left) c ms w =
      let w' = before_call p env c ms w in
      let same = before_call-calls c ms w in
      elim (Outcome-cases (wait_result p env c)) [
        | inr (e, stopped) ↦ rw stopped (omega arith)
        | inl (u, waited) ↦ rw waited elim (Outcome-cases (call_result p env c)) [
          | inl (t, answered) ↦ rw answered (omega arith)
          | inr (e, failed) ↦
              rw failed elim (Bool-cases (p.should_exit e || polling_cancelled? e)) [
                | inl exits ↦ rw exits (omega arith)
                | inr goes_on ↦ rw goes_on (
                    omega (
                      arith,
                      attempts-calls_bound left (c + 1) (next_wait p env c ms) (called p env w'),
                    ))
              ]
        ]
      ]

  -- an attempt after which the loop goes on
  pub record Retries (c : ℕ) : Type 0 where
    pub error : PollError E
    pub waited : wait_result p env c ≡ returns tt
    pub failed : call_result p env c ≡ throws error
    pub goes_on : (p.should_exit error || polling_cancelled? error) ≡ false

  attempts-retry :
      (left c ms : ℕ) (w : World)
      → Retries c
      → attempts p env (suc left) c ms w
        ≡ attempts p env left
            (c + 1)
            (next_wait p env c ms)
            (called p env (before_call p env c ms w))
  unfolding attempts
  attempts-retry left c ms w r = rw (attempts, r.waited, r.failed, r.goes_on)

  attempts-success :
      (left c ms : ℕ) (w : World) {t : T}
      → wait_result p env c ≡ returns tt
      → call_result p env c ≡ returns t
      → attempts p env (suc left) c ms w ≡ (returns t, called p env (before_call p env c ms w))
  unfolding attempts
  attempts-success left c ms w waited result = rw (attempts, waited, result)

  -- the result and the calls of a poll whose attempts fail up to the one that succeeds
  pub attempts-first_success :
      (left c k ms : ℕ) (w : World) (t : T)
      → k < left
      → ((j : ℕ) → j < k → Retries (c + j))
      → wait_result p env (c + k) ≡ returns tt
      → call_result p env (c + k) ≡ returns t
      → ((attempts p env left c ms w).0 ≡ returns t)
        × ((attempts p env left c ms w).1.calls ≡ w.calls + k + 1)
  attempts-first_success zero c k ms w t inside retries waited result =
      let none_left : ⊥ = omega arith in elim none_left [ ]
  attempts-first_success (suc left) c zero ms w t inside retries waited result =
      let here : c + 0 ≡ c = omega arith in
      let run = attempts-success left c ms w {t = t} (rw (← here) waited) (rw (← here) result) in
      let kept = before_call-calls c ms w in rw run (refl, omega arith)
  attempts-first_success (suc left) c (suc k) ms w t inside retries waited result =
      let here : c + 0 ≡ c = omega arith in
      let next : c + suc k ≡ c + 1 + k = omega arith in
      let first : Retries c = subst Retries here (retries 0 (omega arith)) in
      let w' = called p env (before_call p env c ms w) in
      let kept = before_call-calls c ms w in
      let (same, calls) =
        attempts-first_success left (c + 1) k (next_wait p env c ms) w' t (omega arith)
          (λ j h. subst Retries (omega arith) (retries (suc j) (omega arith))) (rw (← next) waited)
          (rw (← next) result) in
      rw (attempts-retry left c ms w first) (same, omega (arith, calls))

  -- the time that is waited before the attempt that succeeds, the waits being doubled
  attempts-waited :
      (left c k ms : ℕ) (w : World) (t : T)
      → p.use_exponential_backoff ≡ true
      → k < left
      → ((j : ℕ) → j < k → Retries (c + 1 + j))
      → wait_result p env (c + 1 + k) ≡ returns tt
      → call_result p env (c + 1 + k) ≡ returns t
      → (attempts p env left (c + 1) ms w).1.waited + ms ≡ w.waited + doubled ms (suc k)
  unfolding doubled next_wait
  attempts-waited zero c k ms w t backoff inside retries waited result =
      let none_left : ⊥ = omega arith in elim none_left [ ]
  attempts-waited (suc left) c zero ms w t backoff inside retries waited result =
      let here : c + 1 + 0 ≡ c + 1 = omega arith in
      let run =
        attempts-success left (c + 1) ms w {t = t} (rw (← here) waited) (rw (← here) result) in
      let kept = before_call-waited (c + 1) ms w in
      let later : ltb 0 (c + 1) ≡ true = ground arith in rw (run, kept, later) (omega arith)
  attempts-waited (suc left) c (suc k) ms w t backoff inside retries waited result =
      let here : c + 1 + 0 ≡ c + 1 = omega arith in
      let next : c + 1 + suc k ≡ c + 1 + 1 + k = omega arith in
      let first : Retries (c + 1) = subst Retries here (retries 0 (omega arith)) in
      let w' = called p env (before_call p env (c + 1) ms w) in
      let kept = before_call-waited (c + 1) ms w in
      let later : ltb 0 (c + 1) ≡ true = ground arith in
      let kept' : w'.waited ≡ w.waited + ms = rw (kept, later) in
      let twice : next_wait p env (c + 1) ms ≡ ms * 2 = rw (next_wait, later, backoff) in
      let rest =
        attempts-waited left (c + 1) k (ms * 2) w' t backoff (omega arith)
          (λ j h. subst Retries (omega arith) (retries (suc j) (omega arith))) (rw (← next) waited)
          (rw (← next) result) in
      rw (attempts-retry left (c + 1) ms w first, twice) (omega (arith, rest, kept'))

  -- the same from the first attempt, before which there is no wait
  pub attempts-waited_from_start :
      (left k ms : ℕ) (w : World) (t : T)
      → p.use_exponential_backoff ≡ true
      → k < left
      → ((j : ℕ) → j < k → Retries j)
      → wait_result p env k ≡ returns tt
      → call_result p env k ≡ returns t
      → (attempts p env left 0 ms w).1.waited + ms ≡ w.waited + doubled ms k
  unfolding doubled next_wait
  attempts-waited_from_start zero k ms w t backoff inside retries waited result =
      let none_left : ⊥ = omega arith in elim none_left [ ]
  attempts-waited_from_start (suc left) zero ms w t backoff inside retries waited result =
      let run = attempts-success left 0 ms w {t = t} waited result in
      let kept = before_call-waited 0 ms w in rw (run, kept) refl
  attempts-waited_from_start (suc left) (suc k) ms w t backoff inside retries waited result =
      let w' = called p env (before_call p env 0 ms w) in
      let kept : w'.waited ≡ w.waited = before_call-waited 0 ms w in
      let at : (j : ℕ) → 0 + 1 + j ≡ suc j = λ j. omega arith in
      let rest =
        attempts-waited left 0 k ms w' t backoff (omega arith)
          (λ j h. subst Retries (sym (at j)) (retries (suc j) (omega arith))) (rw (at k) waited)
          (rw (at k) result) in
      rw (attempts-retry left 0 ms w (retries 0 (omega arith))) (omega (arith, rest, kept))
