-- ===== src/Polling/Cleanup.antt =====
-- frontend/src/lib/utils/utils.ts, `poll` as a whole: what it returns, and what it leaves behind
-- in `currentPolls` and among the toasts.
use nns_dapp.Common.{
  ℕ, zero, suc, ◌+◌, ◌≤◌, ◌<◌, ◌≡◌, ◌⊎◌, refl, sym, ◌∙◌, ap, subst, inl, inr, nat_has_eq, true,
  false, ◌||◌, none, some, contains, Bool-cases, Option-cases, Outcome, returns, arith,
}
use nns_dapp.Polling.{
  PollError, polling_cancelled?, Params, Environment, World, before_call, wait_result, call_result,
  called, attempts, clean_up, started, poll, hide, unregister, blocking, next_wait,
}
use nns_dapp.Polling.Attempts.{
  Outcome-cases, Retries, attempts-calls_bound, attempts-first_success, attempts-waited_from_start,
  doubled,
}
use nns_dapp.Polling.Toasts.{
  remove-snoc, unregister-register, before_call-polls, called_toasts, NoToast, OneToast,
}

module _ {E T : Type 0} (p : Params E T) (env : Environment E T) where
  -- what a run of the loop leaves for the `finally` block
  record Leaves (before w : World) : Type 0 where
    toasts : hide w.high_load_toast w.toasts ≡ before.toasts
    polls : w.current_polls ≡ before.current_polls

  hide-shown :
      (before : World) (c : ℕ) (w : World)
      → contains before.toasts before.next_toast ≡ false
      → NoToast p env before w ⊎ OneToast p env before c w
      → hide w.high_load_toast w.toasts ≡ before.toasts
  hide-shown before c w fresh (inl s) = rw (s.high, s.visible)
  hide-shown before c w fresh (inr s) =
      rw (s.high, s.visible) (remove-snoc before.toasts before.next_toast fresh)

  attempts-Leaves :
      (before : World) (left c ms : ℕ) (w : World)
      → contains before.toasts before.next_toast ≡ false
      → NoToast p env before w ⊎ OneToast p env before c w
      → w.current_polls ≡ before.current_polls
      → Leaves before (attempts p env left c ms w).1
  unfolding attempts
  attempts-Leaves before zero c ms w fresh s polls = record {
    toasts = hide-shown before c w fresh s;
    polls = polls;
  }
  attempts-Leaves before (suc left) c ms w fresh s polls =
      let w' = called p env (before_call p env c ms w) in
      let s' = called_toasts p env before c ms w s in
      let polls' = before_call-polls p env c ms w ∙ polls in
      let stop : Leaves before w' = record {
        toasts = hide-shown before (c + 1) w' fresh s';
        polls = polls';
      } in
      elim (Outcome-cases (wait_result p env c)) [
        | inr (e, stopped) ↦ rw stopped record { toasts = stop.toasts; polls = stop.polls }
        | inl (u, waited) ↦ rw waited elim (Outcome-cases (call_result p env c)) [
          | inl (t, answered) ↦ rw answered stop
          | inr (e, failed) ↦
              rw failed elim (Bool-cases (p.should_exit e || polling_cancelled? e)) [
                | inl exits ↦ rw exits stop
                | inr goes_on ↦
                    rw goes_on (
                      attempts-Leaves before left (c + 1) (next_wait p env c ms) w' fresh s' polls')
              ]
        ]
      ]

  -- the loop as `poll` runs it
  abbrev pub run : World → Outcome (PollError E) T × World
  run w = attempts p env p.max_attempts 0 p.milliseconds_to_wait (started p env w)

  poll-runs :
      (w : World)
      → blocking p.poll_id w.current_polls ≡ none
      → poll p env w ≡ ((run w).0, clean_up p.poll_id (run w).1)
  unfolding poll
  poll-runs w free = rw (poll, free)

  poll-refused :
      (w : World) {id : ℕ} → blocking p.poll_id w.current_polls ≡ some id → (poll p env w).1 ≡ w
  unfolding poll
  poll-refused w blocked = rw (poll, blocked)

  -- However a poll ends, by a result, an error, a cancellation, the limit of attempts or because
  -- a poll with its id is in progress, the polls in progress and the visible toasts are afterwards
  -- what they were before. The symbol of the next toast is not that of a visible one.
  pub poll_restores :
      (w : World)
      → contains w.toasts w.next_toast ≡ false
      → ((poll p env w).1.current_polls ≡ w.current_polls) × ((poll p env w).1.toasts ≡ w.toasts)
  unfolding clean_up
  poll_restores w fresh = elim (Option-cases (blocking p.poll_id w.current_polls)) [
    | inr (id, blocked) ↦ rw (poll-refused w blocked) (refl, refl)
    | inl free ↦
        let none_yet : NoToast p env (started p env w) (started p env w) = record {
          high = refl;
          visible = refl;
          next = refl;
        } in
        let left =
          attempts-Leaves (started p env w) p.max_attempts 0 p.milliseconds_to_wait
            (started p env w) fresh (inl none_yet) refl in
        rw (poll-runs w free) (
          ap (unregister p.poll_id) left.polls ∙ unregister-register p.poll_id w.current_polls free,
          left.toasts,
        )
  ]

  -- A poll that is not refused calls the function at most `maxAttempts` times.
  pub poll-calls_bound :
      (w : World)
      → blocking p.poll_id w.current_polls ≡ none
      → (poll p env w).1.calls ≤ p.max_attempts
  unfolding clean_up
  poll-calls_bound w free =
      let bound =
        attempts-calls_bound p env p.max_attempts 0 p.milliseconds_to_wait (started p env w) in
      rw (poll-runs w free) (omega (arith, bound))

  -- If the attempt number k, counted from 0, is within the limit and its call succeeds, and all
  -- attempts before it fail with errors after which to go on, none being cancelled, then the poll
  -- returns that result after k + 1 calls.
  pub poll_returns_first_success :
      (w : World)
      → blocking p.poll_id w.current_polls ≡ none
      → (k : ℕ) (t : T) → k < p.max_attempts
      → ((j : ℕ) → j < k → Retries p env j)
      → wait_result p env k ≡ returns tt
      → call_result p env k ≡ returns t
      → ((poll p env w).0 ≡ returns t) × ((poll p env w).1.calls ≡ k + 1)
  unfolding clean_up
  poll_returns_first_success w free k t inside retries waited result =
      let at : (j : ℕ) → 0 + j ≡ j = λ j. omega arith in
      let (same, calls) =
        attempts-first_success p env p.max_attempts 0 k p.milliseconds_to_wait (started p env w) t
          inside (λ j h. subst (Retries p env) (sym (at j)) (retries j h)) (rw (at k) waited)
          (rw (at k) result) in
      rw (poll-runs w free) (same, omega (arith, calls))

  -- With exponential backoff, where a poll succeeds at attempt k, as above, the waits that it
  -- began and one more first wait add up to the first wait doubled k times.
  pub poll_waits_doubled :
      (w : World)
      → blocking p.poll_id w.current_polls ≡ none
      → p.use_exponential_backoff ≡ true
      → (k : ℕ) (t : T) → k < p.max_attempts
      → ((j : ℕ) → j < k → Retries p env j)
      → wait_result p env k ≡ returns tt
      → call_result p env k ≡ returns t
      → (poll p env w).1.waited + p.milliseconds_to_wait ≡ doubled p.milliseconds_to_wait k
  unfolding clean_up
  poll_waits_doubled w free backoff k t inside retries waited result =
      let total =
        attempts-waited_from_start p env p.max_attempts k p.milliseconds_to_wait (started p env w) t
          backoff inside retries waited result in
      rw (poll-runs w free) (omega (arith, total))
