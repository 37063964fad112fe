-- ===== src/Polling/Toasts.antt =====
-- frontend/src/lib/utils/utils.ts: the toast that `poll` shows while it goes on to fail, and the
-- registry of polls.
use nns_dapp.Common.{
  ℕ, ◌+◌, ◌≤◌, ◌≡◌, ◌⊎◌, refl, ◌∙◌, inl, inr, nat_has_eq, eqb_refl, Bool, true, false, not, ◌==◌,
  ◌&&◌, Option, none, some, List, [], ◌∷◌, ◌++◌, filter, contains, ltb, Bool-cases, arith,
}
use nns_dapp.Polling.{
  Params, Environment, World, is_failure_count, before_call, called, register, unregister, blocking,
}

pub remove-snoc :
    (xs : List ℕ) (a : ℕ) → contains xs a ≡ false → filter (λ u. not (u == a)) (xs ++ a ∷ []) ≡ xs
remove-snoc [] a n = ground (arith, eqb_refl a)
remove-snoc (x ∷ xs) a n = ground (arith, remove-snoc xs a)

failure_count-once :
    (o : Option ℕ) (c j : ℕ)
    → is_failure_count o c ≡ true
    → c + 1 ≤ j
    → is_failure_count o j ≡ false
failure_count-once none c j h le = cc
failure_count-once (some n) c j h le = ground arith

pub unregister-register :
    (o : Option ℕ) (polls : List ℕ)
    → blocking o polls ≡ none
    → unregister o (register o polls) ≡ polls
unregister-register none polls free = refl
unregister-register (some id) polls free = elim (Bool-cases (contains polls id)) [
  | inl there ↦ let never : some id ≡ none = rw there at free in cc
  | inr apart ↦ remove-snoc polls id apart
]

module _ {E T : Type 0} (p : Params E T) (env : Environment E T) where
  pub before_call-polls :
      (c ms : ℕ) (w : World) → (before_call p env c ms w).current_polls ≡ w.current_polls
  unfolding before_call
  before_call-polls c ms w = elim (Bool-cases (ltb 0 c)) [
    | inr first ↦ rw first
    | inl later ↦ elim (Bool-cases (is_failure_count p.failures_before_high_load_message c)) [
      | inl high ↦ rw (later, high)
      | inr low ↦ rw (later, low)
    ]
  ]

  abbrev pub shows : ℕ → Bool
  shows c = ltb 0 c && is_failure_count p.failures_before_high_load_message c

  before_call-keeps :
      (c ms : ℕ) (w : World)
      → shows c ≡ false
      → ((before_call p env c ms w).high_load_toast ≡ w.high_load_toast)
        × (((before_call p env c ms w).toasts ≡ w.toasts)
            × ((before_call p env c ms w).next_toast ≡ w.next_toast))
  unfolding before_call
  before_call-keeps c ms w h = elim (Bool-cases (ltb 0 c)) [
    | inr first ↦ rw first (refl, (refl, refl))
    | inl later ↦
        let low : is_failure_count p.failures_before_high_load_message c ≡ false = rw later at h in
        rw (later, low) (refl, (refl, refl))
  ]

  before_call-shows :
      (c ms : ℕ) (w : World)
      → shows c ≡ true
      → ((before_call p env c ms w).high_load_toast ≡ some w.next_toast)
        × ((before_call p env c ms w).toasts ≡ w.toasts ++ w.next_toast ∷ [])
  unfolding before_call
  before_call-shows c ms w h = elim (Bool-cases (ltb 0 c)) [
    | inr first ↦ let never : false ≡ true = rw first at h in cc
    | inl later ↦
        let high : is_failure_count p.failures_before_high_load_message c ≡ true = rw later at h in
        rw (later, high) (refl, refl)
  ]

  shows-once : (c j : ℕ) → shows c ≡ true → c + 1 ≤ j → shows j ≡ false
  shows-once c j h le = ground (arith, failure_count-once p.failures_before_high_load_message c j)

  -- the poll shows no toast, or it shows its one toast behind the others and no more
  pub record NoToast (before w : World) : Type 0 where
    pub high : w.high_load_toast ≡ none
    pub visible : w.toasts ≡ before.toasts
    pub next : w.next_toast ≡ before.next_toast

  pub record OneToast (before : World) (c : ℕ) (w : World) : Type 0 where
    pub high : w.high_load_toast ≡ some before.next_toast
    pub visible : w.toasts ≡ before.toasts ++ before.next_toast ∷ []
    no_more : (j : ℕ) → c ≤ j → shows j ≡ false

  pub called_toasts :
      (before : World) (c ms : ℕ) (w : World)
      → NoToast before w ⊎ OneToast before c w
      → NoToast before (called p env (before_call p env c ms w))
        ⊎ OneToast before (c + 1) (called p env (before_call p env c ms w))
  called_toasts before c ms w (inl s) = elim (Bool-cases (shows c)) [
    | inl h ↦
        let (high, visible) = before_call-shows c ms w h in
        inr record {
          high = rw (high, s.next);
          visible = rw (visible, s.next, s.visible);
          no_more = λ j le. shows-once c j h le;
        }
    | inr h ↦
        let (high, (visible, next)) = before_call-keeps c ms w h in
        inl record { high = high ∙ s.high; visible = visible ∙ s.visible; next = next ∙ s.next }
  ]
  called_toasts before c ms w (inr s) =
      let (high, (visible, next)) = before_call-keeps c ms w (s.no_more c (omega arith)) in
      inr record {
        high = high ∙ s.high;
        visible = visible ∙ s.visible;
        no_more = λ j le. s.no_more j (omega arith);
      }
