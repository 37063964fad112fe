-- ===== src/QueuedStore/Order.antt =====
-- What users of a queued store rely on, whatever the order in which responses arrive.
use nns_dapp.Common.{
  ℕ, nat_has_eq, subst, ◌≡◌, refl, sym, ap, ◌∙◌, Bool, true, Option, some, List, [], ◌∷◌, ◌++◌, map,
  map-append, append-nil, arith, ◌≢◌, filter, contains, Distinct, All, returns,
}
use nns_dapp.QueuedStore.{
  Strategy, Mutation, MutationEntry, Store, init, effective, apply_to, replay, assign, drain,
  settle, update_exposed_data, add_mutation, cancel, get_single_mutation_store,
}
use nns_dapp.QueuedStore.Queue.{
  key, lacks_key, Final, StartsPending, drain-Split, replay-append, assign_comm, drain-assign,
  map-key-assign,
}
use nns_dapp.QueuedStore.Log.{
  new_entry, Represents, init-Represents, add_mutation-returns, add_mutation-Represents,
  get_single_mutation_store-Represents, cancel-Represents,
}

-- The stores that calls lead to, with the log of the entries reserved and not cancelled.
pub data Reaches {D : Type 0} (initial : D) : List (MutationEntry D) → Store D → Type 0 where
  start : Reaches initial [] (init initial)
  reserve :
      {log : List (MutationEntry D)} {s : Store D} (strategy : Option Strategy)
      → Reaches initial log s
      → Reaches initial
          (log ++ new_entry (get_single_mutation_store strategy s).0 strategy ∷ [])
          (get_single_mutation_store strategy s).1
  respond :
      {log : List (MutationEntry D)} {s s' : Store D} (k : ℕ) (certified : Bool) (f : Mutation D)
      → Reaches initial log s
      → add_mutation k certified f s ≡ returns s'
      → Reaches initial (assign k certified f log) s'
  withdraw :
      {log : List (MutationEntry D)} {s s' : Store D} (k : ℕ)
      → Reaches initial log s
      → cancel k s ≡ returns s'
      → Reaches initial (filter (lacks_key k) log) s'

module _ {D : Type 0} where
  with_drained : Store D → D × List (MutationEntry D) → Store D
  unfolding update_exposed_data
  with_drained s (d, queue) =
      update_exposed_data (record s { certified_data = d; mutation_queue = queue })

  replay-newest :
      (initial : D) (older : List (MutationEntry D)) (newest : MutationEntry D) (d : D)
      → effective newest ≡ some (λ _. d)
      → replay initial (older ++ newest ∷ []) ≡ d
  unfolding replay
  replay-newest initial older newest d shows =
      replay-append initial older (newest ∷ []) ∙ ap (λ m. apply_to m (replay initial older)) shows

  assign-older :
      (k : ℕ) (c : Bool) (f : Mutation D) (older : List (MutationEntry D))
      (newest : MutationEntry D)
      → newest.mutation_key ≢ k
      → assign k c f (older ++ newest ∷ []) ≡ assign k c f older ++ newest ∷ []
  unfolding assign
  assign-older k c f [] newest ne = ground arith
  assign-older k c f (e ∷ older) newest ne = ground (arith, assign-older k c f older newest ne)

  -- the part of a settled store that a later settling looks at
  settle-settle :
      (k j : ℕ) (c b : Bool) (f g : Mutation D) (s : Store D)
      → Distinct (map key s.mutation_queue)
      → contains (map key (settle k c f s).mutation_queue) j ≡ true
      → settle j b g (settle k c f s)
        ≡ with_drained s (drain s.certified_data (assign j b g (assign k c f s.mutation_queue)))
  unfolding settle with_drained
  settle-settle k j c b f g s d h =
      ap (with_drained s) (
        drain-assign s.certified_data (assign k c f s.mutation_queue) j b g (rw map-key-assign d) h)

  no-Final_rest : (xs q : List (MutationEntry D)) → All Final (xs ++ q) → StartsPending q → q ≡ []
  no-Final_rest [] [] h p = refl
  no-Final_rest [] (e ∷ q) (f, h) p = ground arith
  no-Final_rest (x ∷ xs) q (f, h) p = no-Final_rest xs q h p

  settle-StartsPending :
      (k : ℕ) (c : Bool) (f : Mutation D) (s : Store D)
      → StartsPending (settle k c f s).mutation_queue
  unfolding settle
  settle-StartsPending k c f s =
      (drain-Split s.certified_data (assign k c f s.mutation_queue)).pending

  settle_twice :
      (k j : ℕ) (c b : Bool) (f g : Mutation D) (s s₁ s₂ : Store D)
      → Distinct (map key s.mutation_queue)
      → add_mutation k c f s ≡ returns s₁
      → add_mutation j b g s₁ ≡ returns s₂
      → s₂ ≡ with_drained s (drain s.certified_data (assign j b g (assign k c f s.mutation_queue)))
  settle_twice k j c b f g s s₁ s₂ d h₁ h₂ =
      let (_, same₁) = add_mutation-returns k c f s s₁ h₁ in
      let (found₂, same₂) = add_mutation-returns j b g s₁ s₂ h₂ in
      same₂
      ∙ ap (settle j b g) same₁
      ∙ settle-settle k j c b f g s d
          (subst (λ t. contains (map key t.mutation_queue) j ≡ true) same₁ found₂)

Distinct-suffix : (xs ys : List ℕ) → Distinct (xs ++ ys) → Distinct ys
Distinct-suffix [] ys d = d
Distinct-suffix (x ∷ xs) ys (n, d) = Distinct-suffix xs ys d

module _ {D : Type 0} {initial : D} where
  Reaches-Represents :
      {log : List (MutationEntry D)} {s : Store D}
      → Reaches initial log s
      → Represents initial log s
  Reaches-Represents start = init-Represents initial
  Reaches-Represents (reserve strategy r) =
      get_single_mutation_store-Represents (Reaches-Represents r) strategy
  Reaches-Represents (respond {s' = t} k c f r h) =
      add_mutation-Represents (Reaches-Represents r) k c f t h
  Reaches-Represents (withdraw {s' = t} k r h) = cancel-Represents (Reaches-Represents r) k t h

  -- After any sequence of successful calls subscribers see the replay of the log: every mutation
  -- received so far, the certified one of an entry where it has come, in the order of reservation.
  pub exposed-eq-replay :
      {log : List (MutationEntry D)} {s : Store D}
      → Reaches initial log s
      → s.exposed ≡ replay initial log
  exposed-eq-replay r = (Reaches-Represents r).exposed

  -- When a response makes the last entry final, the queue is empty and the certified data is what
  -- subscribers see.
  pub add_mutation_settles :
      {log : List (MutationEntry D)} {s s' : Store D} (k : ℕ) (c : Bool) (f : Mutation D)
      → Reaches initial log s
      → add_mutation k c f s ≡ returns s'
      → All Final (assign k c f log)
      → (s'.mutation_queue ≡ []) × (s'.certified_data ≡ s'.exposed)
  add_mutation_settles {log} {s} {s'} k c f r h final =
      let t = Reaches-Represents (respond k c f r h) in
      let pending : StartsPending s'.mutation_queue =
        rw (add_mutation-returns k c f s s' h).1 (settle-StartsPending k c f s) in
      let empty = no-Final_rest t.drained s'.mutation_queue (rw t.parts final) pending in
      let all_drained : t.drained ≡ assign k c f log =
        sym (append-nil t.drained) ∙ ap (λ q. t.drained ++ q) (sym empty) ∙ t.parts in
      (empty, t.certified ∙ ap (replay initial) all_drained ∙ sym t.exposed)

  -- Data set by the newest entry stays on display when a response for an older entry arrives.
  pub newer_data_survives :
      {log : List (MutationEntry D)} {s s' : Store D} (older : List (MutationEntry D))
      (newest : MutationEntry D) (d : D) (k : ℕ) (c : Bool) (f : Mutation D)
      → Reaches initial log s
      → log ≡ older ++ newest ∷ []
      → effective newest ≡ some (λ _. d)
      → newest.mutation_key ≢ k
      → add_mutation k c f s ≡ returns s'
      → (s.exposed ≡ d) × (s'.exposed ≡ d)
  newer_data_survives {log} older newest d k c f r split shows other h =
      let t = Reaches-Represents (respond k c f r h) in
      (
        exposed-eq-replay r
            ∙ ap (replay initial) split
            ∙ replay-newest initial older newest d shows,
        t.exposed
            ∙ ap (λ l. replay initial (assign k c f l)) split
            ∙ ap (replay initial) (assign-older k c f older newest other)
            ∙ replay-newest initial (assign k c f older) newest d shows,
      )

  -- Two responses for different entries lead to one and the same store in either order, where both
  -- orders are accepted.
  pub add_mutation_comm :
      {log : List (MutationEntry D)} {s s₁ s₂ t₁ t₂ : Store D} (k j : ℕ) (c b : Bool)
      (f g : Mutation D)
      → Reaches initial log s
      → k ≢ j
      → add_mutation k c f s ≡ returns s₁
      → add_mutation j b g s₁ ≡ returns s₂
      → add_mutation j b g s ≡ returns t₁
      → add_mutation k c f t₁ ≡ returns t₂
      → s₂ ≡ t₂
  add_mutation_comm {s} {s₁} {s₂} {t₁} {t₂} k j c b f g r ne h₁ h₂ e₁ e₂ =
      let t = Reaches-Represents r in
      let d : Distinct (map key s.mutation_queue) =
        Distinct-suffix (map key t.drained) (map key s.mutation_queue)
          (rw (← map-append, t.parts) t.distinct) in
      settle_twice k j c b f g s s₁ s₂ d h₁ h₂
      ∙ ap (λ q. with_drained s (drain s.certified_data q))
          (assign_comm k j c b f g s.mutation_queue ne)
      ∙ sym (settle_twice j k b c g f s t₁ t₂ d e₁ e₂)
