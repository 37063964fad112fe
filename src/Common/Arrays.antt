-- ===== src/Common/Arrays.antt =====
-- Array methods: `length`, `includes`, `filter`, `find`, `reverse`, and facts on them.
use Prim.Native.Nat.{ℕ, zero, suc, ◌+◌, ◌≤◌}
use mathlib.Core.Path.{◌≡◌, refl, sym, ap, subst, ◌∙◌}
use mathlib.Core.Bool.{Bool, true, false, ◌&&◌, ◌||◌}
use mathlib.Core.Option.{Option, none, some}
use mathlib.Core.Logic.{inl, inr, ◌≢◌}
use mathlib.Core.List.{List, [], ◌∷◌, ◌++◌}
use native.Mathlib.Omega.{arith}
use nns_dapp.Common.Tests.{if◌then◌else◌, Bool-cases, or_else}
use nns_dapp.Common.Equality.{HasEq}

module _ {ℓ} {A : Type ℓ} where
  abbrev pub length : List A → ℕ
  length [] = 0
  length (x ∷ xs) = suc (length xs)

  abbrev pub filter : (A → Bool) → List A → List A
  filter p [] = []
  filter p (x ∷ xs) = if p x then x ∷ filter p xs else filter p xs

  abbrev pub reverse : List A → List A
  reverse [] = []
  reverse (x ∷ xs) = reverse xs ++ x ∷ []

  abbrev pub find? : (A → Bool) → List A → Option A
  find? p [] = none
  find? p (x ∷ xs) = if p x then some x else find? p xs

  abbrev pub take : ℕ → List A → List A
  take zero xs = []
  take (suc n) [] = []
  take (suc n) (x ∷ xs) = x ∷ take n xs

  abbrev pub drop : ℕ → List A → List A
  drop zero xs = xs
  drop (suc n) [] = []
  drop (suc n) (x ∷ xs) = drop n xs

  -- `xs[xs.length - 1]`
  abbrev pub last? : List A → Option A
  last? [] = none
  last? (x ∷ []) = some x
  last? (x ∷ y ∷ ys) = last? (y ∷ ys)

  abbrev pub All {κ} : (A → Type κ) → List A → Type κ
  All P [] = Unit
  All P (x ∷ xs) = P x × All P xs

  pub filter-append :
      (p : A → Bool) (xs ys : List A) → filter p (xs ++ ys) ≡ filter p xs ++ filter p ys
  filter-append p [] ys = refl
  filter-append p (x ∷ xs) ys = ground (arith, filter-append p xs ys)

  length-append : (xs ys : List A) → length (xs ++ ys) ≡ length xs + length ys
  length-append [] ys = omega arith
  length-append (x ∷ xs) ys = omega (arith, length-append xs ys)

  pub All-find? {κ} :
      (P : A → Type κ) (p : A → Bool) (xs : List A) {x : A} → All P xs → find? p xs ≡ some x → P x
  All-find? P p [] h e = cc
  All-find? P p (y ∷ xs) {x} (h, hs) e = elim (Bool-cases (p y)) [
    | inl same ↦ let found : y ≡ x = ground arith in subst P found h
    | inr other ↦ All-find? P p xs hs (rw other at e)
  ]

  pub find?-append :
      (p : A → Bool) (xs ys : List A) → find? p (xs ++ ys) ≡ or_else (find? p xs) (find? p ys)
  find?-append p [] ys = refl
  find?-append p (x ∷ xs) ys = ground (arith, find?-append p xs ys)

  pub find?-holds : (p : A → Bool) (xs : List A) {x : A} → find? p xs ≡ some x → p x ≡ true
  find?-holds p [] e = cc
  find?-holds p (y ∷ xs) {x} e = ground (arith, find?-holds p xs {x = x})

  pub All-append {κ} : (P : A → Type κ) (xs ys : List A) → All P xs → All P ys → All P (xs ++ ys)
  All-append P [] ys h k = k
  All-append P (x ∷ xs) ys (p, h) k = (p, All-append P xs ys h k)

  pub All-filter : (p : A → Bool) (xs : List A) → All (λ x. p x ≡ true) (filter p xs)
  All-filter p [] = tt
  All-filter p (x ∷ xs) = ground (arith, All-filter p xs)

  pub All-map {κ κ'} :
      (P : A → Type κ) (Q : A → Type κ')
      → ((x : A) → P x → Q x)
      → (xs : List A) → All P xs
      → All Q xs
  All-map P Q f [] h = tt
  All-map P Q f (x ∷ xs) (p, h) = (f x p, All-map P Q f xs h)

  pub filter-All : (p : A → Bool) (xs : List A) → All (λ x. p x ≡ true) xs → filter p xs ≡ xs
  filter-All p [] h = refl
  filter-All p (x ∷ xs) (h, hs) = rw h (ap (λ ys. x ∷ ys) (filter-All p xs hs))

  pub take-drop : (n : ℕ) (xs : List A) → take n xs ++ drop n xs ≡ xs
  take-drop zero xs = refl
  take-drop (suc n) [] = refl
  take-drop (suc n) (x ∷ xs) = ap (λ ys. x ∷ ys) (take-drop n xs)

  take_nil : (n : ℕ) → take n [] ≡ []
  take_nil zero = refl
  take_nil (suc n) = refl

  pub take_add : (n m : ℕ) (xs : List A) → take (n + m) xs ≡ take n xs ++ take m (drop n xs)
  take_add zero m xs = let e : 0 + m ≡ m = omega arith in ap (λ k. take k xs) e
  take_add (suc n) m [] = take_nil (suc n + m) ∙ sym (take_nil m)
  take_add (suc n) m (x ∷ xs) =
      let e : suc n + m ≡ suc (n + m) = omega arith in
      ap (λ k. take k (x ∷ xs)) e ∙ ap (λ ys. x ∷ ys) (take_add n m xs)

  pub length-take : (n : ℕ) (xs : List A) → length (take n xs) ≤ n
  length-take zero xs = omega arith
  length-take (suc n) [] = omega arith
  length-take (suc n) (x ∷ xs) = omega (arith, length-take n xs)

  pub take_all : (n : ℕ) (xs : List A) → length xs ≤ n → take n xs ≡ xs
  take_all zero [] h = refl
  take_all zero (x ∷ xs) h = absurd (omega arith)
  take_all (suc n) [] h = refl
  take_all (suc n) (x ∷ xs) h = ap (λ ys. x ∷ ys) (take_all n xs (omega arith))

  pub length-take_short : (n : ℕ) (xs : List A) → length (take n xs) ≢ n → length xs ≤ n
  length-take_short zero xs h = absurd (h refl)
  length-take_short (suc n) [] h = omega arith
  length-take_short (suc n) (x ∷ xs) h = omega (arith, length-take_short n xs (λ e. h (ap suc e)))

  pub All-prefix {κ} : (P : A → Type κ) (xs ys : List A) → All P (xs ++ ys) → All P xs
  All-prefix P [] ys h = tt
  All-prefix P (x ∷ xs) ys (p, h) = (p, All-prefix P xs ys h)

  pub All-last? {κ} : (P : A → Type κ) (xs : List A) {x : A} → All P xs → last? xs ≡ some x → P x
  All-last? P [] h e = cc
  All-last? P (y ∷ []) {x} (p, h) e = let same : y ≡ x = ground arith in subst P same p
  All-last? P (y ∷ z ∷ zs) (p, h) e = All-last? P (z ∷ zs) h e

module _ {ℓ} {A : Type ℓ} ⦃e : HasEq A⦄ where
  -- `xs.includes(a)`, `set.has(a)`
  abbrev pub contains : List A → A → Bool
  contains [] a = false
  contains (x ∷ xs) a = e.eqb x a || contains xs a

  pub contains-append :
      (xs ys : List A) (a : A) → contains (xs ++ ys) a ≡ contains xs a || contains ys a
  contains-append [] ys a = refl
  contains-append (x ∷ xs) ys a = ground (arith, contains-append xs ys a)

  pub contains-filter :
      (p : A → Bool) (xs : List A) (a : A) → contains (filter p xs) a ≡ p a && contains xs a
  contains-filter p [] a = ground arith
  contains-filter p (x ∷ xs) a = elim (Bool-cases (e.eqb x a)) [
    | inl same ↦ ground (arith, contains-filter p xs a, ap p ((e.eqb_iff x a).0 same))
    | inr other ↦ ground (arith, contains-filter p xs a)
  ]

  -- No value stands twice.
  abbrev pub Distinct : List A → Type 0
  Distinct [] = Unit
  Distinct (x ∷ xs) = (contains xs x ≡ false) × Distinct xs

  pub Distinct-filter : (p : A → Bool) (xs : List A) → Distinct xs → Distinct (filter p xs)
  Distinct-filter p [] h = tt
  Distinct-filter p (x ∷ xs) (n, h) = ground (arith, Distinct-filter p xs h, contains-filter p xs x)

  -- No value stands in both.
  abbrev pub Disjoint : List A → List A → Type 0
  Disjoint xs ys = All (λ x. contains ys x ≡ false) xs

  pub Distinct-append :
      (xs ys : List A) → Distinct xs → Distinct ys → Disjoint xs ys → Distinct (xs ++ ys)
  Distinct-append [] ys h k d = k
  Distinct-append (x ∷ xs) ys (n, h) k (m, d) =
      ground (arith, Distinct-append xs ys h k d, contains-append xs ys x)

  pub Disjoint-nil : (xs : List A) → Disjoint xs []
  Disjoint-nil [] = tt
  Disjoint-nil (x ∷ xs) = (refl, Disjoint-nil xs)

  pub Disjoint-cons :
      (xs ys : List A) (y : A) → contains xs y ≡ false → Disjoint xs ys → Disjoint xs (y ∷ ys)
  Disjoint-cons [] ys y n d = tt
  Disjoint-cons (x ∷ xs) ys y n (m, d) =
      ground (arith, Disjoint-cons xs ys y (ground arith) d, e.eqb_iff x y, e.eqb_iff y x)

  pub Disjoint-intro :
      (xs ys : List A) → ((x : A) → contains xs x ≡ true → contains ys x ≡ false) → Disjoint xs ys
  Disjoint-intro [] ys h = tt
  Disjoint-intro (x ∷ xs) ys h =
      (h x (ground (arith, e.eqb_iff x x)), Disjoint-intro xs ys (λ z m. h z (ground arith)))

  -- A value that is in a list differs from one that is not.
  contains-apart :
      (xs : List A) (a b : A) → contains xs a ≡ false → contains xs b ≡ true → e.eqb a b ≡ false
  contains-apart xs a b n h = elim (Bool-cases (e.eqb a b)) [
    | inl same ↦ ground (arith, ap (contains xs) ((e.eqb_iff a b).0 same))
    | inr other ↦ other
  ]

  pub Distinct-snoc :
      (xs : List A) (a : A) → Distinct xs → contains xs a ≡ false → Distinct (xs ++ a ∷ [])
  Distinct-snoc xs a d n =
      Distinct-append xs (a ∷ []) d (refl, tt)
        (Disjoint-intro xs (a ∷ []) (λ b h. ground (arith, contains-apart xs a b n h)))
