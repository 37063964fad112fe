-- ===== src/Common/Sets.antt =====
-- `new Set(…)` read back in insertion order, and the loop that keeps the first item of each key.
use mathlib.Core.Path.{◌≡◌, refl, sym, ap, subst, ◌∙◌}
use mathlib.Core.Logic.{inl, inr}
use mathlib.Core.Bool.{true, not, ◌&&◌, ◌||◌}
use mathlib.Core.List.{List, [], ◌∷◌, ◌++◌, map}
use native.Mathlib.Omega.{arith}
use nns_dapp.Common.Tests.{if◌then◌else◌, Bool-cases}
use nns_dapp.Common.Equality.{HasEq, eqb_refl}
use nns_dapp.Common.Arrays.{contains, Distinct, Disjoint, Disjoint-cons, contains-append}

module _ {ℓ κ} {A : Type ℓ} {K : Type κ} ⦃e : HasEq K⦄ (key : A → K) where
  -- the items whose key is met for the first time, `seen` being the keys met before
  unfoldable pub unique_from : List K → List A → List A
  unique_from seen [] = []
  unique_from seen (x ∷ xs) =
      let fresh = x ∷ unique_from (key x ∷ seen) xs in
      let old = unique_from seen xs in if contains seen (key x) then old else fresh

  pub contains-unique_from :
      (seen : List K) (xs : List A) (k : K)
      → contains (map key (unique_from seen xs)) k
        ≡ not (contains seen k) && contains (map key xs) k
  unfolding unique_from
  contains-unique_from seen [] k = ground arith
  contains-unique_from seen (x ∷ xs) k = elim (Bool-cases (e.eqb (key x) k)) [
    | inl same ↦
        let eq = (e.eqb_iff (key x) k).0 same in
        ground (
          arith,
          contains-unique_from seen xs k,
          contains-unique_from (key x ∷ seen) xs k,
          ap (contains seen) eq,
        )
    | inr other ↦
        ground (arith, contains-unique_from seen xs k, contains-unique_from (key x ∷ seen) xs k)
  ]

  pub Distinct-unique_from :
      (seen : List K) (xs : List A) → Distinct (map key (unique_from seen xs))
  unfolding unique_from
  Distinct-unique_from seen [] = tt
  Distinct-unique_from seen (x ∷ xs) = ground (
    arith,
    Distinct-unique_from seen xs,
    Distinct-unique_from (key x ∷ seen) xs,
    contains-unique_from (key x ∷ seen) xs (key x),
    eqb_refl (key x),
  )

  -- Only membership in `seen` matters.
  pub unique_from_congr :
      (s t : List K) (xs : List A)
      → ((k : K) → contains s k ≡ contains t k)
      → unique_from s xs ≡ unique_from t xs
  unfolding unique_from
  unique_from_congr s t [] h = refl
  unique_from_congr s t (x ∷ xs) h = ground (
    arith,
    h (key x),
    unique_from_congr s t xs h,
    unique_from_congr (key x ∷ s) (key x ∷ t) xs (λ k. ap (λ b. e.eqb (key x) k || b) (h k)),
  )

  contains-shift :
      (x : K) (xs s : List K) (k : K) → contains (xs ++ x ∷ s) k ≡ contains (x ∷ xs ++ s) k
  contains-shift x xs s k = ground (arith, contains-append xs (x ∷ s) k, contains-append xs s k)

  contains-seen_twice :
      (x : K) (xs s : List K)
      → contains s x ≡ true
      → (k : K) → contains (xs ++ s) k ≡ contains (x ∷ xs ++ s) k
  contains-seen_twice x xs s h k = elim (Bool-cases (e.eqb x k)) [
    | inl same ↦ ground (arith, contains-append xs s k, ap (contains s) ((e.eqb_iff x k).0 same))
    | inr other ↦ ground (arith, contains-append xs s k)
  ]

  pub unique_from-append :
      (seen : List K) (xs ys : List A)
      → unique_from seen (xs ++ ys) ≡ unique_from seen xs ++ unique_from (map key xs ++ seen) ys
  unfolding unique_from
  unique_from-append seen [] ys = refl
  unique_from-append seen (x ∷ xs) ys = elim (Bool-cases (contains seen (key x))) [
    | inl old ↦ rw (
      old,
      unique_from-append seen xs ys,
      unique_from_congr (map key xs ++ seen) (key x ∷ map key xs ++ seen) ys
          (contains-seen_twice (key x) (map key xs) seen old),
    )
    | inr fresh ↦ rw (
      fresh,
      unique_from-append (key x ∷ seen) xs ys,
      unique_from_congr (map key xs ++ key x ∷ seen) (key x ∷ map key xs ++ seen) ys
          (contains-shift (key x) (map key xs) seen),
    )
  ]

  -- Items whose keys are new and differ from one another all stay.
  pub unique_from-Distinct :
      (seen : List K) (xs : List A)
      → Distinct (map key xs)
      → Disjoint (map key xs) seen
      → unique_from seen xs ≡ xs
  unfolding unique_from
  unique_from-Distinct seen [] d h = refl
  unique_from-Distinct seen (x ∷ xs) (n, d) (m, h) =
      rw m (ap (λ l. x ∷ l) (unique_from-Distinct (key x ∷ seen) xs d (Disjoint-cons _ _ _ n h)))

-- `Array.from(new Set(xs))`
abbrev pub unique {ℓ} : {A : Type ℓ} ⦃e : HasEq A⦄ → List A → List A
unique xs = unique_from (λ x. x) [] xs

map_id {ℓ} : {A : Type ℓ} (xs : List A) → map (λ x. x) xs ≡ xs
map_id [] = refl
map_id (x ∷ xs) = ap (λ l. x ∷ l) (map_id xs)

module _ {ℓ} {A : Type ℓ} ⦃e : HasEq A⦄ where
  pub contains-unique : (xs : List A) (a : A) → contains (unique xs) a ≡ contains xs a
  contains-unique xs a =
      ap (λ l. contains l a) (sym (map_id (unique xs)))
      ∙ contains-unique_from (λ x. x) [] xs a
      ∙ ap (λ l. contains l a) (map_id xs)

  pub Distinct-unique : (xs : List A) → Distinct (unique xs)
  Distinct-unique xs = subst Distinct (map_id (unique xs)) (Distinct-unique_from (λ x. x) [] xs)
