-- ===== src/Sorting/Sorted.antt =====
-- The stable `sort` with a comparator of frontend/src/lib/utils/sort.utils.ts: sorted, the same
-- items, and items that compare as equal in their old order.
use mathlib.Core.List.Perm
use nns_dapp.Common.{
  ◌≡◌, refl, ◌∙◌, ap, inl, inr, Bool, true, List, [], ◌∷◌, nonpos, nonpos-neg, Bool-cases, arith,
  All, filter, Perm,
}
use nns_dapp.Sorting.{Comparator, insert_sorted, sort}
use nns_dapp.Sorting.Order.{Consistent}

module _ {A : Type 0} (c : Comparator A) where
  -- each item may stand before all that follow it
  abbrev pub IsSorted : List A → Type 0
  IsSorted [] = Unit
  IsSorted (x ∷ xs) = All (λ y. nonpos (c x y) ≡ true) xs × IsSorted xs

  All-map_imp : {P Q : A → Type 0} (xs : List A) → ((x : A) → P x → Q x) → All P xs → All Q xs
  All-map_imp [] f h = h
  All-map_imp (x ∷ xs) f (h, hs) = (f x h, All-map_imp xs f hs)

  All-insert_sorted :
      (P : A → Type 0) (x : A) (xs : List A) → P x → All P xs → All P (insert_sorted c x xs)
  unfolding insert_sorted
  All-insert_sorted P x [] h hs = (h, hs)
  All-insert_sorted P x (y ∷ ys) h (k, ks) = elim (Bool-cases (nonpos (c x y))) [
    | inl e ↦ rw e (h, (k, ks))
    | inr e ↦ rw e (k, All-insert_sorted P x ys h ks)
  ]

  insert-IsSorted :
      Consistent c → (x : A) (xs : List A) → IsSorted xs → IsSorted (insert_sorted c x xs)
  unfolding insert_sorted
  insert-IsSorted ok x [] h = (tt, tt)
  insert-IsSorted ok x (y ∷ ys) (h, hs) = elim (Bool-cases (nonpos (c x y))) [
    | inl e ↦ rw e ((e, All-map_imp ys (λ z k. ok.trans x y z e k) h), (h, hs))
    | inr e ↦ rw e (
      All-insert_sorted (λ z. nonpos (c y z) ≡ true) x ys
          (ap nonpos (ok.flip x y) ∙ nonpos-neg (c x y) e) h,
      insert-IsSorted ok x ys hs,
    )
  ]

  pub sort-IsSorted : Consistent c → (xs : List A) → IsSorted (sort c xs)
  unfolding sort
  sort-IsSorted ok [] = tt
  sort-IsSorted ok (x ∷ xs) = insert-IsSorted ok x (sort c xs) (sort-IsSorted ok xs)

  insert-Perm : (x : A) (xs : List A) → Perm (insert_sorted c x xs) (x ∷ xs)
  unfolding insert_sorted
  insert-Perm x [] = Perm.refl (x ∷ [])
  insert-Perm x (y ∷ ys) = elim (Bool-cases (nonpos (c x y))) [
    | inl e ↦ rw e (Perm.refl (x ∷ y ∷ ys))
    | inr e ↦ rw e (Perm.trans (Perm.cons y (insert-Perm x ys)) (Perm.swap x y ys))
  ]

  pub sort-Perm : (xs : List A) → Perm (sort c xs) xs
  unfolding sort
  sort-Perm [] = Perm.refl []
  sort-Perm (x ∷ xs) = Perm.trans (insert-Perm x (sort c xs)) (Perm.cons x (sort-Perm xs))

  -- what is sorted stays as it is
  pub sort-sorted : (xs : List A) → IsSorted xs → sort c xs ≡ xs
  unfolding sort insert_sorted
  sort-sorted [] h = refl
  sort-sorted (x ∷ []) h = refl
  sort-sorted (x ∷ y ∷ ys) ((h, hs), k) = rw (sort-sorted (y ∷ ys) k, h) refl

  -- a test that items pass alike with all that compare as equal to them
  pub record RespectsTies (p : A → Bool) : Type 0 where
    alike : (x y : A) → p x ≡ true → p y ≡ true → nonpos (c x y) ≡ true

  filter-insert_sorted :
      {p : A → Bool}
      → RespectsTies p
      → (x : A) (xs : List A) → filter p (insert_sorted c x xs) ≡ filter p (x ∷ xs)
  unfolding insert_sorted
  filter-insert_sorted t x [] = refl
  filter-insert_sorted {p} t x (y ∷ ys) =
      ground (arith, filter-insert_sorted {p = p} t x ys, t.alike x y)

  filter-sort : {p : A → Bool} → RespectsTies p → (xs : List A) → filter p (sort c xs) ≡ filter p xs
  unfolding sort
  filter-sort t [] = refl
  filter-sort {p} t (x ∷ xs) =
      filter-insert_sorted t x (sort c xs) ∙ ground (arith, filter-sort {p = p} t xs)
