-- ===== src/Common/Objects.antt =====
-- Plain objects used as maps, `Record<string, V>`: entries in insertion order.
use mathlib.Core.Path.{◌≡◌, refl, ap}
use mathlib.Core.Logic.{inl, inr}
use mathlib.Core.Option.{Option, none, some}
use mathlib.Core.List.{List, [], ◌∷◌}
use native.Mathlib.Omega.{arith}
use nns_dapp.Common.Tests.{if◌then◌else◌, Bool-cases}
use nns_dapp.Common.Equality.{HasEq}
use nns_dapp.Common.Arrays.{contains}

module _ {ℓ κ} {K : Type κ} {V : Type ℓ} ⦃e : HasEq K⦄ where
  -- `obj[k]`
  abbrev pub lookup : K → List (K × V) → Option V
  lookup k [] = none
  lookup k ((j, v) ∷ m) = if e.eqb j k then some v else lookup k m

  -- `{ ...obj, [k]: v }`
  abbrev pub insert : K → V → List (K × V) → List (K × V)
  insert k v [] = (k, v) ∷ []
  insert k v ((j, w) ∷ m) = if e.eqb j k then (j, v) ∷ m else (j, w) ∷ insert k v m

  pub lookup-insert :
      (k j : K) (v : V) (m : List (K × V))
      → lookup j (insert k v m) ≡ (if e.eqb k j then some v else lookup j m)
  lookup-insert k j v [] = refl
  lookup-insert k j v ((i, w) ∷ m) =
      ground (arith, e.eqb_iff k j, e.eqb_iff i k, e.eqb_iff i j, lookup-insert k j v m)

  -- `removeKeys`
  unfoldable pub remove_keys : List K → List (K × V) → List (K × V)
  remove_keys ks [] = []
  remove_keys ks ((j, v) ∷ m) =
      if contains ks j then remove_keys ks m else (j, v) ∷ remove_keys ks m

  pub lookup-remove_keys :
      (ks : List K) (k : K) (m : List (K × V))
      → lookup k (remove_keys ks m) ≡ (if contains ks k then none else lookup k m)
  unfolding remove_keys
  lookup-remove_keys ks k [] = ground arith
  lookup-remove_keys ks k ((j, v) ∷ m) = elim (Bool-cases (e.eqb j k)) [
    | inl same ↦
        ground (arith, lookup-remove_keys ks k m, ap (contains ks) ((e.eqb_iff j k).0 same))
    | inr other ↦ ground (arith, lookup-remove_keys ks k m)
  ]
