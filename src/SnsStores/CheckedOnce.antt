-- ===== src/SnsStores/CheckedOnce.antt =====
-- frontend/src/lib/stores/checked-neurons.store.ts: a subaccount is reported as added once.
use nns_dapp.Common.{
  ◌≡◌, refl, sym, ◌∙◌, ap₂, inl, inr, eq_of_eqb, string_has_eq, Bool, true, false, not, ◌==◌, ◌&&◌,
  ◌||◌, List, [], ◌∷◌, String, get_or_else, lookup, insert, lookup-insert, Bool-cases, arith,
}
use nns_dapp.SnsStores.{Checked, is_present, add_subaccount}

is_present-insert :
    (u h v k : String) (s : Checked)
    → is_present v k (insert u (insert h true (get_or_else (lookup u s) [])) s)
      ≡ ((u == v && h == k) || is_present v k s)
unfolding is_present
is_present-insert u h v k s =
    rw (lookup-insert u v (insert h true (get_or_else (lookup u s) [])) s)
      elim (Bool-cases (u == v)) [
        | inr apart ↦ rw apart
        | inl same ↦
            let equal : u ≡ v = eq_of_eqb u v same in
            rw (same, ← equal, lookup-insert h k true (get_or_else (lookup u s) []))
              elim (Bool-cases (h == k)) [ inl e ↦ rw e | inr e ↦ rw e ]
      ]

is_present-same :
    (u h v k : String) (s : Checked)
    → (u == v && h == k) ≡ true
    → is_present u h s ≡ true
    → is_present v k s ≡ true
is_present-same u h v k s same old =
    let first : (u == v) ≡ true = ground arith in
    let second : (h == k) ≡ true = ground arith in
    ap₂ (λ a b. is_present a b s) (sym (eq_of_eqb u v first)) (sym (eq_of_eqb h k second)) ∙ old

is_present-add_subaccount :
    (u h v k : String) (s : Checked)
    → is_present v k (add_subaccount u h s).1 ≡ ((u == v && h == k) || is_present v k s)
unfolding add_subaccount
is_present-add_subaccount u h v k s = elim (Bool-cases (is_present u h s)) [
  | inr new ↦ rw new (is_present-insert u h v k s)
  | inl old ↦ rw old elim (Bool-cases (u == v && h == k)) [
    | inr apart ↦ rw apart
    | inl same ↦ rw same (is_present-same u h v k s same old)
  ]
]

-- the state after calls of `addSubaccount`
pub after : List (String × String) → Checked → Checked
unfolding add_subaccount
after [] s = s
after ((u, h) ∷ calls) s = after calls (add_subaccount u h s).1

pub was_called : String → String → List (String × String) → Bool
was_called v k [] = false
was_called v k ((u, h) ∷ calls) = (u == v && h == k) || was_called v k calls

is_present-after :
    (v k : String) (calls : List (String × String)) (s : Checked)
    → is_present v k (after calls s) ≡ (was_called v k calls || is_present v k s)
unfolding after was_called
is_present-after v k [] s = refl
is_present-after v k ((u, h) ∷ calls) s =
    is_present-after v k calls (add_subaccount u h s).1
    ∙ ground (arith, is_present-add_subaccount u h v k s)

-- After any calls, `addSubaccount` reports a subaccount of a universe as added if and only if no
-- call before was for it and it was not in the store at the start.
pub add_subaccount-first :
    (v k : String) (calls : List (String × String)) (s : Checked)
    → (add_subaccount v k (after calls s)).0 ≡ not (was_called v k calls || is_present v k s)
unfolding add_subaccount
add_subaccount-first v k calls s = ground (arith, is_present-after v k calls s)
