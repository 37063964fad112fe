-- ===== src/SnsProposals/Unchecked.antt =====
-- frontend/src/lib/utils/sns-proposals.utils.ts, `getCheckedState` of
-- `generateSnsProposalTypesFilterData`: the first entry with an id decides.
use nns_dapp.Common.{
  ◌≡◌, ◌≢◌, All, sym, refl, ap, false, List, [], ◌∷◌, ◌++◌, String, string_has_eq, nat_has_eq, ◌==◌,
  arith, inl, inr, Bool-cases, eq_of_eqb, eqb_refl,
}
use nns_dapp.SnsProposals.{Filter, get_checked_state}

-- the first entry with the id is there and is not checked
abbrev pub TurnedOff : List Filter → String → Type 0
TurnedOff state id =
    (before : List Filter) × (e : Filter) × (after : List Filter) × (state ≡ before ++ e ∷ after)
    × All (λ (f : Filter). f.id ≢ id) before
    × (e.id ≡ id)
    × (e.checked ≡ false)

pub unchecked-get :
    (state : List Filter) (id : String) → get_checked_state state id ≡ false → TurnedOff state id
unchecked-get [] id h = cc
unchecked-get (f ∷ fs) id h = elim (Bool-cases (id == f.id)) [
  | inl same ↦ ([], f, fs, refl, tt, sym (eq_of_eqb id f.id same), ground (arith, h, same))
  | inr other ↦
      let (before, e, after, eq, others, own, off) =
        unchecked-get fs id (ground (arith, h, other)) in
      (
        f ∷ before,
        e,
        after,
        ap (λ l. f ∷ l) eq,
        (λ s. ground (arith, other, eqb_refl id, ap (λ u. id == u) s), others),
        own,
        off,
      )
]

pub get-unchecked :
    (before : List Filter) (e : Filter) (after : List Filter) (id : String)
    → All (λ (f : Filter). f.id ≢ id) before
    → e.id ≡ id
    → e.checked ≡ false
    → get_checked_state (before ++ e ∷ after) id ≡ false
get-unchecked [] e after id others own off = ground (arith, off, eqb_refl id, ap (λ u. id == u) own)
get-unchecked (f ∷ fs) e after id (other, others) own off = elim (Bool-cases (id == f.id)) [
  | inl same ↦ absurd (other (sym (eq_of_eqb id f.id same)))
  | inr differs ↦ ground (arith, differs, get-unchecked fs e after id others own off)
]
