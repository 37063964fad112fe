-- ===== src/Common/Text.antt =====
-- `String(n)` of a bigint that is not negative, `join`, and the order of strings.
use Prim.Native.Nat.{ℕ, zero, suc, ◌+◌, ◌≤◌, ◌<◌, ◌/◌, ◌%◌, Ordering}
use Prim.Native.String.{String, ◌++◌, compare, slice, count, len}
use mathlib.Core.Path.{◌≡◌, refl, sym, ap, ◌∙◌}
use mathlib.Core.Logic.{◌≢◌, inl, inr}
use native.Mathlib.Omega.{arith}
use mathlib.Core.Bool.{Bool, true, false, ◌||◌}
use mathlib.Core.List.{List, [], ◌∷◌}
use text.Mathlib.Text.{◌==◌}
use text.Mathlib.TextLemmas.{nil-append, append_inj, length-append}
use nns_dapp.Common.Tests.{ltb, if◌then◌else◌, Bool-cases}

digit : ℕ → String
digit n = slice "0123456789" n (suc n)

decimal_from : ℕ → ℕ → String
unfolding digit
decimal_from zero n = digit (n % 10)
decimal_from (suc fuel) n =
    let rest = decimal_from fuel (n / 10) in if ltb n 10 then digit n else rest ++ digit (n % 10)

-- A fuel of the number itself is enough: more of it gives the same text.
decimal_from-enough : (fuel n : ℕ) → n ≤ fuel → decimal_from (suc fuel) n ≡ decimal_from fuel n
unfolding decimal_from
decimal_from-enough zero n le = let none : n ≡ 0 = omega arith in rw none refl
decimal_from-enough (suc fuel) n le = elim (Bool-cases (ltb n 10)) [
  | inl small ↦ rw small refl
  | inr large ↦
      let some_left : 10 ≤ n = ground arith in
      rw large (ap (λ t. t ++ digit (n % 10)) (decimal_from-enough fuel (n / 10) (omega arith)))
]

unfoldable pub decimal : ℕ → String
unfolding decimal_from
decimal n = decimal_from n n

-- a digit is one character, and not the letter "s"
digit_alone : (d : ℕ) → d < 10 → (count (digit d) ≡ 1) × (digit d ≢ "s")
unfolding digit
digit_alone zero h = (refl, λ e. cc (ap (λ t. t == "s") e))
digit_alone (suc zero) h = (refl, λ e. cc (ap (λ t. t == "s") e))
digit_alone (suc (suc zero)) h = (refl, λ e. cc (ap (λ t. t == "s") e))
digit_alone (suc (suc (suc zero))) h = (refl, λ e. cc (ap (λ t. t == "s") e))
digit_alone (suc (suc (suc (suc zero)))) h = (refl, λ e. cc (ap (λ t. t == "s") e))
digit_alone (suc (suc (suc (suc (suc zero))))) h = (refl, λ e. cc (ap (λ t. t == "s") e))
digit_alone (suc (suc (suc (suc (suc (suc zero)))))) h = (refl, λ e. cc (ap (λ t. t == "s") e))
digit_alone (suc (suc (suc (suc (suc (suc (suc zero))))))) h =
    (refl, λ e. cc (ap (λ t. t == "s") e))
digit_alone (suc (suc (suc (suc (suc (suc (suc (suc zero)))))))) h =
    (refl, λ e. cc (ap (λ t. t == "s") e))
digit_alone (suc (suc (suc (suc (suc (suc (suc (suc (suc zero))))))))) h =
    (refl, λ e. cc (ap (λ t. t == "s") e))
digit_alone (suc (suc (suc (suc (suc (suc (suc (suc (suc (suc n)))))))))) h = absurd (omega arith)

decimal_from-last :
    (fuel n : ℕ)
    → (before : String) × (d : ℕ) × (d < 10) × (decimal_from fuel n ≡ before ++ digit d)
unfolding decimal_from
decimal_from-last zero n = ("", n % 10, omega arith, sym (nil-append (digit (n % 10))))
decimal_from-last (suc fuel) n = elim (Bool-cases (ltb n 10)) [
  | inl small ↦ ("", n, ground arith, rw small (sym (nil-append (digit n))))
  | inr large ↦ (decimal_from fuel (n / 10), n % 10, omega arith, rw large refl)
]

-- no number has a text that ends in "s"
pub decimal-ne-word : (n : ℕ) (word : String) → decimal n ≢ word ++ "s"
unfolding decimal
decimal-ne-word n word e =
    let (before, d, small, last) = decimal_from-last n n in
    let same = sym last ∙ e in
    let (one, no_s) = digit_alone d small in
    let lengths : count before ≡ count word =
      omega (
        arith,
        length-append before (digit d),
        length-append word "s",
        ap count same,
        one,
        one_s,
      ) in
    no_s (append_inj {s₁ = before} {s₂ = word} same lengths).1
  where
    one_s : count "s" ≡ 1
    one_s = refl

abbrev pub join : List String → String
join [] = ""
join (t ∷ []) = t
join (t ∷ u ∷ ts) = t ++ "," ++ join (u ∷ ts)

-- `s < t`
abbrev pub text_ltb : String → String → Bool
text_ltb s t = elim (compare s t) [ Ordering.lt ↦ true | _ ↦ false ]

decimal_of_120 : decimal 120 ≡ "120"
unfolding decimal
decimal_of_120 = refl

-- whether the text occurs from one of the first `n` positions on, in bytes
occurs : ℕ → String → String → Bool
occurs zero message text = false
occurs (suc n) message text = (slice message n (n + len text) == text) || occurs n message text

-- `message.includes(text)`
unfoldable pub includes : String → String → Bool
unfolding occurs
includes message text = occurs (len message + 1) message text
