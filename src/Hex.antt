-- ===== src/Hex.antt =====
-- frontend/src/lib/utils/utils.ts, `bytesToHexString` and `hexStringToBytes`, for bytes and for
-- texts of hexadecimal digits.
mod Tests
use Prim.Native.Char.{Char, code}
use Prim.Native.String
use Prim.Native.String.{char_at, ◌++◌ as ◌<>◌}
use text.Mathlib.TextLemmas.{nil-append, cons-append, append-nil, append_assoc}
use nns_dapp.Common.{
  ℕ, zero, suc, ◌+◌, ◌*◌, ◌-◌, ◌/◌, ◌%◌, ◌<◌, ◌≡◌, refl, sym, ap, ap₂, ◌∙◌, Bool, true, false, ◌&&◌,
  Option, none, some, List, [], ◌∷◌, map, String, All, leb, if◌then◌else◌, arith,
}

hex_digit : ℕ → Char
hex_digit n = char_at "0123456789abcdef" n

-- `byte.toString(16).padStart(2, "0")`
two_digits : ℕ → String
unfolding hex_digit
two_digits byte = String.◌∷◌ (hex_digit (byte / 16)) (String.◌∷◌ (hex_digit (byte % 16)) String.[])

bytes_to_hex_from : String → List ℕ → String
unfolding two_digits
bytes_to_hex_from str [] = str
bytes_to_hex_from str (byte ∷ bytes) = bytes_to_hex_from (str <> two_digits byte) bytes

unfoldable pub bytes_to_hex_string : List ℕ → String
unfolding bytes_to_hex_from
bytes_to_hex_string bytes = bytes_to_hex_from "" bytes

-- the value of a hexadecimal digit
hex_value : Char → Option ℕ
hex_value c =
    let n = code c in
    if leb 48 n && leb n 57
    then some (n - 48)
    else if leb 97 n && leb n 102
    then some (n - 87)
    else if leb 65 n && leb n 70
    then some (n - 55)
    else none

-- `parseInt` of two digits with base 16: what follows the first character that is no digit is left
-- out, and `none` stands for NaN
parse_two : Char → Char → Option ℕ
unfolding hex_value
parse_two c d = elim (hex_value c) [
  | none ↦ none
  | some m ↦ elim (hex_value d) [ none ↦ some m | some n ↦ some (16 * m + n) ]
]

pub hex_string_to_bytes : String → List (Option ℕ)
unfolding hex_value parse_two
hex_string_to_bytes String.[] = []
hex_string_to_bytes (String.◌∷◌ c String.[]) = hex_value c ∷ []
hex_string_to_bytes (String.◌∷◌ c (String.◌∷◌ d rest)) = parse_two c d ∷ hex_string_to_bytes rest

hex_value-digit : (n : ℕ) → n < 16 → hex_value (hex_digit n) ≡ some n
unfolding hex_value hex_digit
hex_value-digit zero h = refl
hex_value-digit (suc zero) h = refl
hex_value-digit (suc (suc zero)) h = refl
hex_value-digit (suc (suc (suc zero))) h = refl
hex_value-digit (suc (suc (suc (suc zero)))) h = refl
hex_value-digit (suc (suc (suc (suc (suc zero))))) h = refl
hex_value-digit (suc (suc (suc (suc (suc (suc zero)))))) h = refl
hex_value-digit (suc (suc (suc (suc (suc (suc (suc zero))))))) h = refl
hex_value-digit (suc (suc (suc (suc (suc (suc (suc (suc zero)))))))) h = refl
hex_value-digit (suc (suc (suc (suc (suc (suc (suc (suc (suc zero))))))))) h = refl
hex_value-digit (suc (suc (suc (suc (suc (suc (suc (suc (suc (suc zero)))))))))) h = refl
hex_value-digit (suc (suc (suc (suc (suc (suc (suc (suc (suc (suc (suc zero))))))))))) h = refl
hex_value-digit (suc (suc (suc (suc (suc (suc (suc (suc (suc (suc (suc (suc zero)))))))))))) h =
    refl
hex_value-digit (suc (suc (suc (suc (suc (suc (suc (suc (suc (suc (suc (suc (suc zero)))))))))))))
      h =
    refl
hex_value-digit
      (suc (suc (suc (suc (suc (suc (suc (suc (suc (suc (suc (suc (suc (suc zero)))))))))))))) h =
    refl
hex_value-digit
      (suc (suc (suc (suc (suc (suc (suc (suc (suc (suc (suc (suc (suc (suc (suc zero)))))))))))))))
      h =
    refl
hex_value-digit
      (suc
        (suc (suc (suc (suc (suc (suc (suc (suc (suc (suc (suc (suc (suc (suc (suc n))))))))))))))))
      h =
    absurd (omega arith)

parse-two_digits :
    (byte : ℕ) → byte < 256 → parse_two (hex_digit (byte / 16)) (hex_digit (byte % 16)) ≡ some byte
unfolding parse_two
parse-two_digits byte h =
    let high = hex_value-digit (byte / 16) (omega arith) in
    let low = hex_value-digit (byte % 16) (omega arith) in ground (arith, high, low)

bytes_to_hex_from-append :
    (str : String) (bytes : List ℕ)
    → bytes_to_hex_from str bytes ≡ str <> bytes_to_hex_from "" bytes
unfolding bytes_to_hex_from
bytes_to_hex_from-append str [] = sym (append-nil str)
bytes_to_hex_from-append str (byte ∷ bytes) =
    bytes_to_hex_from-append (str <> two_digits byte) bytes
    ∙ append_assoc str (two_digits byte) (bytes_to_hex_from "" bytes)
    ∙ ap (λ t. str <> t)
        (sym (bytes_to_hex_from-append (two_digits byte) bytes)
          ∙ ap (λ t. bytes_to_hex_from t bytes) (sym (nil-append (two_digits byte))))

bytes_to_hex_from-cons :
    (byte : ℕ) (bytes : List ℕ)
    → bytes_to_hex_from "" (byte ∷ bytes)
      ≡ String.◌∷◌
          (hex_digit (byte / 16))
          (String.◌∷◌ (hex_digit (byte % 16)) (bytes_to_hex_from "" bytes))
unfolding bytes_to_hex_from two_digits
bytes_to_hex_from-cons byte bytes =
    let rest = bytes_to_hex_from "" bytes in
    let c = hex_digit (byte / 16) in
    let d = hex_digit (byte % 16) in
    ap (λ t. bytes_to_hex_from t bytes) (nil-append (two_digits byte))
    ∙ bytes_to_hex_from-append (two_digits byte) bytes
    ∙ cons-append c (String.◌∷◌ d String.[]) rest
    ∙ ap (String.◌∷◌ c) (cons-append d String.[] rest ∙ ap (String.◌∷◌ d) (nil-append rest))

-- The bytes of a list can be read back from its text.
pub hex_string_to_bytes-bytes_to_hex_string :
    (bytes : List ℕ)
    → All (λ byte. byte < 256) bytes
    → hex_string_to_bytes (bytes_to_hex_string bytes) ≡ map some bytes
unfolding bytes_to_hex_string hex_string_to_bytes bytes_to_hex_from
hex_string_to_bytes-bytes_to_hex_string [] h = refl
hex_string_to_bytes-bytes_to_hex_string (byte ∷ bytes) (h, hs) =
    ap hex_string_to_bytes (bytes_to_hex_from-cons byte bytes)
    ∙ ap₂ (λ v vs. v ∷ vs) (parse-two_digits byte h)
        (hex_string_to_bytes-bytes_to_hex_string bytes hs)

map-some-injective : (xs ys : List ℕ) → map some xs ≡ map some ys → xs ≡ ys
map-some-injective [] [] e = refl
map-some-injective [] (y ∷ ys) e = cc
map-some-injective (x ∷ xs) [] e = cc
map-some-injective (x ∷ xs) (y ∷ ys) e =
    let head : x ≡ y = cc in ap₂ (λ z zs. z ∷ zs) head (map-some-injective xs ys cc)

-- different lists of bytes have different texts
pub bytes_to_hex_string-injective :
    (xs ys : List ℕ)
    → All (λ byte. byte < 256) xs
    → All (λ byte. byte < 256) ys
    → bytes_to_hex_string xs ≡ bytes_to_hex_string ys
    → xs ≡ ys
bytes_to_hex_string-injective xs ys h k e = map-some-injective xs ys (
    sym (hex_string_to_bytes-bytes_to_hex_string xs h)
    ∙ ap hex_string_to_bytes e
    ∙ hex_string_to_bytes-bytes_to_hex_string ys k)
