-- ===== src/Hex/Tests.antt =====
-- The text of three bytes, and the theorem at it.
use nns_dapp.Common.{◌≡◌, refl, some, [], ◌∷◌, map, arith}
use nns_dapp.Hex.{bytes_to_hex_string, hex_string_to_bytes, hex_string_to_bytes-bytes_to_hex_string}

text-example : bytes_to_hex_string (0 ∷ 15 ∷ 171 ∷ []) ≡ "000fab"
unfolding bytes_to_hex_string
text-example = refl

hex_string_to_bytes-bytes_to_hex_string_example :
    hex_string_to_bytes (bytes_to_hex_string (0 ∷ 15 ∷ 171 ∷ [])) ≡ map some (0 ∷ 15 ∷ 171 ∷ [])
hex_string_to_bytes-bytes_to_hex_string_example =
    hex_string_to_bytes-bytes_to_hex_string (0 ∷ 15 ∷ 171 ∷ [])
      (omega arith, (omega arith, (omega arith, tt)))
