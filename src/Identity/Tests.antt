-- ===== src/Identity/Tests.antt =====
-- Hexadecimal texts at concrete inputs.
use hey_capsule.Prelude.{◌≡◌, refl, [], ◌∷◌, ◌++◌, codes, ok, err, arith}
use hey_capsule.Identity.Hex.{
  HexError, panicked, bytes_to_hex, hex_digit, hex_to_bytes, hex_pairs, from_str_radix, to_digit,
  hex_to_bytes-bytes_to_hex, hex_to_bytes_panics,
}

program : Unit {0}
unfolding bytes_to_hex hex_digit hex_to_bytes hex_pairs from_str_radix to_digit
program = tt

two_bytes : bytes_to_hex (255 ∷ 10 ∷ []) ≡ codes "ff0a"
unfolding program
two_bytes = refl

odd_text : hex_to_bytes (codes "abc") ≡ err HexError.odd_length
unfolding program
odd_text = refl

hex_to_bytes-bytes_to_hex_example : hex_to_bytes (bytes_to_hex (7 ∷ 255 ∷ [])) ≡ ok (7 ∷ 255 ∷ [])
hex_to_bytes-bytes_to_hex_example =
    hex_to_bytes-bytes_to_hex (7 ∷ 255 ∷ []) (omega arith, (omega arith, tt))

-- "0a", then an ASCII letter, the two bytes of "é" and another letter.
hex_to_bytes_panics_example :
    hex_to_bytes (bytes_to_hex (10 ∷ []) ++ (b'a' ∷ 195 ∷ 169 ∷ b'b' ∷ [])) ≡ err panicked
hex_to_bytes_panics_example =
    hex_to_bytes_panics (10 ∷ []) b'a' 195 169 (b'b' ∷ []) (omega arith, tt) refl refl refl
