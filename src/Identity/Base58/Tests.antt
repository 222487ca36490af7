-- ===== src/Identity/Base58/Tests.antt =====
-- Base58 on small inputs.
use hey_capsule.Prelude.{
  ℕ, ◌≡◌, refl, some, List, [], ◌∷◌, ◌++◌, Text, codes, replicate, ok, arith, All,
}
use hey_capsule.Identity.Hex.{IsByte}
use hey_capsule.Identity.Base58.{
  base58_encode, base58_decode, public_key_to_did_key, did_key_to_public_key, chars, decode_loop,
  decode_step, digit_of, divide, encode_loop, index_of, leading, mul_add, push_carry, reverse,
  strip_zeros,
}
use hey_capsule.Identity.Base58.Encoding.{base58_encode-ends}
use hey_capsule.Identity.Base58.DidKey.{did_key_to_public_key-public_key_to_did_key}

encoded : base58_encode (1 ∷ 2 ∷ 255 ∷ []) ≡ some (codes "LiA")
unfolding base58_encode encode_loop strip_zeros divide reverse chars leading
encoded = refl

-- One zero byte is written as two ones, which decode to two bytes.
zero_byte : base58_encode (0 ∷ []) ≡ some (codes "11")
unfolding base58_encode encode_loop strip_zeros divide reverse chars leading
zero_byte = refl

two_zeros : base58_decode (codes "11") ≡ ok (0 ∷ 0 ∷ [])
unfolding base58_decode decode_loop digit_of index_of leading decode_step push_carry mul_add
two_zeros = refl

abbrev key : List ℕ
key = replicate 31 7 ++ (200 ∷ [])

key_bytes : All IsByte key
key_bytes = ground arith

base58_encode-ends_example : (t : Text) × (base58_encode (0 ∷ 255 ∷ 3 ∷ []) ≡ some t)
base58_encode-ends_example =
    base58_encode-ends (0 ∷ 255 ∷ 3 ∷ []) (omega arith, (omega arith, (omega arith, tt)))

did_key_to_public_key-public_key_to_did_key_example :
    (did : Text) × (public_key_to_did_key key ≡ some did) × (did_key_to_public_key did ≡ ok key)
did_key_to_public_key-public_key_to_did_key_example =
    did_key_to_public_key-public_key_to_did_key key (record { bytes = key_bytes; size = refl })
