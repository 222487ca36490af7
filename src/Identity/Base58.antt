-- ===== src/Identity/Base58.antt =====
-- Base58 and did:key (capsules/hey-core/src/identity.rs). Texts are ASCII. The encoder divides a
-- number in base 256 by 58 until nothing is left of it: two rounds for a byte are enough, and `none`
-- is to run out of them. The decoder's carry is a `u32`, so it is pushed out in at most four bytes.
pub mod Digits
pub mod Encoding
pub mod Decoding
pub mod DidKey
mod Tests
use hey_capsule.Prelude.{
  ℕ, zero, suc, ◌+◌, ◌*◌, ◌/◌, ◌%◌, Bool, true, false, ◌&&◌, ◌||◌, not, Option, none, some, List,
  [], ◌∷◌, ◌++◌, Text, codes, strip_prefix, option_map, length, replicate, get_or, is_empty, leb,
  ◌==◌, if◌then◌else◌, Result, ok, err, ◌>>=◌, ok_or,
}

pub data DidError : Type 0 where
  not_did_key invalid_char not_ed25519 : DidError

abbrev pub base58_alphabet : Text
base58_alphabet = codes "123456789ABCDEFGHJKLMNPQRSTUVWXYZabcdefghijkmnopqrstuvwxyz"

-- One division of `remainder` and the digits by 58: the quotient's digits and the remainder.
unfoldable pub divide : ℕ → List ℕ → List ℕ × ℕ
divide remainder [] = ([], remainder)
divide remainder (d ∷ ds) =
    let cur = remainder * 256 + d in let rest = divide (cur % 58) ds in (cur / 58 ∷ rest.0, rest.1)

-- `digits[new_start..]`.
unfoldable pub strip_zeros : List ℕ → List ℕ
strip_zeros [] = []
strip_zeros (d ∷ ds) = if d == 0 then strip_zeros ds else d ∷ ds

-- The digits in base 58, the last first.
unfoldable pub encode_loop : ℕ → List ℕ → Option (List ℕ)
encode_loop rounds [] = some []
encode_loop zero (d ∷ ds) = none
encode_loop (suc rounds) (d ∷ ds) =
    let r = divide 0 (d ∷ ds) in
    option_map (λ out. r.1 ∷ out) (encode_loop rounds (strip_zeros r.0))

unfoldable pub reverse : List ℕ → List ℕ
reverse [] = []
reverse (x ∷ xs) = reverse xs ++ (x ∷ [])

-- How many elements at the start are `c`.
unfoldable pub leading : ℕ → List ℕ → ℕ
leading c [] = 0
leading c (x ∷ xs) = if x == c then suc (leading c xs) else 0

abbrev pub base58_char : ℕ → ℕ
base58_char digit = get_or base58_alphabet digit 0

unfoldable pub chars : List ℕ → Text
chars [] = []
chars (d ∷ ds) = base58_char d ∷ chars ds

unfoldable pub base58_encode : List ℕ → Option Text
base58_encode buf =
    option_map (λ out. reverse (chars out ++ replicate (leading 0 buf) b'1'))
      (encode_loop (length buf + length buf) buf)

-- `table`: where a character stands in the alphabet.
unfoldable pub index_of : ℕ → ℕ → Text → Option ℕ
index_of i c [] = none
index_of i c (x ∷ xs) = if x == c then some i else index_of (suc i) c xs

unfoldable pub digit_of : ℕ → Option ℕ
digit_of c = if leb 128 c then none else index_of 0 c base58_alphabet

-- `acc * 58 + digit` on the bytes that are there, from the last on, and the carry.
unfoldable pub mul_add : List ℕ → ℕ → List ℕ × ℕ
mul_add [] carry = ([], carry)
mul_add (d ∷ ds) carry =
    let rest = mul_add ds carry in let v = d * 58 + rest.1 in (v % 256 ∷ rest.0, v / 256)

unfoldable pub push_carry : ℕ → ℕ → List ℕ → List ℕ
push_carry zero carry acc = acc
push_carry (suc bytes) carry acc =
    let pushed = push_carry bytes (carry / 256) (carry % 256 ∷ acc) in
    if carry == 0 then acc else pushed

unfoldable pub decode_step : List ℕ → ℕ → List ℕ
decode_step acc digit = let r = mul_add acc digit in push_carry 4 r.1 r.0

unfoldable pub decode_loop : List ℕ → Text → Result DidError (List ℕ)
decode_loop acc [] = ok acc
decode_loop acc (c ∷ s) = do
  digit ← ok_or (digit_of c) invalid_char
  decode_loop (decode_step acc digit) s

unfoldable pub base58_decode : Text → Result DidError (List ℕ)
base58_decode s = do acc ← decode_loop [] s; ok (replicate (leading b'1' s) 0 ++ acc)

abbrev pub did_prefix : Text
did_prefix = codes "did:key:z"

unfoldable pub public_key_to_did_key : List ℕ → Option Text
public_key_to_did_key public_key =
    option_map (λ encoded. did_prefix ++ encoded) (base58_encode (237 ∷ 1 ∷ public_key))

-- The 34 bytes of an Ed25519 key behind its multicodec.
unfoldable pub key_of : List ℕ → Result DidError (List ℕ)
key_of (a ∷ b ∷ pk) = if length pk == 32 && a == 237 && b == 1 then ok pk else err not_ed25519
key_of (a ∷ []) = err not_ed25519
key_of [] = err not_ed25519

unfoldable pub did_key_to_public_key : Text → Result DidError (List ℕ)
did_key_to_public_key did_key = do
  s ← ok_or (strip_prefix did_prefix did_key) not_did_key
  bytes ← base58_decode s
  key_of bytes
