-- ===== src/Identity/Hex.antt =====
-- Bytes as hexadecimal text: `bytes_to_hex` and `hex_to_bytes` of
-- capsules/hey-core/src/identity.rs, and `seed32` of capsules/hey-core/src/api/dms.rs.
-- A text is its UTF-8 bytes. `&hex[i..i + 2]` panics where `i` or `i + 2` falls inside a
-- character, that is, where a continuation byte stands.
use hey_capsule.Prelude.{
  ℕ, ◌+◌, ◌-◌, ◌*◌, ◌/◌, ◌%◌, ◌≤◌, ◌<◌, ◌≡◌, refl, ◌≢◌, length-append, Bool, true, false, ◌&&◌,
  Option, none, some, List, [], ◌∷◌, ◌++◌, Text, All, Result, ok, err, ◌>>=◌, ok_or, length, leb,
  ltb, ◌==◌, if◌then◌else◌, arith,
}

pub data HexError : Type 0 where
  odd_length invalid_hex wrong_size panicked : HexError

-- A byte of UTF-8 that continues a character.
abbrev pub is_continuation : ℕ → Bool
is_continuation c = leb 128 c && ltb c 192

abbrev pub on_boundary : Text → Bool
on_boundary [] = true
on_boundary (c ∷ s) = if is_continuation c then false else true

-- One digit of `{:02x}`.
unfoldable pub hex_digit : ℕ → ℕ
hex_digit n = if ltb n 10 then n + 48 else n + 87

unfoldable pub bytes_to_hex : List ℕ → Text
bytes_to_hex [] = []
bytes_to_hex (b ∷ bs) = hex_digit (b / 16) ∷ hex_digit (b % 16) ∷ bytes_to_hex bs

-- `char::to_digit(16)`.
unfoldable pub to_digit : ℕ → Option ℕ
to_digit c =
    if leb 48 c && leb c 57
    then some (c - 48)
    else if leb 97 c && leb c 102
    then some (c - 87)
    else if leb 65 c && leb c 70
    then some (c - 55)
    else none

-- `u8::from_str_radix(.., 16)` on two characters: a leading `+` is a sign.
unfoldable pub from_str_radix : ℕ → ℕ → Option ℕ
from_str_radix a b = if a == b'+' then to_digit b else (elim (to_digit a) [
  | none ↦ none
  | some x ↦ elim (to_digit b) [ none ↦ none | some y ↦ some (16 * x + y) ]
])

-- The loop over the pairs of a text of even length.
unfoldable pub hex_pairs : Text → Result HexError (List ℕ)
hex_pairs [] = ok []
hex_pairs (a ∷ []) = err odd_length
hex_pairs (a ∷ b ∷ s) =
    if on_boundary (a ∷ []) && on_boundary s
    then (do byte ← ok_or (from_str_radix a b) invalid_hex; bytes ← hex_pairs s; ok (byte ∷ bytes))
    else err panicked

unfoldable pub hex_to_bytes : Text → Result HexError (List ℕ)
hex_to_bytes hex = if length hex % 2 == 0 then hex_pairs hex else err odd_length

unfoldable pub seed32 : Text → Result HexError (List ℕ)
seed32 hex = do v ← hex_to_bytes hex; if length v == 32 then ok v else err wrong_size

abbrev pub IsByte : ℕ → Type 0
IsByte b = b < 256

-- A key of 32 bytes.
pub record IsKey (k : List ℕ) : Type 0 where
  pub bytes : All IsByte k
  pub size : length k ≡ 32

to_digit-hex_digit : (n : ℕ) → n < 16 → to_digit (hex_digit n) ≡ some n
unfolding to_digit hex_digit
to_digit-hex_digit n h = ground arith

pub hex_digit_bounds : (n : ℕ) → n < 16 → (48 ≤ hex_digit n) × (hex_digit n < 128)
unfolding hex_digit
hex_digit_bounds n h = ground arith

from_str_radix-hex_digit :
    (b : ℕ) → b < 256 → from_str_radix (hex_digit (b / 16)) (hex_digit (b % 16)) ≡ some b
unfolding from_str_radix
from_str_radix-hex_digit b h = ground (
  arith,
  to_digit-hex_digit (b / 16) (omega arith),
  to_digit-hex_digit (b % 16) (omega arith),
  hex_digit_bounds (b / 16) (omega arith),
  hex_digit_bounds (b % 16) (omega arith),
)

on_boundary-bytes_to_hex : (bs : List ℕ) → All IsByte bs → on_boundary (bytes_to_hex bs) ≡ true
unfolding bytes_to_hex
on_boundary-bytes_to_hex [] h = refl
on_boundary-bytes_to_hex (b ∷ bs) h = ground (arith, hex_digit_bounds (b / 16) (omega arith))

hex_pairs-bytes_to_hex : (bs : List ℕ) → All IsByte bs → hex_pairs (bytes_to_hex bs) ≡ ok bs
unfolding hex_pairs bytes_to_hex
hex_pairs-bytes_to_hex [] h = refl
hex_pairs-bytes_to_hex (b ∷ bs) h = ground (
  arith,
  on_boundary-bytes_to_hex bs h.1,
  hex_digit_bounds (b / 16) (omega arith),
  from_str_radix-hex_digit b h.0,
  hex_pairs-bytes_to_hex bs h.1,
)

length-bytes_to_hex : (bs : List ℕ) → length (bytes_to_hex bs) ≡ 2 * length bs
unfolding bytes_to_hex
length-bytes_to_hex [] = refl
length-bytes_to_hex (b ∷ bs) = omega (arith, length-bytes_to_hex bs)

-- Bytes survive their hexadecimal form.
pub hex_to_bytes-bytes_to_hex :
    (bs : List ℕ) → All IsByte bs → hex_to_bytes (bytes_to_hex bs) ≡ ok bs
unfolding hex_to_bytes
hex_to_bytes-bytes_to_hex bs h = ground (arith, hex_pairs-bytes_to_hex bs h, length-bytes_to_hex bs)

pub seed32-bytes_to_hex : (k : List ℕ) → IsKey k → seed32 (bytes_to_hex k) ≡ ok k
unfolding seed32
seed32-bytes_to_hex k h = rw (hex_to_bytes-bytes_to_hex k h.bytes) (ground (arith, h.size))

hex_pairs_ascii : (s : Text) → All (λ c. c < 128) s → hex_pairs s ≢ err panicked
unfolding hex_pairs
hex_pairs_ascii [] h e = cc
hex_pairs_ascii (a ∷ []) h e = cc
hex_pairs_ascii (a ∷ b ∷ []) h e = ground arith
hex_pairs_ascii (a ∷ b ∷ c ∷ s) h e = ground (arith, hex_pairs_ascii (c ∷ s) h.1.1)

-- ASCII text is decoded or refused, and never makes `hex_to_bytes` panic.
pub hex_to_bytes_ascii : (s : Text) → All (λ c. c < 128) s → hex_to_bytes s ≢ err panicked
unfolding hex_to_bytes
hex_to_bytes_ascii s h e = ground (arith, hex_pairs_ascii s h)

hex_pairs_panics :
    (bs : List ℕ) (a b c : ℕ) (s : Text)
    → All IsByte bs
    → is_continuation a ≡ false
    → is_continuation c ≡ true
    → hex_pairs (bytes_to_hex bs ++ (a ∷ b ∷ c ∷ s)) ≡ err panicked
unfolding hex_pairs bytes_to_hex
hex_pairs_panics [] a b c s h lead inner = ground arith
hex_pairs_panics (x ∷ []) a b c s h lead inner = ground (
  arith,
  hex_digit_bounds (x / 16) (omega arith),
  from_str_radix-hex_digit x h.0,
  hex_pairs_panics [] a b c s tt lead inner,
)
hex_pairs_panics (x ∷ y ∷ bs) a b c s h lead inner = ground (
  arith,
  hex_digit_bounds (x / 16) (omega arith),
  hex_digit_bounds (y / 16) (omega arith),
  from_str_radix-hex_digit x h.0,
  hex_pairs_panics (y ∷ bs) a b c s h.1 lead inner,
)

-- A text of even length that begins with lower-case digits as `bytes_to_hex` writes them, and goes on
-- with a character of several bytes that spans the end of a pair, makes `hex_to_bytes` panic.
pub hex_to_bytes_panics :
    (bs : List ℕ) (a b c : ℕ) (s : Text)
    → All IsByte bs
    → is_continuation a ≡ false
    → is_continuation c ≡ true
    → length s % 2 ≡ 1
    → hex_to_bytes (bytes_to_hex bs ++ (a ∷ b ∷ c ∷ s)) ≡ err panicked
unfolding hex_to_bytes
hex_to_bytes_panics bs a b c s h lead inner odd = ground (
  arith,
  hex_pairs_panics bs a b c s h lead inner,
  length-append (bytes_to_hex bs) (a ∷ b ∷ c ∷ s),
  length-bytes_to_hex bs,
)
