-- ===== src/Crypto/Padding.antt =====
-- The padding of plaintexts in capsules/hey-core/src/crypto.rs: `pad_plaintext` and
-- `unpad_plaintext` of messages, `att_bucket`, `padme_bucket`, `pad_attachment` and
-- `unpad_attachment` of attachments. A `usize` is taken to have 64 bits, and a buffer is smaller
-- than that, so that sums of sizes are exact; the length prefix wraps as `as u32` does. The prefix
-- that is read is not trusted, and its sum wraps.
pub mod Roundtrip
use hey_capsule.Prelude.{
  length-append, append_assoc, sym, Bool-cases, inl, inr, All, ap, ◌∙◌, ◌<◌, ℕ, zero, suc, ◌+◌, ◌-◌,
  ◌*◌, ◌/◌, ◌%◌, ◌^◌, ◌≤◌, ◌≡◌, refl, none, some, List, [], ◌∷◌, ◌++◌, find, length, take, drop,
  replicate, leb, ltb, if◌then◌else◌, Result, ok, err, arith,
}
use native.Mathlib.Nat.{
  mul_comm, mod-one, mod-eq_of_lt, lt-div-mul-add, div-mul-le_self, div-div-eq-div-mul, div-add-mod,
  pow-succ',
}
use hey_capsule.Crypto.Kdf.{Bytes}

pub data PadError : Type 0 where
  too_short prefix_exceeds panicked : PadError

abbrev pub pad_buckets : List ℕ
pad_buckets = 256 ∷ 1024 ∷ 4096 ∷ 16384 ∷ 65536 ∷ []

-- The big-endian bytes of a number of `w` bytes, and back.
unfoldable pub to_be_bytes : ℕ → ℕ → Bytes
to_be_bytes zero x = []
to_be_bytes (suc w) x = (x / 256 ^ w) % 256 ∷ to_be_bytes w x

unfoldable pub from_be_bytes : ℕ → Bytes → ℕ
from_be_bytes acc [] = acc
from_be_bytes acc (b ∷ bs) = from_be_bytes (256 * acc + b) bs

-- `out.resize(target, 0)`.
unfoldable pub resize : ℕ → Bytes → Bytes
resize target s = take target s ++ replicate (target - length s) 0

-- The first bucket that holds `needed` bytes, or what the rest gives.
unfoldable pub bucket : ℕ → ℕ → ℕ
bucket needed larger = elim (find (λ b. leb needed b) pad_buckets) [ some b ↦ b | none ↦ larger ]

unfoldable pub pad_target : ℕ → ℕ
pad_target needed = bucket needed ((needed + 65535) / 65536 * 65536)

unfoldable pub pad_plaintext : Bytes → Bytes
pad_plaintext body =
    let needed = 4 + length body in
    resize (pad_target needed) (to_be_bytes 4 (length body % 2 ^ 32) ++ body)

-- Read a prefix of `w` bytes, and the bytes that it counts. The sum of the two wraps; the slice
-- `padded[w..end]` then panics, as its end is before its start, and so does a sum that is checked.
unfoldable pub unpad : ℕ → Bytes → Result PadError Bytes
unpad w padded =
    if ltb (length padded) w
    then err too_short
    else (let len = from_be_bytes 0 (take w padded) in
        let end = (w + len) % 2 ^ 64 in
        if ltb (length padded) end
        then err prefix_exceeds
        else if ltb end w
        then err panicked
        else ok (take len (drop w padded)))

unfoldable pub unpad_plaintext : Bytes → Result PadError Bytes
unpad_plaintext padded = unpad 4 padded

-- The position of the leading one of a number of at most `w` bits: `BITS - 1 - leading_zeros`.
unfoldable pub leading_one : ℕ → ℕ → ℕ
leading_one zero n = 0
leading_one (suc w) n = if leb (2 ^ w) n then w else leading_one w n

-- `(n + mask) & !mask` for `mask = (1 << last_bits) - 1`.
unfoldable pub round_up : ℕ → ℕ → ℕ
round_up last_bits n = (n + (2 ^ last_bits - 1)) / 2 ^ last_bits * 2 ^ last_bits

unfoldable pub padme_bucket : ℕ → ℕ
padme_bucket n =
    if ltb n 2
    then n
    else (let e = leading_one 64 n in let s = leading_one 32 e + 1 in round_up (e - s) n)

unfoldable pub att_bucket : ℕ → ℕ
att_bucket needed = bucket needed (padme_bucket needed)

unfoldable pub pad_attachment : Bytes → Bytes
pad_attachment body = resize (att_bucket (8 + length body)) (to_be_bytes 8 (length body) ++ body)

unfoldable pub unpad_attachment : Bytes → Result PadError Bytes
unpad_attachment padded = unpad 8 padded
