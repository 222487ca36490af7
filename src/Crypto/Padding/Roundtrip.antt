-- ===== src/Crypto/Padding/Roundtrip.antt =====
-- Unpadding gives back what was padded, and the padded size is the size of a bucket.
use hey_capsule.Prelude.{
  Bool-cases, ℕ, zero, suc, ◌+◌, ◌-◌, ◌*◌, ◌/◌, ◌%◌, ◌^◌, ◌≤◌, ◌<◌, ◌≡◌, refl, ap, ◌∙◌, sym, ◌⊎◌,
  inl, inr, [], true, ◌∷◌, ◌++◌, any, ◌==◌, find, length, take, drop, replicate, leb, ok,
  length-append, append_assoc, length-replicate, length-take, take_all, arith,
}
use native.Mathlib.Nat.{
  mul_comm, mod-one, mod-eq_of_lt, lt-div-mul-add, div-mul-le_self, div-div-eq-div-mul, div-add-mod,
  pow-succ', mul-mod_left,
}
use hey_capsule.Crypto.Kdf.{Bytes}
use hey_capsule.Crypto.Padding.{
  to_be_bytes, from_be_bytes, resize, bucket, pad_buckets, pad_target, pad_plaintext, unpad,
  unpad_plaintext, leading_one, round_up, padme_bucket, att_bucket, pad_attachment,
  unpad_attachment,
}

length-to_be_bytes : (w x : ℕ) → length (to_be_bytes w x) ≡ w
unfolding to_be_bytes
length-to_be_bytes zero x = refl
length-to_be_bytes (suc w) x = ap suc (length-to_be_bytes w x)

be_algebra :
    (acc q z m r r' : ℕ)
    → q * (256 * z + m) + r ≡ 256 * q * z + r'
    → (256 * acc + m) * q + r ≡ acc * (256 * q) + r'
be_algebra acc q z m r r' e = omega arith

be_step : (acc q x : ℕ) → (256 * acc + x / q % 256) * q + x % q ≡ acc * (256 * q) + x % (256 * q)
be_step acc q x = be_algebra acc q (x / (256 * q)) (x / q % 256) (x % q) (x % (256 * q)) (
    ap (λ y. q * y + x % q)
      (ap (λ z. 256 * z + x / q % 256)
          (ap (λ k. x / k) (mul_comm 256 q) ∙ sym (div-div-eq-div-mul x q 256))
        ∙ div-add-mod (x / q) 256)
    ∙ div-add-mod x q
    ∙ sym (div-add-mod x (256 * q)))

from_be_bytes-acc :
    (w acc x : ℕ) → from_be_bytes acc (to_be_bytes w x) ≡ acc * 256 ^ w + x % 256 ^ w
unfolding from_be_bytes to_be_bytes
from_be_bytes-acc zero acc x = omega (arith, mod-one x)
from_be_bytes-acc (suc w) acc x =
    from_be_bytes-acc w (256 * acc + x / 256 ^ w % 256) x
    ∙ be_step acc (256 ^ w) x
    ∙ rw (pow-succ' 256 w) refl

from_be_bytes-to_be_bytes : (w x : ℕ) → x < 256 ^ w → from_be_bytes 0 (to_be_bytes w x) ≡ x
from_be_bytes-to_be_bytes w x lt = from_be_bytes-acc w 0 x ∙ omega (arith, mod-eq_of_lt lt)

pow_pos : (k : ℕ) → 1 ≤ 2 ^ k
pow_pos zero = omega arith
pow_pos (suc k) = omega (arith, pow_pos k)

round_up_ge : (k n : ℕ) → n ≤ round_up k n
unfolding round_up
round_up_ge k n =
    omega (arith, lt-div-mul-add {a = n + (2 ^ k - 1)} {b = 2 ^ k} (pow_pos k), pow_pos k)

round_up_lt : (k n : ℕ) → round_up k n < n + 2 ^ k
unfolding round_up
round_up_lt k n = omega (arith, div-mul-le_self (n + (2 ^ k - 1)) (2 ^ k), pow_pos k)

pub take-prefix : (s r : Bytes) (n : ℕ) → length s ≡ n → take n (s ++ r) ≡ s
take-prefix [] r n e = ap (λ k. take k r) (sym e)
take-prefix (c ∷ s) r zero e = absurd (omega (arith, e))
take-prefix (c ∷ s) r (suc n) e = ap (◌∷◌ c) (take-prefix s r n (omega (arith, e)))

pub drop-prefix : (s r : Bytes) (n : ℕ) → length s ≡ n → drop n (s ++ r) ≡ r
drop-prefix [] r n e = ap (λ k. drop k r) (sym e)
drop-prefix (c ∷ s) r zero e = absurd (omega (arith, e))
drop-prefix (c ∷ s) r (suc n) e = drop-prefix s r n (omega (arith, e))

-- What is padded is `w` bytes of length, the body and zeros, and unpadding gives the body.
unpad-resize :
    (w target : ℕ) (body : Bytes)
    → length body < 256 ^ w
    → w + length body ≤ target
    → w + length body < 2 ^ 64
    → unpad w (resize target (to_be_bytes w (length body) ++ body)) ≡ ok body
unfolding unpad resize
unpad-resize w target body lt le small =
    let n = length body in
    let head : Bytes = to_be_bytes w n in
    let zeros : Bytes = replicate (target - length (head ++ body)) 0 in
    let lh = length-to_be_bytes w n in
    let size : length (head ++ body) ≡ w + n = length-append head body ∙ omega (arith, lh) in
    let whole : take target (head ++ body) ++ zeros ≡ head ++ (body ++ zeros) =
      ap (λ s. s ++ zeros) (take_all target (head ++ body) (omega (arith, size)))
      ∙ append_assoc head body zeros in
    let total : w + n ≤ length (head ++ (body ++ zeros)) =
      omega (arith, length-append head (body ++ zeros), length-append body zeros, lh) in
    rw
      (
        whole,
        take-prefix head (body ++ zeros) w lh,
        drop-prefix head (body ++ zeros) w lh,
        from_be_bytes-to_be_bytes w n lt,
        mod-eq_of_lt small,
      )
      (ground (arith, total, take-prefix body zeros n refl))

bucket_ge : (needed larger : ℕ) → needed ≤ larger → needed ≤ bucket needed larger
unfolding bucket find
bucket_ge needed larger le = ground arith

padme_bucket_ge : (n : ℕ) → n ≤ padme_bucket n
unfolding padme_bucket
padme_bucket_ge n =
    ground (arith, round_up_ge (leading_one 64 n - (leading_one 32 (leading_one 64 n) + 1)) n)

pad_target_ge : (needed : ℕ) → needed ≤ pad_target needed
unfolding pad_target
pad_target_ge needed = bucket_ge needed _ (omega arith)

att_bucket_ge : (needed : ℕ) → needed ≤ att_bucket needed
unfolding att_bucket
att_bucket_ge needed = bucket_ge needed _ (padme_bucket_ge needed)

-- Unpadding gives back every message of less than 2 ^ 32 bytes.
pub unpad_plaintext-pad_plaintext :
    (body : Bytes) → length body < 2 ^ 32 → unpad_plaintext (pad_plaintext body) ≡ ok body
unfolding unpad_plaintext pad_plaintext
unpad_plaintext-pad_plaintext body lt = rw (mod-eq_of_lt lt) (
    unpad-resize 4 (pad_target (4 + length body)) body lt (pad_target_ge (4 + length body))
      (omega (arith, lt)))

-- Unpadding gives back every attachment that with its length prefix has less than 2 ^ 64 bytes.
pub unpad_attachment-pad_attachment :
    (body : Bytes) → 8 + length body < 2 ^ 64 → unpad_attachment (pad_attachment body) ≡ ok body
unfolding unpad_attachment pad_attachment
unpad_attachment-pad_attachment body lt =
    unpad-resize 8 (att_bucket (8 + length body)) body (omega (arith, lt))
      (att_bucket_ge (8 + length body)) lt

length-resize : (target : ℕ) (s : Bytes) → length s ≤ target → length (resize target s) ≡ target
unfolding resize
length-resize target s le =
    let zeros : Bytes = replicate (target - length s) 0 in
    let size : length zeros ≡ target - length s = length-replicate (target - length s) _ in
    omega (arith, length-append (take target s) zeros, length-take target s, size)

abbrev pub IsBucket : ℕ → Type 0
IsBucket n = (any (λ b. b == n) pad_buckets ≡ true) ⊎ (n % 65536 ≡ 0)

pad_target-IsBucket : (needed : ℕ) → IsBucket (pad_target needed)
unfolding pad_target bucket find any
pad_target-IsBucket needed = elim (Bool-cases (leb needed 65536)) [
  | inl fits ↦ inl (ground arith)
  | inr large ↦
      let e : pad_target needed ≡ (needed + 65535) / 65536 * 65536 = ground arith in
      inr (ap (λ n. n % 65536) e ∙ mul-mod_left ((needed + 65535) / 65536) 65536)
]

-- A padded message has the size of a bucket, or a multiple of 64 KiB, and holds the four bytes of
-- the length and the message.
pub length-pad_plaintext :
    (body : Bytes)
    → (length (pad_plaintext body) ≡ pad_target (4 + length body))
      × (4 + length body ≤ length (pad_plaintext body))
      × IsBucket (length (pad_plaintext body))
unfolding pad_plaintext
length-pad_plaintext body =
    let target = pad_target (4 + length body) in
    let ge = pad_target_ge (4 + length body) in
    let e : length (pad_plaintext body) ≡ target =
      length-resize target (to_be_bytes 4 (length body % 2 ^ 32) ++ body) (
        omega (
          arith,
          ge,
          length-append (to_be_bytes 4 (length body % 2 ^ 32)) body,
          length-to_be_bytes 4 (length body % 2 ^ 32),
        )) in
    (e, omega (arith, e, ge), rw e (pad_target-IsBucket (4 + length body)))

-- Padmé: a size of at least two bytes is rounded up, by less than the unit that the rounding keeps.
pub padme_bucket_lem :
    (n : ℕ)
    → 2 ≤ n
    → let e = leading_one 64 n in
      (n ≤ padme_bucket n) × (padme_bucket n < n + 2 ^ (e - (leading_one 32 e + 1)))
unfolding padme_bucket
padme_bucket_lem n le =
    let e = leading_one 64 n in
    ground (
      arith,
      padme_bucket_ge n,
      round_up_ge (e - (leading_one 32 e + 1)) n,
      round_up_lt (e - (leading_one 32 e + 1)) n,
    )
