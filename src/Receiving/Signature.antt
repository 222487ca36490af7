-- ===== src/Receiving/Signature.antt =====
-- What it takes for the signature of a payload to hold (`verify_inner`,
-- capsules/hey-core/src/api/dms.rs).
use hey_capsule.Prelude.{
  Option, none, some, Text, ap, text_eq_iff, ==_iff, ℕ, ◌≡◌, refl, true, List, length, is_some,
  strip_prefix, ◌==◌, Bool-cases, inl, inr, arith, Result, ok, err,
}
use hey_capsule.Identity.Hex.{HexError, odd_length, invalid_hex, wrong_size, panicked, hex_to_bytes}
use hey_capsule.Identity.Base58.{DidError, did_prefix, did_key_to_public_key}
use hey_capsule.Identity.Signing.{Check, verify_bytes, verify}
use hey_capsule.Ratchet.State.{RatchetHeader}
use hey_capsule.Receiving.{InnerPayload, Host}
use hey_capsule.Receiving.Payload.{
  same_text, header_eq, is_header, inner_sign_bytes, verify_under, verify_inner,
}

-- The sender's did is a key, and under this key the signature, 64 bytes in hexadecimal, holds over
-- the payload.
pub record IsSignedBySender (host : Host) (inner : InnerPayload) : Type 0 where
  pub public_key : List ℕ
  pub sig : List ℕ
  pub decodes : did_key_to_public_key inner.sender_did ≡ ok public_key
  pub is_sig : hex_to_bytes inner.sig ≡ ok sig
  pub size : length sig ≡ 64
  pub holds : host.check (inner_sign_bytes host inner) sig public_key ≡ true

verify_bytes-true :
    (check : Check) (message public_key : List ℕ) (r : Result HexError (List ℕ))
    → verify_bytes check message r public_key ≡ ok true
    → (sig : List ℕ) × (r ≡ ok sig) × (length sig ≡ 64) × (check message sig public_key ≡ true)
unfolding verify_bytes
verify_bytes-true check message public_key (ok sig) h = elim (Bool-cases (length sig == 64)) [
  | inl full ↦ (sig, refl, ground (arith, full), ground (arith, h, full))
  | inr other ↦ absurd (ground (arith, h, other))
]
verify_bytes-true check message public_key (err panicked) h = cc
verify_bytes-true check message public_key (err odd_length) h = absurd (ground (arith, h))
verify_bytes-true check message public_key (err invalid_hex) h = absurd (ground (arith, h))
verify_bytes-true check message public_key (err wrong_size) h = absurd (ground (arith, h))

verify_under-true :
    (host : Host) (inner : InnerPayload) (r : Result DidError (List ℕ))
    → did_key_to_public_key inner.sender_did ≡ r
    → verify_under host inner r ≡ ok true
    → IsSignedBySender host inner
unfolding verify_under verify
verify_under-true host inner (err e) is h = absurd (ground (arith, h))
verify_under-true host inner (ok key) is h =
    let (sig, is_sig, size, holds) =
      verify_bytes-true host.check (inner_sign_bytes host inner) key (hex_to_bytes inner.sig) h in
    record {
      public_key = key;
      sig = sig;
      decodes = is;
      is_sig = is_sig;
      size = size;
      holds = holds;
    }

pub verify_inner-IsSignedBySender :
    (host : Host) (inner : InnerPayload)
    → verify_inner host inner ≡ ok true
    → IsSignedBySender host inner
unfolding verify_inner
verify_inner-IsSignedBySender host inner h =
    elim (Bool-cases (is_some (strip_prefix did_prefix inner.sender_did))) [
      | inr none' ↦ absurd (ground (arith, h, none'))
      | inl some' ↦
          verify_under-true host inner (did_key_to_public_key inner.sender_did) refl
            (ground (arith, h, some'))
    ]

same_text-eq : (a b : Option Text) → same_text a b ≡ true → a ≡ b
same_text-eq none none h = refl
same_text-eq none (some t) h = absurd (ground (arith, h))
same_text-eq (some s) none h = absurd (ground (arith, h))
same_text-eq (some s) (some t) h = ap some ((text_eq_iff s t).0 h)

header_eq-eq : (a b : RatchetHeader) → header_eq a b ≡ true → a ≡ b
unfolding header_eq
header_eq-eq a b h = ground (
  arith,
  h,
  text_eq_iff a.dh b.dh,
  ==_iff a.pn b.pn,
  ==_iff a.n b.n,
  same_text-eq a.kem_ct b.kem_ct,
  same_text-eq a.kem_pub b.kem_pub,
)

-- The header that is bound is the one that is wanted.
pub is_header-eq :
    (want : RatchetHeader) (bound : Option RatchetHeader)
    → is_header want bound ≡ true
    → bound ≡ some want
is_header-eq want none h = absurd (ground (arith, h))
is_header-eq want (some a) h = ap some (header_eq-eq a want h)
