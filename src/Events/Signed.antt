-- ===== src/Events/Signed.antt =====
-- What the verification of an event accepts (capsules/hey-core/src/events.rs).
use hey_capsule.Prelude.{
  ℕ, ◌≡◌, refl, ◌∙◌, sym, subst, true, false, Option, some, List, Text, is_empty, length, Result,
  ok, err, Bool-cases, Option-cases, inl, inr, arith,
}
use hey_capsule.Prelude.Int.{ℤ, pos, ltb_ℤ}
use hey_capsule.Identity.Hex.{hex_to_bytes}
use hey_capsule.Identity.Base58.{DidError, did_key_to_public_key}
use hey_capsule.Identity.Signing.{Check, verify, verify_bytes}
use hey_capsule.Events.{
  SignedEvent, valid, is_did_key, not_before_zero, bytes_to_sign, create_signed_event,
  check_signature, verify_signed_event,
}
use hey_capsule.Events.Values.{Json}
use hey_capsule.Events.Canonical.{
  SameJson, equal, fields, same_key, no_field, canonicalize-SameJson,
}

-- What the identity provider documents of a session's signatures: they are 64 bytes in hexadecimal,
-- and hold under the session's public key.
pub record Signs (check : Check) (sign_hex : Text → Option Text) (pk : List ℕ) : Type 0 where
  pub signed :
      (m h : Text)
      → sign_hex m ≡ some h
      → (length h ≡ 128)
        × ((sig : List ℕ) × (hex_to_bytes h ≡ ok sig) × (length sig ≡ 64) × (check m sig pk ≡ true))

verify-signed :
    (check : Check) (m h : Text) (pk sig : List ℕ)
    → hex_to_bytes h ≡ ok sig
    → length sig ≡ 64
    → check m sig pk ≡ true
    → verify check m h pk ≡ ok true
unfolding verify verify_bytes
verify-signed check m h pk sig e l holds = rw e (ground (arith, l, holds))

module _ (quote : Text → Text) where
  bytes_to_sign-SameJson :
      (event_type sender_did : Text) (ts : ℤ) (v w : Json)
      → SameJson v w
      → bytes_to_sign quote event_type v sender_did ts
        ≡ bytes_to_sign quote event_type w sender_did ts
  unfolding bytes_to_sign
  bytes_to_sign-SameJson event_type sender_did ts v w h = canonicalize-SameJson quote _ _ (
      fields (
        same_key (equal refl)
          (same_key h (same_key (equal refl) (same_key (equal refl) no_field)))))

  check_signature-SameJson :
      (check : Check) (event : SignedEvent) (payload : Json) (key : Result DidError (List ℕ))
      → SameJson event.payload payload
      → check_signature quote check (record event { payload = payload }) key
        ≡ check_signature quote check event key
  unfolding check_signature
  check_signature-SameJson check event payload (err e) h = refl
  check_signature-SameJson check event payload (ok pk) h =
      rw (bytes_to_sign-SameJson event.event_type event.sender_did event.ts event.payload payload h)
        refl

  -- An event is judged alike when the keys of its payload come in another order.
  pub verify_signed_event-SameJson :
      (check : Check) (event : SignedEvent) (payload : Json)
      → SameJson event.payload payload
      → verify_signed_event quote check (record event { payload = payload })
        ≡ verify_signed_event quote check event
  unfolding verify_signed_event
  verify_signed_event-SameJson check event payload h =
      rw (check_signature-SameJson check event payload (did_key_to_public_key event.sender_did) h)
        refl

  verify-made :
      (check : Check) (event : SignedEvent) (pk sig : List ℕ)
      → is_empty event.event_type ≡ false
      → is_did_key event.sender_did ≡ true
      → ltb_ℤ (pos 0) event.ts ≡ true
      → length event.signature ≡ 128
      → did_key_to_public_key event.sender_did ≡ ok pk
      → hex_to_bytes event.signature ≡ ok sig
      → length sig ≡ 64
      → check (bytes_to_sign quote event.event_type event.payload event.sender_did event.ts) sig pk
        ≡ true
      → verify_signed_event quote check event ≡ ok valid
  unfolding verify_signed_event check_signature
  verify-made check event pk sig named is_key later size key bytes l holds =
      let message = bytes_to_sign quote event.event_type event.payload event.sender_did event.ts in
      rw
        (
          named,
          is_key,
          later,
          size,
          key,
          verify-signed check message event.signature pk sig bytes l holds,
        )
        refl

  -- An event that is made for the session of a key, at a time after 1970, verifies.
  pub verify_signed_event-create_signed_event :
      (check : Check) (sign_hex : Text → Option Text) (did : Text) (pk : List ℕ) (now_ms : ℤ)
      (event_type : Text) (payload : Json) (event : SignedEvent)
      → Signs check sign_hex pk
      → did_key_to_public_key did ≡ ok pk
      → ltb_ℤ (pos 0) now_ms ≡ true
      → create_signed_event quote sign_hex (some did) now_ms event_type payload ≡ ok event
      → verify_signed_event quote check event ≡ ok valid
  unfolding create_signed_event
  verify_signed_event-create_signed_event check sign_hex did pk now_ms event_type payload event
        signs key later e =
      let unclamped : not_before_zero now_ms ≡ now_ms = ground (arith, later) in
      elim (Bool-cases (is_empty event_type)) [
        | inl empty ↦ ground (arith, e, empty)
        | inr named ↦ elim (Bool-cases (is_did_key did)) [
          | inl is_key ↦
              elim (Option-cases (sign_hex (bytes_to_sign quote event_type payload did now_ms))) [
                | inl silent ↦ ground (arith, e, named, is_key, unclamped, silent)
                | inr (h, made) ↦
                    let event' : SignedEvent = record {
                      event_type = event_type;
                      payload = payload;
                      sender_did = did;
                      ts = now_ms;
                      signature = h;
                    } in
                    let created : create_signed_event quote sign_hex (some did) now_ms event_type
                          payload
                        ≡ ok event' =
                      rw (create_signed_event, named, is_key, unclamped, made) refl in
                    let same : ok event' ≡ ok event = sym created ∙ e in
                    let (size, (sig, bytes, l, holds)) =
                      signs.signed (bytes_to_sign quote event_type payload did now_ms) h made in
                    subst (λ (v : SignedEvent). verify_signed_event quote check v ≡ ok valid)
                      (ground (arith, same))
                      (verify-made check event' pk sig named is_key later size key bytes l holds)
              ]
          | inr other ↦ ground (arith, e, named, other)
        ]
      ]
