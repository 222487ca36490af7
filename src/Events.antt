-- ===== src/Events.antt =====
-- Signed events (capsules/hey-core/src/events.rs): the canonical form of a JSON value, and an event
-- signed over it. Texts are UTF-8 bytes. `quote` is `serde_json::to_string` of a string, and
-- `sign_hex` the identity provider's signature as hexadecimal text.
pub mod Values
pub mod Order
pub mod Canonical
pub mod Signed
mod Tests
use hey_capsule.Prelude.{
  ℕ, Bool, true, false, not, Option, none, some, List, [], ◌∷◌, ◌++◌, Text, codes, is_some,
  is_empty, strip_prefix, length, ◌==◌, if◌then◌else◌, Result, ok, err, ◌>>=◌, ok_or,
}
use hey_capsule.Prelude.Int.{ℤ, pos, ltb_ℤ}
use hey_capsule.Identity.Hex.{HexError}
use hey_capsule.Identity.Base58.{DidError, did_prefix, did_key_to_public_key}
use hey_capsule.Identity.Signing.{Check, verify}
use hey_capsule.Events.Values.{Json, number, string, object, field, end, whole, canonicalize}

pub record SignedEvent : Type 0 where
  pub event_type : Text
  pub payload : Json
  pub sender_did : Text
  pub ts : ℤ
  pub signature : Text

pub data EventError : Type 0 where
  no_type no_session provider_sign : EventError

pub data Reason : Type 0 where
  bad_type bad_sender_did bad_ts bad_signature_shape unresolvable_did signature_mismatch : Reason

pub data VerifyResult : Type 0 where
  valid : VerifyResult
  invalid : Reason → VerifyResult

abbrev pub is_did_key : Text → Bool
is_did_key did = is_some (strip_prefix did_prefix did)

abbrev pub not_before_zero : ℤ → ℤ
not_before_zero ts = if ltb_ℤ ts (pos 0) then pos 0 else ts

abbrev pub verdict : Bool → VerifyResult
verdict true = valid
verdict false = invalid signature_mismatch

module _ (quote : Text → Text) where
  unfoldable pub bytes_to_sign : Text → Json → Text → ℤ → Text
  bytes_to_sign event_type payload sender_did ts = canonicalize quote (
      object (
        field (codes "type") (string event_type) (
          field (codes "payload") payload (
            field (codes "sender_did") (string sender_did)
              (field (codes "ts") (number (whole ts)) end)))))

  -- `session` is the did of the session, where there is one.
  unfoldable pub create_signed_event :
      (Text → Option Text) → Option Text → ℤ → Text → Json → Result EventError SignedEvent
  create_signed_event sign_hex session now_ms event_type payload =
      if is_empty event_type then err no_type else (do
        did ← ok_or session no_session
        sender_did ← (if is_did_key did then ok did else err no_session)
        let ts = not_before_zero now_ms
        signature ← ok_or (sign_hex (bytes_to_sign event_type payload sender_did ts)) provider_sign
        ok (record {
          event_type = event_type;
          payload = payload;
          sender_did = sender_did;
          ts = ts;
          signature = signature;
        }))

  -- The check of the signature, once the shape of the event is right.
  unfoldable pub check_signature :
      Check → SignedEvent → Result DidError (List ℕ) → Result HexError VerifyResult
  check_signature check event (err e) = ok (invalid unresolvable_did)
  check_signature check event (ok pk) = do
    holds ←
        verify check (bytes_to_sign event.event_type event.payload event.sender_did event.ts)
          event.signature pk
    ok (verdict holds)

  -- An error is a panic.
  unfoldable pub verify_signed_event : Check → SignedEvent → Result HexError VerifyResult
  verify_signed_event check event =
      if is_empty event.event_type
      then ok (invalid bad_type)
      else if not (is_did_key event.sender_did)
      then ok (invalid bad_sender_did)
      else if not (ltb_ℤ (pos 0) event.ts)
      then ok (invalid bad_ts)
      else if not (length event.signature == 128)
      then ok (invalid bad_signature_shape)
      else check_signature check event (did_key_to_public_key event.sender_did)
