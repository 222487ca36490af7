-- ===== src/Receiving/Payload.antt =====
-- The payload inside an envelope: its signature and what its body says
-- (capsules/hey-core/src/api/dms.rs).
use hey_capsule.Prelude.{
  ℕ, ◌-◌, ◌^◌, ◌==◌, Bool, true, false, ◌&&◌, Option, none, some, List, [], ◌++◌, Text, codes,
  text_eq, is_some, strip_prefix, take, leb, if◌then◌else◌, Result, ok, err,
}
use hey_capsule.Prelude.Int.{pos}
use hey_capsule.Identity.Hex.{HexError, bytes_to_hex}
use hey_capsule.Identity.Base58.{DidError, did_prefix, did_key_to_public_key}
use hey_capsule.Identity.Signing.{verify}
use hey_capsule.Crypto.Envelope.{HpqEnvelope}
use hey_capsule.Ratchet.State.{RatchetHeader}
use hey_capsule.Conversation.{Attachment}
use hey_capsule.Groups.{GroupCtx, or_default}
use hey_capsule.Events.Values.{
  Json, Fields, number, string, object, field, end, whole, get, as_str, canonicalize,
}
use hey_capsule.Receiving.{WireError, bad_rh, InnerPayload, Host}

abbrev pub and_then {ℓ κ} : {A : Type ℓ} {B : Type κ} → Option A → (A → Option B) → Option B
and_then none f = none
and_then (some a) f = f a

abbrev pub str_field : Text → Json → Option Text
str_field key v = and_then (get key v) as_str

unfoldable pub as_u64 : Json → Option ℕ
as_u64 (number (whole (pos n))) = some n
as_u64 _ = none

unfoldable pub u32_field : Json → Text → Result WireError ℕ
u32_field obj key = elim (and_then (get key obj) as_u64) [
  | none ↦ err bad_rh
  | some n ↦ if leb n (2 ^ 32 - 1) then ok n else err bad_rh
]

abbrev pub same_text : Option Text → Option Text → Bool
same_text none none = true
same_text none (some t) = false
same_text (some s) none = false
same_text (some s) (some t) = text_eq s t

unfoldable pub header_eq : RatchetHeader → RatchetHeader → Bool
header_eq a b =
    text_eq a.dh b.dh
    && a.pn == b.pn
    && a.n == b.n
    && same_text a.kem_ct b.kem_ct
    && same_text a.kem_pub b.kem_pub

abbrev pub is_header : RatchetHeader → Option RatchetHeader → Bool
is_header want none = false
is_header want (some h) = header_eq h want

module _ (host : Host) where
  abbrev pub with_header : Option RatchetHeader → Fields → Fields
  with_header none fs = fs
  with_header (some h) fs = field (codes "rh") (host.header_value h) fs

  unfoldable pub inner_sign_bytes : InnerPayload → Text
  inner_sign_bytes inner = canonicalize host.quote (
      object (
        field (codes "kind") (string inner.kind) (
          field (codes "body") inner.body (
            field (codes "sender_did") (string inner.sender_did)
              (field (codes "ts") (number (whole inner.ts)) (with_header inner.rh end))))))

  unfoldable pub verify_under : InnerPayload → Result DidError (List ℕ) → Result HexError Bool
  verify_under inner (err e) = ok false
  verify_under inner (ok pk) = verify host.check (inner_sign_bytes inner) inner.sig pk

  -- An error is a panic.
  unfoldable pub verify_inner : InnerPayload → Result HexError Bool
  verify_inner inner =
      if is_some (strip_prefix did_prefix inner.sender_did)
      then verify_under inner (did_key_to_public_key inner.sender_did)
      else ok false

  unfoldable pub attachments_from_body : Json → List Attachment
  attachments_from_body body =
      or_default (and_then (get (codes "attachments") body) host.attachments_of) []

  unfoldable pub text_of_body : Json → Text
  text_of_body body = or_default (str_field (codes "text") body) []

  unfoldable pub ctx_of : Json → GroupCtx
  ctx_of v = record {
    id = str_field (codes "id") v;
    name = str_field (codes "name") v;
    members = and_then (get (codes "members") v) host.members_of;
    created_by = str_field (codes "createdBy") v;
    bio = str_field (codes "bio") v;
    avatar_cid = str_field (codes "avatarCid") v;
  }

  abbrev pub digest_of : HpqEnvelope → Text
  digest_of env = bytes_to_hex (take 16 (host.sha256 (env.ct ++ env.n)))

  unfoldable pub ratchet_dedup_id : HpqEnvelope → Text
  ratchet_dedup_id env = codes "rdm:" ++ digest_of env

  unfoldable pub single_shot_dedup_id : HpqEnvelope → Text
  single_shot_dedup_id env = codes "sdm:" ++ digest_of env
