-- ===== src/Receiving/Single.antt =====
-- A sealed message outside the ratchet: the KIND_MESSAGE branch of `receive_v2_wire`
-- (capsules/hey-core/src/api/dms.rs).
use hey_capsule.Prelude.{
  Bool, ◌&&◌, Option, none, some, Text, codes, text_eq, find, if◌then◌else◌, Result, ok, err, ◌>>=◌,
  ok_or,
}
use hey_capsule.Crypto.Kdf.{Primitives}
use hey_capsule.Crypto.Attachment.{Aead}
use hey_capsule.Crypto.Envelope.{HpqEnvelope}
use hey_capsule.Contacts.Record.{DmContact, is_active, owns_inbound_queue_with}
use hey_capsule.Contacts.Store.{list_contacts}
use hey_capsule.Groups.Incoming.{GroupError}
use hey_capsule.Events.Values.{get}
use hey_capsule.Receiving.{
  WireError, bad_topic, unowned_queue, inner_shape, bad_signature, downgrade, empty_body,
  group_refused, InnerPayload, Device, Host, Draws,
}
use hey_capsule.Receiving.Payload.{verify_inner, single_shot_dedup_id}
use hey_capsule.Receiving.Opening.{or_key_error, decrypt_via_for_queue, open_envelope}
use hey_capsule.Receiving.Advance.{Outcome, is_empty_body, store_group, store_message, rotated}

module _ (p : Primitives) (cipher : Aead) (host : Host) (draws : Draws) where
  -- The payload of an envelope, opened and verified.
  unfoldable pub open_inner : Device → Option Text → HpqEnvelope → Result WireError InnerPayload
  open_inner d queue_id env = do
    via ← decrypt_via_for_queue p cipher host d queue_id
    plaintext ← open_envelope p cipher host env via
    inner ← ok_or (host.parse_inner plaintext) inner_shape
    signed ← or_key_error (verify_inner host inner)
    (if signed then ok inner else err bad_signature)

  abbrev pub is_sender : Text → InnerPayload → DmContact → Bool
  is_sender queue_id inner c =
      text_eq c.did inner.sender_did
      && owns_inbound_queue_with host.sha256 c queue_id draws.my_did
      && is_active c.status

  -- The sender must own the queue, and must not have a ratchet.
  unfoldable pub check_sender : Device → Option Text → InnerPayload → Result WireError DmContact
  check_sender d queue_id inner = do
    queue ← ok_or queue_id bad_topic
    owner ← ok_or (find (is_sender queue inner) (list_contacts d.storage.contacts)) unowned_queue
    (if owner.ratchet_capable then err downgrade else ok owner)

  -- A group message leaves the count of the queue as it is.
  unfoldable pub finish_single_group : Result GroupError Bool × Device → Outcome
  finish_single_group (err e, d) = (err group_refused, d)
  finish_single_group (ok appended, d) = (ok tt, d)

  unfoldable pub deliver_single : Device → HpqEnvelope → InnerPayload → Outcome
  deliver_single d env inner = elim (get (codes "group") inner.body) [
    | some group ↦ finish_single_group (
        store_group p cipher host draws d group inner.sender_did inner
          (single_shot_dedup_id host env))
    | none ↦
        if is_empty_body p cipher host draws inner.body
        then (err empty_body, d)
        else (let stored =
              store_message p cipher host draws d inner.sender_did inner
                (single_shot_dedup_id host env) in
            (ok tt, rotated p cipher host draws stored.0 inner.sender_did stored.1))
  ]

  unfoldable pub after_check :
      Device → HpqEnvelope → InnerPayload → Result WireError DmContact → Outcome
  after_check d env inner (err e) = (err e, d)
  after_check d env inner (ok owner) = deliver_single d env inner

  unfoldable pub receive_single_message :
      Device → Option Text → HpqEnvelope → InnerPayload → Outcome
  receive_single_message d queue_id env inner =
      after_check d env inner (check_sender d queue_id inner)
