-- ===== src/Receiving/Advance.antt =====
-- A message of the ratchet (`receive_ratchet_message`, capsules/hey-core/src/api/dms.rs): the step on
-- a copy of the state and every check come first, and nothing is written before all of them pass.
use hey_capsule.Prelude.{
  ℕ, Bool, true, false, not, ◌&&◌, Option, none, some, List, Text, codes, text_eq, find, is_empty,
  length, ◌==◌, if◌then◌else◌, Result, ok, err, ◌>>=◌, ok_or,
}
use hey_capsule.Prelude.Int.{pos}
use hey_capsule.Identity.Hex.{bytes_to_hex}
use hey_capsule.Crypto.Kdf.{Bytes, Primitives}
use hey_capsule.Crypto.Attachment.{Aead}
use hey_capsule.Crypto.Envelope.{EnvelopeError, HpqEnvelope, open_with_secrets}
use hey_capsule.Ratchet.State.{Error, RatchetHeader, RatchetState, is_bootstrapped}
use hey_capsule.Ratchet.Steps.{ratchet_step_recv}
use hey_capsule.Contacts.Record.{DmContact, is_active, owns_inbound_queue_with}
use hey_capsule.Contacts.Store.{list_contacts}
use hey_capsule.Contacts.Rotation.{maybe_rotate_inbound_queue}
use hey_capsule.Conversation.{conv_has, store_incoming_message}
use hey_capsule.Groups.Roster.{has_none}
use hey_capsule.Groups.Incoming.{GroupError, store_incoming_group_message}
use hey_capsule.Events.Values.{Json, get}
use hey_capsule.Receiving.{
  WireError, bad_topic, unowned_queue, not_ratchet, no_state, bad_eph, inner_shape, bad_signature,
  header_mismatch, bad_kind, wrong_sender, empty_body, group_refused, step_failed, open_failed,
  InnerPayload, Device, Host, Draws, read_ratchet, write_ratchet,
}
use hey_capsule.Receiving.Payload.{
  is_header, verify_inner, attachments_from_body, text_of_body, ctx_of, ratchet_dedup_id,
}
use hey_capsule.Receiving.Opening.{or_key_error, decrypt_via_for_contact, ratchet_kem_ss}

-- The cleartext fields of a ratchet wire.
pub record PageNumber : Type 0 where
  pub pn : ℕ
  pub n : ℕ
  pub kem_ct : Option Text
  pub kem_pub : Option Text

-- A message that passed every check: from whom, what, and the ratchet after it.
pub record Accepted : Type 0 where
  pub contact : DmContact
  pub inner : InnerPayload
  pub state : RatchetState

-- What an operation gives back, with the device as it leaves it.
abbrev pub Outcome : Type 0
Outcome = Result WireError (Unit {0}) × Device

module _ (p : Primitives) (cipher : Aead) (host : Host) (draws : Draws) where
  abbrev pub is_queue_owner : Text → DmContact → Bool
  is_queue_owner queue_id c =
      owns_inbound_queue_with host.sha256 c queue_id draws.my_did && is_active c.status

  -- The contact and its ratchet, for a queue.
  unfoldable pub contact_of_queue : Device → Text → Result WireError (DmContact × RatchetState)
  contact_of_queue d queue_id = do
    c ← ok_or (find (is_queue_owner queue_id) (list_contacts d.storage.contacts)) unowned_queue
    st ← (if c.ratchet_capable then ok_or (read_ratchet d c.did) no_state else err not_ratchet)
    (if is_bootstrapped st then ok (c, st) else err no_state)

  unfoldable pub eph_key : HpqEnvelope → Result WireError Bytes
  eph_key env = do
    dh ← ok_or (p.b64_decode env.eph) bad_eph
    (if length dh == 32 then ok dh else err bad_eph)

  -- A message that does not open is one that is already stored, or an error.
  unfoldable pub stale :
      Device → DmContact → HpqEnvelope → WireError → Result WireError (Option Accepted)
  stale d c env e = if conv_has d.storage c.did (ratchet_dedup_id host env) then ok none else err e

  abbrev pub wanted : HpqEnvelope → PageNumber → RatchetHeader
  wanted env page = record {
    dh = env.eph;
    pn = page.pn;
    n = page.n;
    kem_ct = page.kem_ct;
    kem_pub = page.kem_pub;
  }

  -- The checks of a payload, the signature's outcome among them.
  unfoldable pub judged :
      DmContact
      → HpqEnvelope
      → PageNumber
      → RatchetState
      → InnerPayload
      → Bool
      → Result WireError (Option Accepted)
  judged c env page st inner signed =
      if not signed
      then err bad_signature
      else if not (is_header (wanted env page) inner.rh)
      then err header_mismatch
      else if not (text_eq inner.kind (codes "message"))
      then err bad_kind
      else if not (text_eq inner.sender_did c.did)
      then err wrong_sender
      else ok (some (record { contact = c; inner = inner; state = st }))

  unfoldable pub check_inner :
      DmContact
      → HpqEnvelope
      → PageNumber
      → RatchetState
      → Bytes
      → Result WireError (Option Accepted)
  check_inner c env page st plaintext = do
    inner ← ok_or (host.parse_inner plaintext) inner_shape
    signed ← or_key_error (verify_inner host inner)
    judged c env page st inner signed

  unfoldable pub after_open :
      Device
      → DmContact
      → HpqEnvelope
      → PageNumber
      → RatchetState
      → Result EnvelopeError Bytes
      → Result WireError (Option Accepted)
  after_open d c env page st (err e) = stale d c env (open_failed e)
  after_open d c env page st (ok plaintext) = check_inner c env page st plaintext

  unfoldable pub after_step :
      Device
      → DmContact
      → HpqEnvelope
      → PageNumber
      → Result Error (Bytes × RatchetState)
      → Result WireError (Option Accepted)
  after_step d c env page (err e) = stale d c env (step_failed e)
  after_step d c env page (ok (mk, st)) = do
    via ← decrypt_via_for_contact p cipher host c
    kem_ss ← ratchet_kem_ss p cipher host env via
    after_open d c env page st (open_with_secrets p cipher env mk kem_ss)

  -- Everything before the first write: the message, `none` for a redelivery, or why it is refused.
  unfoldable pub accept_ratchet :
      Device → Option Text → HpqEnvelope → PageNumber → Result WireError (Option Accepted)
  accept_ratchet d queue_id env page = do
    queue ← ok_or queue_id bad_topic
    (c, st0) ← contact_of_queue d queue
    dh ← eph_key env
    after_step d c env page (
        ratchet_step_recv p draws.fresh draws.now st0 (bytes_to_hex dh) dh page.pn page.n
          page.kem_ct page.kem_pub)

  abbrev pub with_contacts : Device → Option (List DmContact) → Device
  with_contacts d contacts = record d { storage = record (d.storage) { contacts = contacts } }

  unfoldable pub rotated : Bool → Text → Device → Device
  rotated false did d = d
  rotated true did d =
      elim (maybe_rotate_inbound_queue draws.new_queue draws.new_pseudonym d.storage.contacts did
        draws.now) [ none ↦ d | some contacts ↦ with_contacts d (some contacts) ]

  -- Store a message of a group; whether it was appended.
  unfoldable pub store_group :
      Device → Json → Text → InnerPayload → Text → Result GroupError Bool × Device
  store_group d group sender_did inner dedup_id =
      let (r, contacts, groups) =
        store_incoming_group_message host.sha256 draws.mint draws.my_did (pos draws.now)
          (ctx_of host group) d.storage.contacts d.groups sender_did (text_of_body host inner.body)
          inner.ts dedup_id (attachments_from_body host inner.body) in
      (r, record (with_contacts d contacts) { groups = groups })

  -- Store a message of a conversation; whether it was appended.
  unfoldable pub store_message : Device → Text → InnerPayload → Text → Bool × Device
  store_message d sender_did inner dedup_id =
      let (appended, storage) =
        store_incoming_message draws.new_id d.storage sender_did (text_of_body host inner.body)
          inner.ts (some dedup_id) (attachments_from_body host inner.body) in
      (appended, record d { storage = storage })

  -- `?` on the storing of a group message comes before the ratchet is written.
  unfoldable pub finish_group : Accepted → Result GroupError Bool × Device → Outcome
  finish_group a (err e, d) = (err group_refused, d)
  finish_group a (ok appended, d) =
      (ok tt, rotated appended a.contact.did (write_ratchet a.contact.did a.state d))

  abbrev pub is_empty_body : Json → Bool
  is_empty_body body =
      is_empty (text_of_body host body) && has_none (attachments_from_body host body)

  unfoldable pub deliver_ratchet : Device → HpqEnvelope → Accepted → Outcome
  deliver_ratchet d env a = elim (get (codes "group") a.inner.body) [
    | some group ↦
        finish_group a (store_group d group a.contact.did a.inner (ratchet_dedup_id host env))
    | none ↦
        if is_empty_body a.inner.body
        then (err empty_body, d)
        else (let stored = store_message d a.contact.did a.inner (ratchet_dedup_id host env) in
            (ok tt, rotated stored.0 a.contact.did (write_ratchet a.contact.did a.state stored.1)))
  ]

  unfoldable pub commit : Device → HpqEnvelope → Result WireError (Option Accepted) → Outcome
  commit d env (err e) = (err e, d)
  commit d env (ok none) = (ok tt, d)
  commit d env (ok (some a)) = deliver_ratchet d env a

  unfoldable pub receive_ratchet_message : Device → Option Text → HpqEnvelope → PageNumber → Outcome
  receive_ratchet_message d queue_id env page = commit d env (accept_ratchet d queue_id env page)
