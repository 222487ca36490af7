-- ===== src/Receiving/Redelivery.antt =====
-- The same envelope again, and a message for a declined group (capsules/hey-core/src/api/dms.rs).
use hey_capsule.Prelude.{
  ◌≡◌, refl, ap, ◌∙◌, Bool, true, false, ◌⊎◌, inl, inr, Option, none, some, List, Text, codes,
  text_eq, any, Option-cases, Result, ok, err,
}
use hey_capsule.Prelude.Int.{pos}
use hey_capsule.Identity.Hex.{bytes_to_hex}
use hey_capsule.Crypto.Kdf.{Bytes, Primitives}
use hey_capsule.Crypto.Attachment.{Aead}
use hey_capsule.Crypto.Envelope.{EnvelopeError, HpqEnvelope, open_with_secrets}
use hey_capsule.Ratchet.State.{Error, RatchetState}
use hey_capsule.Ratchet.Steps.{ratchet_step_recv}
use hey_capsule.Contacts.Record.{DmContact}
use hey_capsule.Contacts.Rotation.{maybe_rotate_inbound_queue}
use hey_capsule.Conversation.{conv_has, read_conversation}
use hey_capsule.Conversation.Keeping.{held_after}
use hey_capsule.Groups.{GroupStore}
use hey_capsule.Groups.History.{GroupMessage}
use hey_capsule.Groups.Declined.{refused_lem}
use hey_capsule.Groups.Incoming.{GroupError}
use hey_capsule.Events.Values.{Json, get}
use hey_capsule.Receiving.{group_refused, Device, Host, Draws, write_ratchet}
use hey_capsule.Receiving.Payload.{
  str_field, ctx_of, text_of_body, attachments_from_body, ratchet_dedup_id,
}
use hey_capsule.Receiving.Opening.{DecryptVia, decrypt_via_for_contact, ratchet_kem_ss}
use hey_capsule.Receiving.Advance.{
  PageNumber, Accepted, contact_of_queue, eph_key, stale, after_open, after_step, accept_ratchet,
  with_contacts, rotated, store_group, store_message, finish_group, deliver_ratchet, is_empty_body,
  commit, receive_ratchet_message,
}

module _ (p : Primitives) (cipher : Aead) (host : Host) where
  conv_has-rotated :
      (draws : Draws) (b : Bool) (did : Text) (d : Device) (sender id : Text)
      → conv_has (rotated p cipher host draws b did d).storage sender id
        ≡ conv_has d.storage sender id
  unfolding rotated conv_has read_conversation
  conv_has-rotated draws false did d sender id = refl
  conv_has-rotated draws true did d sender id =
      elim (Option-cases (
        maybe_rotate_inbound_queue draws.new_queue draws.new_pseudonym d.storage.contacts did
          draws.now)) [
            | inl kept ↦ rw (kept, rotated) refl
            | inr (contacts, changed) ↦ rw (changed, rotated) refl
          ]

  -- A message that was received for a conversation is held there under its id.
  conv_has-deliver_ratchet :
      (draws : Draws) (d : Device) (env : HpqEnvelope) (a : Accepted)
      → get (codes "group") a.inner.body ≡ none
      → is_empty_body p cipher host draws a.inner.body ≡ false
      → conv_has
          (deliver_ratchet p cipher host draws d env a).1.storage
          a.contact.did
          (ratchet_dedup_id host env)
        ≡ true
  unfolding deliver_ratchet store_message write_ratchet
  conv_has-deliver_ratchet draws d env a direct full =
      rw (deliver_ratchet, direct, full)
        (conv_has-rotated draws _ a.contact.did _ a.contact.did (ratchet_dedup_id host env)
          ∙ held_after draws.new_id d.storage a.contact.did (text_of_body host a.inner.body)
              (ratchet_dedup_id host env) a.inner.ts (attachments_from_body host a.inner.body))

  -- A step that fails, or gives a key that does not open the envelope.
  abbrev pub NotOpened : DmContact → HpqEnvelope → Result Error (Bytes × RatchetState) → Type 0
  NotOpened c env step =
      ((e : Error) × (step ≡ err e))
      ⊎ ((mk : Bytes) × (st : RatchetState) × (via : DecryptVia) × (kem_ss : Bytes)
          × (e : EnvelopeError) × (step ≡ ok (mk, st))
          × (decrypt_via_for_contact p cipher host c ≡ ok via)
          × (ratchet_kem_ss p cipher host env via ≡ ok kem_ss)
          × (open_with_secrets p cipher env mk kem_ss ≡ err e))

  after_step-NotOpened :
      (draws : Draws) (d : Device) (c : DmContact) (env : HpqEnvelope) (page : PageNumber)
      (step : Result Error (Bytes × RatchetState))
      → conv_has d.storage c.did (ratchet_dedup_id host env) ≡ true
      → NotOpened c env step
      → after_step p cipher host draws d c env page step ≡ ok none
  unfolding after_step after_open stale
  after_step-NotOpened draws d c env page step held (inl (e, failed)) =
      rw (failed, after_step, held) refl
  after_step-NotOpened draws d c env page step held
        (inr (mk, st, via, kem_ss, e, stepped, by, secret, closed)) =
      rw (stepped, after_step, by, secret, closed, held) refl

  receive_ratchet_message-NotOpened :
      (draws : Draws) (d : Device) (queue : Text) (env : HpqEnvelope) (page : PageNumber)
      (c : DmContact) (st : RatchetState) (dh : Bytes)
      → contact_of_queue p cipher host draws d queue ≡ ok (c, st)
      → eph_key p cipher host draws env ≡ ok dh
      → conv_has d.storage c.did (ratchet_dedup_id host env) ≡ true
      → NotOpened c env (
          ratchet_step_recv p draws.fresh draws.now st
            (bytes_to_hex dh)
            dh
            page.pn
            page.n
            page.kem_ct
            page.kem_pub)
      → receive_ratchet_message p cipher host draws d (some queue) env page ≡ (ok tt, d)
  unfolding receive_ratchet_message commit accept_ratchet
  receive_ratchet_message-NotOpened draws d queue env page c st dh owned key held closed =
      rw (owned, key, after_step-NotOpened draws d c env page _ held closed) refl

  -- An envelope that was received for a conversation is a redelivery when it comes again and does
  -- not open under the ratchet as it is then: it is taken without an error, and changes nothing.
  pub receive_ratchet_message_again :
      (draws draws' : Draws) (d : Device) (queue : Text) (env : HpqEnvelope) (page : PageNumber)
      (a : Accepted) (c : DmContact) (st : RatchetState) (dh : Bytes)
      → accept_ratchet p cipher host draws d (some queue) env page ≡ ok (some a)
      → get (codes "group") a.inner.body ≡ none
      → is_empty_body p cipher host draws a.inner.body ≡ false
      → let d' = (receive_ratchet_message p cipher host draws d (some queue) env page).1 in
        contact_of_queue p cipher host draws' d' queue ≡ ok (c, st)
        → c.did ≡ a.contact.did
        → eph_key p cipher host draws' env ≡ ok dh
        → NotOpened c env (
            ratchet_step_recv p draws'.fresh draws'.now st
              (bytes_to_hex dh)
              dh
              page.pn
              page.n
              page.kem_ct
              page.kem_pub)
        → receive_ratchet_message p cipher host draws' d' (some queue) env page ≡ (ok tt, d')
  unfolding receive_ratchet_message commit accept_ratchet
  receive_ratchet_message_again draws draws' d queue env page a c st dh taken direct full owned same
        key closed =
      let d' = (receive_ratchet_message p cipher host draws d (some queue) env page).1 in
      let id = ratchet_dedup_id host env in
      let made : d' ≡ (deliver_ratchet p cipher host draws d env a).1 =
        ap (λ r. (commit p cipher host draws d env r).1) taken in
      let held : conv_has d'.storage c.did id ≡ true =
        ap (λ (x : Device). conv_has x.storage c.did id) made
        ∙ ap (λ s. conv_has (deliver_ratchet p cipher host draws d env a).1.storage s id) same
        ∙ conv_has-deliver_ratchet draws d env a direct full in
      receive_ratchet_message-NotOpened draws' d' queue env page c st dh owned key held closed

  -- A message for a declined group is refused with the ratchet as it was before.
  pub receive_ratchet_message-declined :
      (draws : Draws) (d : Device) (queue_id : Option Text) (env : HpqEnvelope) (page : PageNumber)
      (a : Accepted) (group : Json) (gid : Text)
      → accept_ratchet p cipher host draws d queue_id env page ≡ ok (some a)
      → get (codes "group") a.inner.body ≡ some group
      → str_field (codes "id") group ≡ some gid
      → any (λ g. text_eq g gid) d.groups.declined ≡ true
      → receive_ratchet_message p cipher host draws d queue_id env page ≡ (err group_refused, d)
  unfolding receive_ratchet_message commit deliver_ratchet store_group finish_group ctx_of
  receive_ratchet_message-declined draws d queue_id env page a group gid taken to named declined =
      let message : GroupMessage = record {
        ctx = ctx_of host group;
        sender_did = a.contact.did;
        text = text_of_body host a.inner.body;
        ts = a.inner.ts;
        dedup_id = ratchet_dedup_id host env;
        attachments = attachments_from_body host a.inner.body;
      } in
      let refused =
        refused_lem host.sha256 draws.mint draws.my_did (pos draws.now) gid message
          d.storage.contacts d.groups declined named in
      ap (commit p cipher host draws d env) taken
      ∙ rw (deliver_ratchet, to)
          (ap
            (λ (o : Result GroupError Bool × Option (List DmContact) × GroupStore).
              finish_group p cipher host draws a
                (o.0, record (with_contacts p cipher host draws d o.1) { groups = o.2 }))
            refused)
