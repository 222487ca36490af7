-- ===== src/Receiving/Checks.antt =====
-- What the checks on a ratchet message that passes them establish
-- (capsules/hey-core/src/api/dms.rs).
use hey_capsule.Prelude.{
  ◌≡◌, refl, ap, ◌∙◌, sym, Bool, true, Option, some, Text, codes, text_eq, text_eq_iff, text_key,
  find, find-some, arith, Result, ok, err, ok_or, >>=-eq-ok, ok_or-eq-ok,
}
use hey_capsule.Identity.Hex.{HexError, bytes_to_hex}
use hey_capsule.Crypto.Kdf.{Bytes, Primitives}
use hey_capsule.Crypto.Attachment.{Aead}
use hey_capsule.Crypto.Envelope.{EnvelopeError, HpqEnvelope, open_with_secrets}
use hey_capsule.Ratchet.State.{Error, RatchetState}
use hey_capsule.Ratchet.Steps.{ratchet_step_recv}
use hey_capsule.Contacts.Record.{DmContact, is_active, owns_inbound_queue_with}
use hey_capsule.Contacts.Store.{list_contacts}
use hey_capsule.Receiving.{
  WireError, bad_topic, inner_shape, step_failed, open_failed, InnerPayload, Device, Host, Draws,
  read_ratchet,
}
use hey_capsule.Receiving.Payload.{is_header, verify_inner}
use hey_capsule.Receiving.Signature.{is_header-eq, IsSignedBySender, verify_inner-IsSignedBySender}
use hey_capsule.Receiving.Opening.{or_key_error, decrypt_via_for_contact, ratchet_kem_ss}
use hey_capsule.Receiving.Advance.{
  PageNumber, Accepted, is_queue_owner, contact_of_queue, eph_key, stale, wanted, judged,
  check_inner, after_open, after_step, accept_ratchet,
}

pub or_key_error-ok : (r : Result HexError Bool) (b : Bool) → or_key_error r ≡ ok b → r ≡ ok b
or_key_error-ok (ok a) b e = ground (arith, e)
or_key_error-ok (err h) b e = ground (arith, e)

module _ (p : Primitives) (cipher : Aead) (host : Host) (draws : Draws) where
  -- The payload of an accepted message is signed by its sender, who is the contact, over the header
  -- that came in clear.
  pub record IsSigned (env : HpqEnvelope) (page : PageNumber) (a : Accepted) : Type 0 where
    pub signed : IsSignedBySender host a.inner
    pub header : a.inner.rh ≡ some (wanted p cipher host draws env page)
    pub kind : a.inner.kind ≡ codes "message"
    pub sender : a.inner.sender_did ≡ a.contact.did

  -- The contact is the first active one that owns the queue and has a ratchet, and the state is that
  -- ratchet's after a step that gave the key which opened the envelope.
  pub record IsAuthentic (d : Device) (queue : Text) (env : HpqEnvelope) (page : PageNumber)
      (a : Accepted) : Type 0 where
    pub owner :
        find (is_queue_owner p cipher host draws queue) (list_contacts d.storage.contacts)
        ≡ some a.contact
    pub active : is_active a.contact.status ≡ true
    pub owns : owns_inbound_queue_with host.sha256 a.contact queue draws.my_did ≡ true
    pub capable : a.contact.ratchet_capable ≡ true
    pub opened :
        (st0 : RatchetState) × (dh : Bytes) × (mk : Bytes) × (kem_ss : Bytes) × (plaintext : Bytes)
        × (read_ratchet d a.contact.did ≡ some st0)
        × (ratchet_step_recv p draws.fresh draws.now st0
              (bytes_to_hex dh)
              dh
              page.pn
              page.n
              page.kem_ct
              page.kem_pub
            ≡ ok (mk, a.state))
        × (open_with_secrets p cipher env mk kem_ss ≡ ok plaintext)
        × (host.parse_inner plaintext ≡ some a.inner)
    pub is_signed : IsSigned env page a

  -- When the checks let a message pass.
  judged_lem :
      (c : DmContact) (env : HpqEnvelope) (page : PageNumber) (st : RatchetState)
      (inner : InnerPayload) (signed : Bool) (a : Accepted)
      → judged p cipher host draws c env page st inner signed ≡ ok (some a)
      → (signed ≡ true)
        × (is_header (wanted p cipher host draws env page) inner.rh ≡ true)
        × (text_eq inner.kind (codes "message") ≡ true)
        × (text_eq inner.sender_did c.did ≡ true)
        × (a ≡ record { contact = c; inner = inner; state = st })
  unfolding judged
  judged_lem c env page st inner signed a e = ground (arith, e)

  check_inner_lem :
      (c : DmContact) (env : HpqEnvelope) (page : PageNumber) (st : RatchetState) (pt : Bytes)
      (a : Accepted)
      → check_inner p cipher host draws c env page st pt ≡ ok (some a)
      → (host.parse_inner pt ≡ some a.inner)
        × (a.contact ≡ c)
        × (a.state ≡ st)
        × IsSigned env page a
  unfolding check_inner
  check_inner_lem c env page st pt a e =
      let (inner, parsed, rest) = >>=-eq-ok (ok_or (host.parse_inner pt) inner_shape) _ e in
      let (signed, verified, judged') = >>=-eq-ok (or_key_error (verify_inner host inner)) _ rest in
      let (is, header, kind, sender, made) = judged_lem c env page st inner signed a judged' in
      let same : a.inner ≡ inner = ap (λ (b : Accepted). b.inner) made in
      let from : a.contact ≡ c = ap (λ (b : Accepted). b.contact) made in
      (
        ok_or-eq-ok (host.parse_inner pt) inner_shape inner parsed ∙ ap some (sym same),
        from,
        ap (λ (b : Accepted). b.state) made,
        record {
          signed = verify_inner-IsSignedBySender host a.inner (
              ap (verify_inner host) same
              ∙ or_key_error-ok (verify_inner host inner) signed verified
              ∙ ap ok is);
          header =
              ap (λ (i : InnerPayload). i.rh) same
              ∙ is_header-eq (wanted p cipher host draws env page) inner.rh header;
          kind =
              ap (λ (i : InnerPayload). i.kind) same
              ∙ (text_eq_iff inner.kind (codes "message")).0 kind;
          sender =
              ap (λ (i : InnerPayload). i.sender_did) same
              ∙ (text_eq_iff inner.sender_did c.did).0 sender
              ∙ ap (λ (k : DmContact). k.did) (sym from);
        },
      )

  stale-none :
      (d : Device) (c : DmContact) (env : HpqEnvelope) (e : WireError) (a : Accepted)
      → stale p cipher host draws d c env e ≡ ok (some a)
      → ⊥
  unfolding stale
  stale-none d c env e a h = ground (arith, h)

  after_open_lem :
      (d : Device) (c : DmContact) (env : HpqEnvelope) (page : PageNumber) (st : RatchetState)
      (r : Result EnvelopeError Bytes) (a : Accepted)
      → after_open p cipher host draws d c env page st r ≡ ok (some a)
      → (pt : Bytes) × (r ≡ ok pt)
        × (check_inner p cipher host draws c env page st pt ≡ ok (some a))
  unfolding after_open
  after_open_lem d c env page st (err e) a h = absurd (stale-none d c env (open_failed e) a h)
  after_open_lem d c env page st (ok pt) a h = (pt, refl, h)

  after_step_lem :
      (d : Device) (c : DmContact) (env : HpqEnvelope) (page : PageNumber)
      (step : Result Error (Bytes × RatchetState)) (a : Accepted)
      → after_step p cipher host draws d c env page step ≡ ok (some a)
      → (mk : Bytes) × (kem_ss : Bytes) × (pt : Bytes) × (st : RatchetState) × (step ≡ ok (mk, st))
        × (open_with_secrets p cipher env mk kem_ss ≡ ok pt)
        × (check_inner p cipher host draws c env page st pt ≡ ok (some a))
  unfolding after_step after_open
  after_step_lem d c env page (err e) a h = absurd (stale-none d c env (step_failed e) a h)
  after_step_lem d c env page (ok (mk, st)) a h =
      let (via, _, h1) = >>=-eq-ok (decrypt_via_for_contact p cipher host c) _ h in
      let (kem_ss, _, h2) = >>=-eq-ok (ratchet_kem_ss p cipher host env via) _ h1 in
      let (pt, opened, checked) =
        after_open_lem d c env page st (open_with_secrets p cipher env mk kem_ss) a h2 in
      (mk, kem_ss, pt, st, refl, opened, checked)

  contact_of_queue_lem :
      (d : Device) (queue : Text) (c : DmContact) (st : RatchetState)
      → contact_of_queue p cipher host draws d queue ≡ ok (c, st)
      → (find (is_queue_owner p cipher host draws queue) (list_contacts d.storage.contacts)
          ≡ some c)
        × (c.ratchet_capable ≡ true)
        × (read_ratchet d c.did ≡ some st)
  unfolding contact_of_queue
  contact_of_queue_lem d queue c st h = ground (arith, h)

  pub accept_ratchet-IsAuthentic :
      (d : Device) (queue_id : Option Text) (env : HpqEnvelope) (page : PageNumber) (a : Accepted)
      → accept_ratchet p cipher host draws d queue_id env page ≡ ok (some a)
      → (queue : Text) × (queue_id ≡ some queue) × IsAuthentic d queue env page a
  unfolding accept_ratchet
  accept_ratchet-IsAuthentic d queue_id env page a h =
      let (queue, named, h1) = >>=-eq-ok (ok_or queue_id bad_topic) _ h in
      let ((c, st0), owned, h2) = >>=-eq-ok (contact_of_queue p cipher host draws d queue) _ h1 in
      let (dh, _, h3) = >>=-eq-ok (eph_key p cipher host draws env) _ h2 in
      let (mk, kem_ss, pt, st, step, opened, checked) = after_step_lem d c env page _ a h3 in
      let (found, capable, stored) = contact_of_queue_lem d queue c st0 owned in
      let (parsed, from, state, signed) = check_inner_lem c env page st pt a checked in
      let first = found ∙ ap some (sym from) in
      let passes = find-some (is_queue_owner p cipher host draws queue) _ a.contact first in
      (
        queue,
        ok_or-eq-ok queue_id bad_topic queue named,
        record {
          owner = first;
          active = ground (arith, passes);
          owns = ground (arith, passes);
          capable = ap (λ (k : DmContact). k.ratchet_capable) from ∙ capable;
          opened = (
            st0,
            dh,
            mk,
            kem_ss,
            pt,
            ap (λ (k : DmContact). read_ratchet d k.did) from ∙ stored,
            step ∙ ap (λ s. ok (mk, s)) (sym state),
            opened,
            parsed,
          );
          is_signed = signed;
        },
      )
