-- ===== src/Receiving/Authentic.antt =====
-- What a ratchet message must be before anything that is stored changes
-- (capsules/hey-core/src/api/dms.rs).
use hey_capsule.Prelude.{
  ◌≡◌, refl, ap, ◌∙◌, Bool, true, false, ◌⊎◌, inl, inr, Option, none, some, Text, codes, text_key,
  insert, Bool-cases, Option-cases, Result-cases, Result, ok, err,
}
use hey_capsule.Crypto.Kdf.{Primitives}
use hey_capsule.Crypto.Attachment.{Aead}
use hey_capsule.Crypto.Envelope.{HpqEnvelope}
use hey_capsule.Contacts.Rotation.{maybe_rotate_inbound_queue}
use hey_capsule.Groups.Incoming.{GroupError}
use hey_capsule.Events.Values.{get}
use hey_capsule.Receiving.{Device, Host, Draws, write_ratchet, ratchet_path}
use hey_capsule.Receiving.Advance.{
  PageNumber, Accepted, accept_ratchet, rotated, store_group, store_message, finish_group,
  deliver_ratchet, is_empty_body, commit, receive_ratchet_message,
}
use hey_capsule.Receiving.Checks.{IsAuthentic, accept_ratchet-IsAuthentic}

module _ (p : Primitives) (cipher : Aead) (host : Host) (draws : Draws) where
  pub rotated-ratchets :
      (b : Bool) (did : Text) (d : Device)
      → (rotated p cipher host draws b did d).ratchets ≡ d.ratchets
  unfolding rotated
  rotated-ratchets false did d = refl
  rotated-ratchets true did d =
      elim (Option-cases (
        maybe_rotate_inbound_queue draws.new_queue draws.new_pseudonym d.storage.contacts did
          draws.now)) [
            | inl kept ↦ rw (kept, rotated) refl
            | inr (contacts, changed) ↦ rw (changed, rotated) refl
          ]

  -- The ratchets stay, or that of the message's contact is the stepped one.
  abbrev pub Steps : Device → Accepted → Device → Type 0
  Steps d a d' =
      (d'.ratchets ≡ d.ratchets)
      ⊎ (d'.ratchets ≡ insert (ratchet_path a.contact.did) a.state d.ratchets)

  finish_group-Steps :
      (d : Device) (a : Accepted) (r : Result GroupError Bool) (d' : Device)
      → d'.ratchets ≡ d.ratchets
      → Steps d a (finish_group p cipher host draws a (r, d')).1
  unfolding finish_group write_ratchet
  finish_group-Steps d a (err e) d' same = inl same
  finish_group-Steps d a (ok appended) d' same = inr (
      rotated-ratchets appended a.contact.did (write_ratchet a.contact.did a.state d')
      ∙ ap (insert (ratchet_path a.contact.did) a.state) same)

  deliver_ratchet-Steps :
      (d : Device) (env : HpqEnvelope) (a : Accepted)
      → Steps d a (deliver_ratchet p cipher host draws d env a).1
  unfolding deliver_ratchet store_group store_message write_ratchet
  deliver_ratchet-Steps d env a = elim (Option-cases (get (codes "group") a.inner.body)) [
    | inl direct ↦ elim (Bool-cases (is_empty_body p cipher host draws a.inner.body)) [
      | inl empty ↦ rw (deliver_ratchet, direct, empty) (inl refl)
      | inr full ↦ rw (deliver_ratchet, direct, full) (inr (rotated-ratchets _ a.contact.did _))
    ]
    | inr (group, e) ↦ rw (deliver_ratchet, e) (finish_group-Steps d a _ _ refl)
  ]

  -- A ratchet wire changes nothing of what is stored, contacts, conversations, groups and ratchets,
  -- unless it is authentic: it opened under a key that the ratchet of the first active contact owning
  -- the queue gave for its page number, and its payload is signed by that contact over the same
  -- header. Then no ratchet but that contact's changes, and only to the state after the step.
  pub receive_ratchet_message-IsAuthentic :
      (d : Device) (queue_id : Option Text) (env : HpqEnvelope) (page : PageNumber)
      → let d' = (receive_ratchet_message p cipher host draws d queue_id env page).1 in
        (d' ≡ d)
        ⊎ ((a : Accepted) × (queue : Text) × (queue_id ≡ some queue)
            × IsAuthentic p cipher host draws d queue env page a
            × Steps d a d')
  unfolding receive_ratchet_message commit
  receive_ratchet_message-IsAuthentic d queue_id env page =
      elim (Result-cases (accept_ratchet p cipher host draws d queue_id env page)) [
        | inr (e, refused) ↦ inl (rw refused refl)
        | inl (none, old) ↦ inl (rw old refl)
        | inl (some a, new) ↦
            let (queue, named, authentic) =
              accept_ratchet-IsAuthentic p cipher host draws d queue_id env page a new in
            inr (a, queue, named, authentic, rw new (deliver_ratchet-Steps d env a))
      ]
