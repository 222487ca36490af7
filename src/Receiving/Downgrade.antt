-- ===== src/Receiving/Downgrade.antt =====
-- A sealed message outside the ratchet is taken only from a contact that has none
-- (capsules/hey-core/src/api/dms.rs).
use hey_capsule.Prelude.{
  is_some, modify_first, find-some, text_eq_iff, none, ◌≡◌, refl, ap, ◌∙◌, sym, Bool, true, false,
  ◌⊎◌, inl, inr, Option, some, Text, codes, text_eq, find, Bool-cases, Option-cases, Result-cases,
  arith, Result, ok, err, ok_or, >>=-eq-ok, ok_or-eq-ok, if◌then◌else◌,
}
use hey_capsule.Crypto.Kdf.{Primitives}
use hey_capsule.Crypto.Attachment.{Aead}
use hey_capsule.Crypto.Envelope.{HpqEnvelope}
use hey_capsule.Contacts.Record.{DmContact, is_active, owns_inbound_queue_with}
use hey_capsule.Contacts.Store.{is_did, list_contacts}
use hey_capsule.Groups.Incoming.{GroupError}
use hey_capsule.Events.Values.{get}
use hey_capsule.Receiving.{
  bad_topic, unowned_queue, unknown_kind, inner_shape, InnerPayload, Device, Host, Draws,
}
use hey_capsule.Receiving.Payload.{str_field, verify_inner}
use hey_capsule.Receiving.Signature.{IsSignedBySender, verify_inner-IsSignedBySender}
use hey_capsule.Receiving.Opening.{or_key_error, decrypt_via_for_queue, open_envelope}
use hey_capsule.Receiving.Advance.{
  Outcome, with_contacts, is_empty_body, store_group, store_message,
}
use hey_capsule.Receiving.Checks.{or_key_error-ok}
use hey_capsule.Receiving.Authentic.{rotated-ratchets}
use hey_capsule.Receiving.Single.{
  open_inner, is_sender, check_sender, finish_single_group, deliver_single, after_check,
  receive_single_message,
}
use hey_capsule.Receiving.Wire.{by_kind}
use hey_capsule.Receiving.Handshake.{is_invited, receive_handshake, receive_welcome}
use hey_capsule.Receiving.Promotion.{receive_handshake-Used-same}

module _ (p : Primitives) (cipher : Aead) (host : Host) (draws : Draws) where
  open_inner-signed :
      (d : Device) (queue_id : Option Text) (env : HpqEnvelope) (inner : InnerPayload)
      → open_inner p cipher host draws d queue_id env ≡ ok inner
      → IsSignedBySender host inner
  unfolding open_inner
  open_inner-signed d queue_id env inner h =
      let (via, _, h1) = >>=-eq-ok (decrypt_via_for_queue p cipher host d queue_id) _ h in
      let (pt, _, h2) = >>=-eq-ok (open_envelope p cipher host env via) _ h1 in
      let (i, _, h3) = >>=-eq-ok (ok_or (host.parse_inner pt) inner_shape) _ h2 in
      let (signed, verified, h4) = >>=-eq-ok (or_key_error (verify_inner host i)) _ h3 in
      let both : (signed ≡ true) × (i ≡ inner) = ground (arith, h4) in
      verify_inner-IsSignedBySender host inner (
        ap (verify_inner host) (sym both.1)
        ∙ or_key_error-ok (verify_inner host i) signed verified
        ∙ ap ok both.0)

  check_sender_lem :
      (d : Device) (queue_id : Option Text) (inner : InnerPayload) (owner : DmContact)
      → check_sender p cipher host draws d queue_id inner ≡ ok owner
      → (queue : Text) × (queue_id ≡ some queue)
        × (find (is_sender p cipher host draws queue inner) (list_contacts d.storage.contacts)
            ≡ some owner)
        × (owner.did ≡ inner.sender_did)
        × (is_active owner.status ≡ true)
        × (owns_inbound_queue_with host.sha256 owner queue draws.my_did ≡ true)
        × (owner.ratchet_capable ≡ false)
  unfolding check_sender
  check_sender_lem d queue_id inner owner h =
      let (queue, named, h1) = >>=-eq-ok (ok_or queue_id bad_topic) _ h in
      let (c, found, h2) =
        >>=-eq-ok
          (ok_or
            (find (is_sender p cipher host draws queue inner) (list_contacts d.storage.contacts))
            unowned_queue)
          _ h1 in
      let both : (c.ratchet_capable ≡ false) × (c ≡ owner) = ground (arith, h2) in
      let first = ok_or-eq-ok _ unowned_queue c found ∙ ap some both.1 in
      let passes = find-some (is_sender p cipher host draws queue inner) _ owner first in
      (
        queue,
        ok_or-eq-ok queue_id bad_topic queue named,
        first,
        (text_eq_iff owner.did inner.sender_did).0 (ground (arith, passes)),
        ground (arith, passes),
        ground (arith, passes),
        ap (λ (k : DmContact). k.ratchet_capable) (sym both.1) ∙ both.0,
      )

  finish_single_group-device :
      (r : Result GroupError Bool) (d : Device)
      → (finish_single_group p cipher host draws (r, d)).1 ≡ d
  unfolding finish_single_group
  finish_single_group-device (err e) d = refl
  finish_single_group-device (ok b) d = refl

  deliver_single-ratchets :
      (d : Device) (env : HpqEnvelope) (inner : InnerPayload)
      → (deliver_single p cipher host draws d env inner).1.ratchets ≡ d.ratchets
  unfolding deliver_single store_group store_message
  deliver_single-ratchets d env inner = elim (Option-cases (get (codes "group") inner.body)) [
    | inl direct ↦ elim (Bool-cases (is_empty_body p cipher host draws inner.body)) [
      | inl empty ↦ rw (deliver_single, direct, empty) refl
      | inr full ↦
          rw (deliver_single, direct, full)
            (rotated-ratchets p cipher host draws _ inner.sender_did _)
    ]
    | inr (group, e) ↦
        rw (deliver_single, e) (ap (λ (x : Device). x.ratchets) (finish_single_group-device _ _))
  ]

  -- The message of an envelope, and the contact that it is from.
  pub record IsAllowed (d : Device) (queue_id : Option Text) (env : HpqEnvelope)
      (inner : InnerPayload) (owner : DmContact) : Type 0 where
    pub opened : open_inner p cipher host draws d queue_id env ≡ ok inner
    pub signed : IsSignedBySender host inner
    pub kind : text_eq inner.kind (codes "message") ≡ true
    pub on_queue :
        (queue : Text) × (queue_id ≡ some queue)
        × (find (is_sender p cipher host draws queue inner) (list_contacts d.storage.contacts)
            ≡ some owner)
        × (owner.did ≡ inner.sender_did)
        × (is_active owner.status ≡ true)
        × (owns_inbound_queue_with host.sha256 owner queue draws.my_did ≡ true)
        × (owner.ratchet_capable ≡ false)

  -- A handshake on a queue, which finds a pending contact that has it.
  pub record IsHandshake (d : Device) (queue_id : Option Text) (inner : InnerPayload) (d' : Device)
      : Type 0 where
    pub kind : text_eq inner.kind (codes "handshake") ≡ true
    pub queue : Text
    pub named : queue_id ≡ some queue
    pub pending : DmContact
    pub was_invited : find (is_invited queue) (list_contacts d.storage.contacts) ≡ some pending
    pub result : d' ≡ (receive_handshake p cipher host draws d inner queue).1

  -- A welcome, which gives the queue of the contact that it is from and changes nothing else.
  pub record IsWelcome (d : Device) (inner : InnerPayload) (d' : Device) : Type 0 where
    pub kind : text_eq inner.kind (codes "welcome") ≡ true
    pub queue : Text
    pub brought : str_field (codes "my_inbound_queue") inner.body ≡ some queue
    pub result :
        d'
        ≡ with_contacts p cipher host draws d (
            some (
              modify_first
                (is_did inner.sender_did)
                (λ (c : DmContact). record c { their_inbound_queue = some queue })
                (list_contacts d.storage.contacts)))

  -- A handshake or a welcome that is the payload of the envelope.
  pub record IsControl (d : Device) (queue_id : Option Text) (env : HpqEnvelope)
      (inner : InnerPayload) (d' : Device) : Type 0 where
    pub opened : open_inner p cipher host draws d queue_id env ≡ ok inner
    pub signed : IsSignedBySender host inner
    pub effect : IsHandshake d queue_id inner d' ⊎ IsWelcome d inner d'

  abbrev pub Allows : Device → Option Text → HpqEnvelope → Device → Type 0
  Allows d queue_id env d' =
      (d' ≡ d)
      ⊎ (((inner : InnerPayload) × (owner : DmContact) × IsAllowed d queue_id env inner owner
            × (d'.ratchets ≡ d.ratchets))
          ⊎ ((inner : InnerPayload) × IsControl d queue_id env inner d'))

  abbrev on_queue : Device → Option Text → InnerPayload → Outcome
  on_queue d queue_id inner = elim queue_id [
    | none ↦ (err bad_topic, d)
    | some queue ↦ receive_handshake p cipher host draws d inner queue
  ]

  abbrev handled : Device → Option Text → InnerPayload → Outcome
  handled d queue_id inner =
      if text_eq inner.kind (codes "handshake")
      then (elim queue_id [
        | none ↦ (err bad_topic, d)
        | some queue ↦ receive_handshake p cipher host draws d inner queue
      ])
      else if text_eq inner.kind (codes "welcome")
      then receive_welcome p cipher host draws d inner
      else (err unknown_kind, d)

  receive_handshake-IsHandshake :
      (d : Device) (queue : Text) (inner : InnerPayload)
      → text_eq inner.kind (codes "handshake") ≡ true
      → let d' = (receive_handshake p cipher host draws d inner queue).1 in
        (d' ≡ d) ⊎ IsHandshake d (some queue) inner d'
  receive_handshake-IsHandshake d queue inner kind =
      elim (Option-cases (find (is_invited queue) (list_contacts d.storage.contacts))) [
        | inl used ↦ inl (receive_handshake-Used-same p cipher host draws d inner queue used)
        | inr (c, found) ↦ inr (record {
          kind = kind;
          queue = queue;
          named = refl;
          pending = c;
          was_invited = found;
          result = refl;
        })
      ]

  receive_welcome-IsWelcome :
      (d : Device) (inner : InnerPayload)
      → text_eq inner.kind (codes "welcome") ≡ true
      → let d' = (receive_welcome p cipher host draws d inner).1 in (d' ≡ d) ⊎ IsWelcome d inner d'
  unfolding receive_welcome
  receive_welcome-IsWelcome d inner kind =
      elim (Option-cases (str_field (codes "my_inbound_queue") inner.body)) [
        | inl silent ↦ inl (rw (receive_welcome, silent) refl)
        | inr (queue, brought) ↦
            elim (Bool-cases
              (is_some (find (is_did inner.sender_did) (list_contacts d.storage.contacts)))) [
                | inr stranger ↦ inl (rw (receive_welcome, brought, stranger) refl)
                | inl known ↦ inr (record {
                  kind = kind;
                  queue = queue;
                  brought = brought;
                  result = rw (receive_welcome, brought, known) refl;
                })
              ]
      ]

  control :
      {d : Device} {queue_id : Option Text} {env : HpqEnvelope} {inner : InnerPayload} {d' : Device}
      → open_inner p cipher host draws d queue_id env ≡ ok inner
      → IsSignedBySender host inner
      → (d' ≡ d) ⊎ (IsHandshake d queue_id inner d' ⊎ IsWelcome d inner d')
      → Allows d queue_id env d'
  control opened signed (inl same) = inl same
  control opened signed (inr effect) =
      inr (inr (_, record { opened = opened; signed = signed; effect = effect }))

  on_queue-effect :
      (d : Device) (queue_id : Option Text) (inner : InnerPayload)
      → text_eq inner.kind (codes "handshake") ≡ true
      → let d' = (on_queue d queue_id inner).1 in
        (d' ≡ d) ⊎ (IsHandshake d queue_id inner d' ⊎ IsWelcome d inner d')
  on_queue-effect d none inner kind = inl refl
  on_queue-effect d (some queue) inner kind =
      elim (receive_handshake-IsHandshake d queue inner kind) [
        | inl same ↦ inl same
        | inr shake ↦ inr (inl shake)
      ]

  handled-effect :
      (d : Device) (queue_id : Option Text) (inner : InnerPayload)
      → let d' = (handled d queue_id inner).1 in
        (d' ≡ d) ⊎ (IsHandshake d queue_id inner d' ⊎ IsWelcome d inner d')
  handled-effect d queue_id inner = elim (Bool-cases (text_eq inner.kind (codes "handshake"))) [
    | inl shake ↦ rw shake (on_queue-effect d queue_id inner shake)
    | inr no_shake ↦ elim (Bool-cases (text_eq inner.kind (codes "welcome"))) [
      | inl back ↦
          rw (no_shake, back)
            (elim (receive_welcome-IsWelcome d inner back) [
              | inl same ↦ inl same
              | inr welcome ↦ inr (inr welcome)
            ])
      | inr unknown ↦ rw (no_shake, unknown) (inl refl)
    ]
  ]

  receive_single_message-Allows :
      (d : Device) (queue_id : Option Text) (env : HpqEnvelope) (inner : InnerPayload)
      → open_inner p cipher host draws d queue_id env ≡ ok inner
      → IsSignedBySender host inner
      → text_eq inner.kind (codes "message") ≡ true
      → Allows d queue_id env (receive_single_message p cipher host draws d queue_id env inner).1
  unfolding receive_single_message after_check
  receive_single_message-Allows d queue_id env inner opened signed kind =
      elim (Result-cases (check_sender p cipher host draws d queue_id inner)) [
        | inr (e, refused) ↦ inl (rw refused refl)
        | inl (owner, let_in) ↦ inr (
            inl (
              inner,
              owner,
              record {
                opened = opened;
                signed = signed;
                kind = kind;
                on_queue = check_sender_lem d queue_id inner owner let_in;
              },
              rw let_in (deliver_single-ratchets d env inner),
            ))
      ]

  -- A sealed envelope outside the ratchet changes nothing of what is stored unless its own payload
  -- opens, is signed under the key that the sender's did is, and is one of three. It is a message, the first active contact with the
  -- sender's did that owns the queue has no ratchet, and no ratchet changes. Or it is a handshake for
  -- which a pending contact has the queue, and does what `receive_handshake` does. Or it is a welcome,
  -- and sets no more than the outbound queue of the first contact with the sender's did.
  pub by_kind-Allows :
      (d : Device) (queue_id : Option Text) (env : HpqEnvelope)
      → Allows d queue_id env
          (by_kind p cipher host draws d queue_id env
            (open_inner p cipher host draws d queue_id env)).1
  unfolding by_kind
  by_kind-Allows d queue_id env =
      elim (Result-cases (open_inner p cipher host draws d queue_id env)) [
        | inr (e, closed) ↦ rw closed (inl refl)
        | inl (inner, opened) ↦
            let signed = open_inner-signed d queue_id env inner opened in
            rw opened (elim (Bool-cases (text_eq inner.kind (codes "message"))) [
              | inl message ↦
                  rw message
                    (receive_single_message-Allows d queue_id env inner opened signed message)
              | inr other ↦ rw other (control opened signed (handled-effect d queue_id inner))
            ])
      ]
