-- ===== src/Receiving/Handshake.antt =====
-- The answer to an invite and the welcome that follows (`receive_handshake` and `receive_welcome`,
-- capsules/hey-core/src/api/dms.rs), up to what they store. The welcome that is sent, and the topics
-- that are forgotten, follow from what is returned and are not modelled.
use hey_capsule.Prelude.{
  Bool, true, false, not, ◌&&◌, ◌||◌, Option, none, some, [], ◌∷◌, ◌++◌, Text, codes, find,
  is_empty, is_some, strip_prefix, length, modify_first, remove_first, ◌==◌, if◌then◌else◌, Result,
  ok, err, ◌>>=◌, ok_or,
}
use hey_capsule.Crypto.Kdf.{Bytes, Primitives, root_init}
use hey_capsule.Crypto.Attachment.{Aead}
use hey_capsule.Ratchet.State.{Error, RatchetState, is_bootstrapped, b32}
use hey_capsule.Ratchet.Steps.{ratchet_init_responder}
use hey_capsule.Contacts.Record.{DmContact, PeerKeys, active, is_active, is_text}
use hey_capsule.Contacts.Store.{is_did, list_contacts, sort_newest}
use hey_capsule.Groups.{or_default}
use hey_capsule.Events.Values.{Json, get}
use hey_capsule.Receiving.{
  WireError, no_queue, no_keys, bad_ratchet, no_prekey, step_failed, InnerPayload, Device, Host,
  Draws, read_ratchet, write_ratchet, remove_ratchet,
}
use hey_capsule.Receiving.Payload.{and_then, str_field}
use hey_capsule.Receiving.Opening.{decrypt_via_for_contact, shared_secrets}
use hey_capsule.Receiving.Advance.{Outcome, with_contacts}

-- What a handshake says.
pub record Offer : Type 0 where
  pub their_queue : Text
  pub their_keys : PeerKeys
  pub their_name : Text
  pub their_ticket : Text

abbrev pub or_step_error {ℓ} : {A : Type ℓ} → Result Error A → Result WireError A
or_step_error (ok a) = ok a
or_step_error (err e) = err (step_failed e)

abbrev pub is_invited : Text → DmContact → Bool
is_invited queue c = is_text c.my_inbound_queue queue && not (is_active c.status)

abbrev pub is_unnamed : Text → Bool
is_unnamed name = is_empty name || is_some (strip_prefix (codes "pending:") name)

module _ (p : Primitives) (cipher : Aead) (host : Host) (draws : Draws) where
  unfoldable pub offer_of : Json → Result WireError Offer
  offer_of body = do
    queue ← ok_or (str_field (codes "my_inbound_queue") body) no_queue
    keys ← ok_or (and_then (get (codes "pubkeys") body) host.keys_of) no_keys
    ok (record {
      their_queue = queue;
      their_keys = keys;
      their_name = or_default (str_field (codes "name") body) [];
      their_ticket = or_default (str_field (codes "node_ticket") body) [];
    })

  -- The pending contact as it becomes active, but for its ratchet.
  unfoldable pub promoted : InnerPayload → Offer → DmContact → DmContact
  promoted inner offer c = record c {
    did = inner.sender_did;
    their_inbound_queue = some offer.their_queue;
    peer_pubkeys = some offer.their_keys;
    peer_ticket = if is_empty offer.their_ticket then c.peer_ticket else some offer.their_ticket;
    status = active;
    name = if is_unnamed c.name then offer.their_name else c.name;
    last_ts = inner.ts;
    last_preview = codes "Invite accepted ✓";
    my_inbound_queue = some draws.new_queue;
    my_recv_pseudonym = some draws.new_pseudonym;
  }

  abbrev pub field_bytes : Json → Text → Result WireError Bytes
  field_bytes rb key = ok_or (and_then (str_field key rb) p.b64_decode) bad_ratchet

  -- The rolling key of the peer, which an older one leaves out.
  abbrev pub rolling_key : Option Text → Result WireError (Option Bytes)
  rolling_key none = ok none
  rolling_key (some s) = do k ← ok_or (p.b64_decode s) bad_ratchet; ok (some k)

  -- The ratchet from the stashed prekey and the handshake's block.
  unfoldable pub responder_ratchet : DmContact → RatchetState → Json → Result WireError RatchetState
  responder_ratchet c prekey rb = do
    eph_pub ← field_bytes rb (codes "eph_pub_b64")
    kem_ct ← field_bytes rb (codes "kem_ct_b64")
    dh ← field_bytes rb (codes "dh_pub_b64")
    peer_dh ← (if length dh == 32 then ok dh else err bad_ratchet)
    peer_kem_pub ← rolling_key (str_field (codes "kem_pub_b64") rb)
    via ← decrypt_via_for_contact p cipher host c
    (x3dh, kem_ss) ← shared_secrets p cipher host via eph_pub kem_ct
    prekey_priv ← or_step_error (b32 prekey.dhs_priv)
    prekey_pub ← or_step_error (b32 prekey.dhs_pub)
    or_step_error (
        ratchet_init_responder p draws.fresh draws.next_turn (root_init p x3dh kem_ss) prekey_priv
          prekey_pub peer_dh peer_kem_pub)

  -- Without a stash that is not a ratchet yet there is nothing to start from.
  unfoldable pub bootstrap_responder_ratchet :
      Device → DmContact → Text → Json → Result WireError RatchetState
  bootstrap_responder_ratchet d c placeholder_did rb = do
    prekey ← ok_or (read_ratchet d placeholder_did) no_prekey
    (if is_bootstrapped prekey then err no_prekey else responder_ratchet c prekey rb)

  -- The list with the contact in place of the pending one.
  unfoldable pub with_promoted : Text → DmContact → Device → Device
  with_promoted queue c d = with_contacts p cipher host draws d (
      some (
        sort_newest
          (remove_first (is_invited queue) (list_contacts d.storage.contacts) ++ (c ∷ []))))

  unfoldable pub finish_bootstrap :
      Device → Text → Text → DmContact → Result WireError RatchetState → Outcome
  finish_bootstrap d queue placeholder_did c (err e) = (err e, d)
  finish_bootstrap d queue placeholder_did c (ok st) = (
    ok tt,
    remove_ratchet placeholder_did
        (with_promoted queue (record c { ratchet_capable = true }) (write_ratchet c.did st d)),
  )

  -- Promotion by the ratchet block, all or nothing where there is one.
  unfoldable pub promote : Device → Text → DmContact → DmContact → Option Json → Outcome
  promote d queue pending c none = (
    ok tt,
    with_promoted queue (record c { ratchet_capable = false }) (remove_ratchet pending.did d),
  )
  promote d queue pending c (some rb) =
      finish_bootstrap d queue pending.did c (bootstrap_responder_ratchet d c pending.did rb)

  -- What the offer does to the pending contact that is found.
  unfoldable pub accept_offer : Device → InnerPayload → Text → Offer → Option DmContact → Outcome
  accept_offer d inner queue offer none = (ok tt, d)
  accept_offer d inner queue offer (some pending) =
      promote d queue pending (promoted inner offer pending) (get (codes "ratchet") inner.body)

  unfoldable pub on_offer : Device → InnerPayload → Text → Result WireError Offer → Outcome
  on_offer d inner on_queue (err e) = (err e, d)
  on_offer d inner on_queue (ok offer) =
      accept_offer d inner on_queue offer
        (find (is_invited on_queue) (list_contacts d.storage.contacts))

  unfoldable pub receive_handshake : Device → InnerPayload → Text → Outcome
  receive_handshake d inner on_queue = on_offer d inner on_queue (offer_of inner.body)

  unfoldable pub receive_welcome : Device → InnerPayload → Outcome
  receive_welcome d inner = elim (str_field (codes "my_inbound_queue") inner.body) [
    | none ↦ (err no_queue, d)
    | some queue ↦
        if is_some (find (is_did inner.sender_did) (list_contacts d.storage.contacts))
        then (
          ok tt,
          with_contacts p cipher host draws d (
              some (
                modify_first (is_did inner.sender_did)
                  (λ (c : DmContact). record c { their_inbound_queue = some queue })
                  (list_contacts d.storage.contacts))),
        )
        else (ok tt, d)
  ]
