-- ===== src/Receiving/Opening.antt =====
-- Whose keys open an envelope, and opening it (capsules/hey-core/src/api/dms.rs): those of the
-- contact's anonymous identity, which are here, or the session's, which the identity provider holds.
use hey_capsule.Prelude.{
  Option, none, some, Text, find, length, ◌==◌, if◌then◌else◌, Result, ok, err, ◌>>=◌, ok_or,
}
use hey_capsule.Identity.Hex.{HexError, seed32}
use hey_capsule.Crypto.Kdf.{Bytes, Primitives}
use hey_capsule.Crypto.Attachment.{Aead}
use hey_capsule.Crypto.Envelope.{
  EnvelopeError, HpqEnvelope, envelope_recipient_inputs, open_with_secrets,
}
use hey_capsule.Contacts.Record.{DmContact, AnonIdentity, IdentityMode, anonymous, regular, is_text}
use hey_capsule.Contacts.Store.{list_contacts}
use hey_capsule.Receiving.{
  WireError, no_identity, bad_eph, kem_failed, key_error, open_failed, Host, Device,
}

-- The private halves of `UserKeys`.
pub data DecryptVia : Type 0 where
  local : Bytes → Bytes → DecryptVia
  provider : DecryptVia

abbrev pub or_key_error {ℓ} : {A : Type ℓ} → Result HexError A → Result WireError A
or_key_error (ok a) = ok a
or_key_error (err e) = err (key_error e)

abbrev pub or_open_error {ℓ} : {A : Type ℓ} → Result EnvelopeError A → Result WireError A
or_open_error (ok a) = ok a
or_open_error (err e) = err (open_failed e)

module _ (p : Primitives) (c : Aead) (host : Host) where
  -- An X25519 private key is the seed itself.
  unfoldable pub anon_user_keys : AnonIdentity → Result WireError DecryptVia
  anon_user_keys a = do
    seed ← or_key_error (seed32 a.seed_hex)
    kem_secret ← ok_or (p.b64_decode a.ml_kem_secret_b64) no_identity
    kem_public ← ok_or (p.b64_decode a.ml_kem_public_b64) no_identity
    ok (local seed kem_secret)

  abbrev pub via_of : IdentityMode → Option AnonIdentity → Result WireError DecryptVia
  via_of regular anon = ok provider
  via_of anonymous none = err no_identity
  via_of anonymous (some a) = anon_user_keys a

  unfoldable pub decrypt_via_for_contact : DmContact → Result WireError DecryptVia
  decrypt_via_for_contact contact = via_of contact.mode contact.anon_identity

  unfoldable pub decrypt_via_for_queue : Device → Option Text → Result WireError DecryptVia
  decrypt_via_for_queue d none = ok provider
  decrypt_via_for_queue d (some queue_id) =
      elim (find (λ (k : DmContact). is_text k.my_inbound_queue queue_id)
        (list_contacts d.storage.contacts)) [
          | none ↦ ok provider
          | some contact ↦ decrypt_via_for_contact contact
        ]

  unfoldable pub ml_kem_decapsulate_local : Bytes → Bytes → Result WireError Bytes
  ml_kem_decapsulate_local kem_ct ml_kem_secret =
      if length ml_kem_secret == 2400
      then (if length kem_ct == 1088
          then ok_or (p.ml_kem_decapsulate kem_ct ml_kem_secret) kem_failed
          else err kem_failed)
      else err kem_failed

  unfoldable pub shared_secrets : DecryptVia → Bytes → Bytes → Result WireError (Bytes × Bytes)
  shared_secrets (local x25519_priv kem_secret) eph_pub kem_ct =
      if length eph_pub == 32
      then (do k ← ml_kem_decapsulate_local kem_ct kem_secret; ok (p.dh x25519_priv eph_pub, k))
      else err bad_eph
  shared_secrets provider eph_pub kem_ct = do
    x ← ok_or (host.provider_dh eph_pub) kem_failed
    k ← ok_or (host.provider_kem kem_ct) kem_failed
    ok (x, k)

  unfoldable pub open_envelope : HpqEnvelope → DecryptVia → Result WireError Bytes
  open_envelope env via = do
    (eph, kem_ct) ← or_open_error (envelope_recipient_inputs p c env)
    (x, k) ← shared_secrets via eph kem_ct
    or_open_error (open_with_secrets p c env x k)

  unfoldable pub ratchet_kem_ss : HpqEnvelope → DecryptVia → Result WireError Bytes
  ratchet_kem_ss env (local x25519_priv kem_secret) = do
    (_, kem_ct) ← or_open_error (envelope_recipient_inputs p c env)
    ml_kem_decapsulate_local kem_ct kem_secret
  ratchet_kem_ss env provider = do
    (_, kem_ct) ← or_open_error (envelope_recipient_inputs p c env)
    ok_or (host.provider_kem kem_ct) kem_failed
