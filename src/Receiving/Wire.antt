-- ===== src/Receiving/Wire.antt =====
-- The dispatch of a wire (`receive_v2_wire`, capsules/hey-core/src/api/dms.rs).
use hey_capsule.Prelude.{
  Bool, false, Option, none, some, ◌++◌, Text, codes, text_eq, strip_prefix, if◌then◌else◌, Result,
  ok, err, ◌>>=◌, ok_or,
}
use hey_capsule.Crypto.Kdf.{Primitives}
use hey_capsule.Crypto.Attachment.{Aead}
use hey_capsule.Crypto.Envelope.{HpqEnvelope}
use hey_capsule.Contacts.Record.{topic_prefix}
use hey_capsule.Events.Values.{Json, get}
use hey_capsule.Receiving.{
  WireError, bad_json, not_dm_v2, no_envelope, envelope_shape, bad_topic, unknown_kind,
  InnerPayload, Device, Host, Draws,
}
use hey_capsule.Receiving.Payload.{u32_field, str_field}
use hey_capsule.Receiving.Advance.{PageNumber, Outcome, receive_ratchet_message}
use hey_capsule.Receiving.Handshake.{receive_handshake, receive_welcome}
use hey_capsule.Receiving.Single.{open_inner, receive_single_message}

unfoldable pub queue_id_from_topic : Text → Option Text
queue_id_from_topic topic = strip_prefix (topic_prefix ++ codes "/") topic

abbrev pub is_str : Text → Option Text → Bool
is_str s none = false
is_str s (some t) = text_eq t s

-- What a wire is: a message of the ratchet or a sealed envelope.
pub data Parsed : Type 0 where
  ratchet_page : HpqEnvelope → PageNumber → Parsed
  sealed : HpqEnvelope → Parsed

unfoldable pub page_of : Json → Result WireError PageNumber
page_of rh = do
  pn ← u32_field rh (codes "pn")
  n ← u32_field rh (codes "n")
  ok (record {
    pn = pn;
    n = n;
    kem_ct = str_field (codes "kc") rh;
    kem_pub = str_field (codes "kp") rh;
  })

module _ (p : Primitives) (cipher : Aead) (host : Host) (draws : Draws) where
  unfoldable pub parse_wire : Text → Result WireError Parsed
  parse_wire wire = do
    v ← ok_or (host.parse wire) bad_json
    env_val ←
        (if is_str (codes "dm.v2") (str_field (codes "type") v)
          then ok_or (get (codes "envelope") v) no_envelope
          else err not_dm_v2)
    env ← ok_or (host.envelope_of env_val) envelope_shape
    (elim (get (codes "rh") v) [
      | none ↦ ok (sealed env)
      | some rh ↦ (do page ← page_of rh; ok (ratchet_page env page))
    ])

  -- A sealed payload goes by its kind.
  unfoldable pub by_kind :
      Device → Option Text → HpqEnvelope → Result WireError InnerPayload → Outcome
  by_kind d queue_id env (err e) = (err e, d)
  by_kind d queue_id env (ok inner) =
      if text_eq inner.kind (codes "message")
      then receive_single_message p cipher host draws d queue_id env inner
      else if text_eq inner.kind (codes "handshake")
      then (elim queue_id [
        | none ↦ (err bad_topic, d)
        | some queue ↦ receive_handshake p cipher host draws d inner queue
      ])
      else if text_eq inner.kind (codes "welcome")
      then receive_welcome p cipher host draws d inner
      else (err unknown_kind, d)

  unfoldable pub dispatch : Device → Option Text → Result WireError Parsed → Outcome
  dispatch d queue_id (err e) = (err e, d)
  dispatch d queue_id (ok (ratchet_page env page)) =
      receive_ratchet_message p cipher host draws d queue_id env page
  dispatch d queue_id (ok (sealed env)) =
      by_kind d queue_id env (open_inner p cipher host draws d queue_id env)

  unfoldable pub receive_v2_wire : Device → Text → Text → Outcome
  receive_v2_wire d topic wire = dispatch d (queue_id_from_topic topic) (parse_wire wire)
