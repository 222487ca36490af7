-- ===== src/Receiving.antt =====
-- Receiving a wire (`receive_v2_wire` and what it calls, capsules/hey-core/src/api/dms.rs): parsing,
-- opening, the checks, and what is stored. A wire is a JSON
-- text in UTF-8. Storage does not fail.
pub mod Payload
pub mod Opening
pub mod Advance
pub mod Single
pub mod Wire
pub mod Handshake
pub mod Promotion
pub mod Revoking
pub mod Signature
pub mod Checks
pub mod Authentic
pub mod Redelivery
pub mod Downgrade
mod Tests
mod HandshakeTests
use hey_capsule.Prelude.{
  ℕ, Bool, Option, none, some, List, Text, text_key, Map, lookup, insert, remove, map, codes, ◌++◌,
  ◌||◌, ◌==◌, if◌then◌else◌,
}
use hey_capsule.Prelude.Int.{ℤ}
use hey_capsule.Identity.Hex.{HexError}
use hey_capsule.Identity.Signing.{Check}
use hey_capsule.Crypto.Kdf.{Bytes}
use hey_capsule.Crypto.Envelope.{HpqEnvelope, EnvelopeError}
use hey_capsule.Ratchet.State.{Error, Fresh, RatchetHeader, RatchetState}
use hey_capsule.Contacts.Record.{DmContact, PeerKeys}
use hey_capsule.Contacts.Bootstrap.{Minted}
use hey_capsule.Conversation.{Attachment, Storage}
use hey_capsule.Groups.{GroupMember, GroupStore}
use hey_capsule.Events.Values.{Json}

pub data WireError : Type 0 where
  bad_json not_dm_v2 no_envelope envelope_shape bad_rh bad_topic unowned_queue : WireError
  not_ratchet no_state bad_eph no_identity kem_failed inner_shape bad_signature : WireError
  header_mismatch bad_kind wrong_sender empty_body group_refused downgrade : WireError
  no_queue no_keys bad_ratchet no_prekey unknown_kind : WireError
  step_failed : Error → WireError
  open_failed : EnvelopeError → WireError
  key_error : HexError → WireError

pub record InnerPayload : Type 0 where
  pub kind : Text
  pub sender_did : Text
  pub ts : ℤ
  pub body : Json
  pub sig : Text
  pub rh : Option RatchetHeader

-- What is stored: the messenger's files, the groups, and the ratchets by path.
pub record Device : Type 0 where
  pub storage : Storage
  pub groups : GroupStore
  pub ratchets : Map Text RatchetState

-- What the code takes from elsewhere: serde_json and its derived readers and writers, SHA-256,
-- Ed25519, and the identity provider, which answers with a shared secret.
pub record Host : Type 0 where
  pub parse : Text → Option Json
  pub quote : Text → Text
  pub envelope_of : Json → Option HpqEnvelope
  pub parse_inner : Text → Option InnerPayload
  pub attachments_of : Json → Option (List Attachment)
  pub keys_of : Json → Option PeerKeys
  pub members_of : Json → Option (List GroupMember)
  pub header_value : RatchetHeader → Json
  pub sha256 : Bytes → Bytes
  pub check : Check
  pub provider_dh : Bytes → Option Bytes
  pub provider_kem : Bytes → Option Bytes

-- What one reception draws and reads: fresh keys, and those of a first turn, the time, ids and queues,
-- and this user's did.
pub record Draws : Type 0 where
  pub fresh : Fresh
  pub next_turn : Fresh
  pub now : ℕ
  pub mint : ℕ → Minted
  pub new_id : Text
  pub new_queue : Text
  pub new_pseudonym : Text
  pub my_did : Text

unfoldable pub ratchet_path : Text → Text
ratchet_path did =
    codes "dm/ratchet/"
    ++ (map (λ c. if c == b'/' || c == b':' then b'_' else c) did ++ codes ".json")

unfoldable pub read_ratchet : Device → Text → Option RatchetState
read_ratchet d did = lookup (ratchet_path did) d.ratchets

unfoldable pub write_ratchet : Text → RatchetState → Device → Device
write_ratchet did st d = record d { ratchets = insert (ratchet_path did) st d.ratchets }

unfoldable pub remove_ratchet : Text → Device → Device
remove_ratchet did d = record d { ratchets = remove (ratchet_path did) d.ratchets }
