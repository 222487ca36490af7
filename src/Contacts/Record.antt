-- ===== src/Contacts/Record.antt =====
-- The contact record and the queues that it owns: `DmContact` and its methods
-- (capsules/hey-core/src/api/dms.rs).
use hey_capsule.Prelude.{
  ℕ, ◌*◌, Bool, true, false, not, ◌&&◌, ◌||◌, Option, none, some, List, ◌∷◌, ◌++◌, Text, codes,
  text_eq, any, is_some,
}
use hey_capsule.Prelude.Int.{ℤ}
use hey_capsule.Identity.Hex.{bytes_to_hex}

abbrev pub queue_rotate_msgs : ℕ
queue_rotate_msgs = 200

abbrev pub queue_rotate_ms : ℕ
queue_rotate_ms = 7 * 24 * 60 * 60 * 1000

abbrev pub queue_rotate_floor_ms : ℕ
queue_rotate_floor_ms = 60 * 60 * 1000

abbrev pub queue_grace_ms : ℕ
queue_grace_ms = 60 * 60 * 1000

abbrev pub topic_prefix : Text
topic_prefix = codes "q"

pub data ContactStatus : Type 0 where
  pending_invite active : ContactStatus

pub data IdentityMode : Type 0 where
  regular anonymous : IdentityMode

pub record AnonIdentity : Type 0 where
  pub seed_hex : Text
  pub ml_kem_secret_b64 : Text
  pub ml_kem_public_b64 : Text
  pub did : Text

pub record PeerKeys : Type 0 where
  pub x25519_pub_b64 : Text
  pub ml_kem_pub_b64 : Text

pub record RetiredQueue : Type 0 where
  pub queue : Text
  pub pseudonym : Text
  pub retire_at : ℕ

pub record DmContact : Type 0 where
  pub did : Text
  pub name : Text
  pub last_ts : ℤ
  pub last_preview : Text
  pub unread : ℕ
  pub my_inbound_queue : Option Text
  pub my_recv_pseudonym : Option Text
  pub their_inbound_queue : Option Text
  pub my_send_pseudonym : Option Text
  pub peer_ticket : Option Text
  pub peer_pubkeys : Option PeerKeys
  pub status : ContactStatus
  pub mode : IdentityMode
  pub anon_identity : Option AnonIdentity
  pub ratchet_capable : Bool
  pub key_verified : Bool
  pub my_queue_rotated_at : ℕ
  pub my_queue_msg_count : ℕ
  pub retired_queues : List RetiredQueue

abbrev pub is_active : ContactStatus → Bool
is_active pending_invite = false
is_active active = true

abbrev pub is_regular : IdentityMode → Bool
is_regular regular = true
is_regular anonymous = false

unfoldable pub is_v2_active : DmContact → Bool
is_v2_active c =
    is_some c.peer_pubkeys && (is_some c.their_inbound_queue && is_some c.my_inbound_queue)

unfoldable pub is_legacy : DmContact → Bool
is_legacy c = not (is_some c.my_inbound_queue)

abbrev pub is_text : Option Text → Text → Bool
is_text none s = false
is_text (some t) s = text_eq t s

unfoldable pub owns_inbound_queue : DmContact → Text → Bool
owns_inbound_queue c queue_id =
    is_text c.my_inbound_queue queue_id
    || any (λ (r : RetiredQueue). text_eq r.queue queue_id) c.retired_queues

-- `sha256` is the hash that the source takes from its crate.
unfoldable pub pair_inbound_queue : (List ℕ → List ℕ) → Text → Text → Text
pair_inbound_queue sha256 recipient_did sender_did =
    bytes_to_hex
      (sha256 (codes "hey-dm-pair-inbound-v1" ++ (0 ∷ (recipient_did ++ (0 ∷ sender_did)))))

unfoldable pub owns_inbound_queue_with : (List ℕ → List ℕ) → DmContact → Text → Text → Bool
owns_inbound_queue_with sha256 c queue_id my_did =
    owns_inbound_queue c queue_id
    || (is_regular c.mode && text_eq (pair_inbound_queue sha256 my_did c.did) queue_id)
