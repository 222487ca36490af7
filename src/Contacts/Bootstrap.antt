-- ===== src/Contacts/Bootstrap.antt =====
-- Contacts made from known keys, with no invite (`bootstrap_contact_from_keys`,
-- capsules/hey-core/src/api/dms.rs). The queues and pseudonyms that `random_hex` draws are `Minted`.
use hey_capsule.Prelude.{
  Bool, true, false, not, ◌&&◌, ◌||◌, Option, none, some, List, [], ◌∷◌, ◌++◌, Text, text_eq, find,
  is_empty, modify_first, if◌then◌else◌, ℕ,
}
use hey_capsule.Prelude.Int.{pos}
use hey_capsule.Contacts.Record.{DmContact, PeerKeys, active, regular, pair_inbound_queue}
use hey_capsule.Contacts.Store.{is_did, list_contacts}

pub record Minted : Type 0 where
  pub inbound : Text
  pub recv : Text
  pub send : Text

abbrev pub same_keys : PeerKeys → PeerKeys → Bool
same_keys a b =
    text_eq a.x25519_pub_b64 b.x25519_pub_b64 && text_eq a.ml_kem_pub_b64 b.ml_kem_pub_b64

abbrev pub or_else : Option Text → Option Text → Option Text
or_else none b = b
or_else (some a) b = some a

-- A legacy contact adopts the keys.
unfoldable pub adopt : Minted → Text → PeerKeys → Option Text → Bool → DmContact → DmContact
adopt minted det keys ticket verified c = record c {
  peer_pubkeys = some keys;
  key_verified = verified;
  mode = regular;
  status = active;
  my_inbound_queue = or_else c.my_inbound_queue (some minted.inbound);
  my_recv_pseudonym = or_else c.my_recv_pseudonym (some minted.recv);
  their_inbound_queue = or_else c.their_inbound_queue (some det);
  my_send_pseudonym = or_else c.my_send_pseudonym (some minted.send);
  peer_ticket = or_else ticket c.peer_ticket;
}

-- What becomes of a contact that is there: `none` where nothing is written.
unfoldable pub bootstrap_known :
    Minted → Text → PeerKeys → Option Text → Bool → DmContact → Option DmContact
bootstrap_known minted det keys ticket verified c = elim c.peer_pubkeys [
  | some existing ↦
      if verified && not c.key_verified
      then (if same_keys existing keys
          then some (record c { key_verified = true; peer_ticket = or_else c.peer_ticket ticket })
          else some (record c {
            peer_pubkeys = some keys;
            key_verified = true;
            peer_ticket = or_else ticket c.peer_ticket;
          }))
      else none
  | none ↦ some (adopt minted det keys ticket verified c)
]

unfoldable pub new_contact : Minted → Text → Text → Text → PeerKeys → Option Text → Bool → DmContact
new_contact minted det did name keys ticket verified = record {
  did = did;
  name = name;
  last_ts = pos 0;
  last_preview = [];
  unread = 0;
  my_inbound_queue = some minted.inbound;
  my_recv_pseudonym = some minted.recv;
  their_inbound_queue = some det;
  my_send_pseudonym = some minted.send;
  peer_ticket = ticket;
  peer_pubkeys = some keys;
  status = active;
  mode = regular;
  anon_identity = none;
  ratchet_capable = false;
  key_verified = verified;
  my_queue_rotated_at = 0;
  my_queue_msg_count = 0;
  retired_queues = [];
}

-- Whether a contact was made or changed, and what storage holds.
unfoldable pub bootstrap_contact_from_keys :
    (List ℕ → List ℕ)
    → Minted
    → Text
    → Option (List DmContact)
    → Text
    → Text
    → PeerKeys
    → Option Text
    → Bool
    → Bool × Option (List DmContact)
bootstrap_contact_from_keys sha256 minted my_did stored did name keys ticket verified =
    let det = pair_inbound_queue sha256 did my_did in
    let list = list_contacts stored in
    if is_empty did || text_eq did my_did then (false, stored) else (elim (find (is_did did) list) [
      | some c ↦ (elim (bootstrap_known minted det keys ticket verified c) [
        | some c' ↦ (true, some (modify_first (is_did did) (λ _. c') list))
        | none ↦ (false, stored)
      ])
      | none ↦ (true, some (list ++ (new_contact minted det did name keys ticket verified ∷ [])))
    ])
