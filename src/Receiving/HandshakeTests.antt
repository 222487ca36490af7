-- ===== src/Receiving/HandshakeTests.antt =====
-- A handshake on the queue of an invite, under the toy primitives of Receiving.Tests.
use hey_capsule.Ratchet.Steps.{ratchet_init_responder, dh_ratchet, sending_chain}
use hey_capsule.Crypto.Kdf.{kdf_rk, root_init}
use hey_capsule.Identity.Hex.{
  bytes_to_hex, seed32, hex_to_bytes, hex_pairs, from_str_radix, to_digit, hex_digit,
}
use hey_capsule.Ratchet.State.{RatchetState, is_bootstrapped, b32}
use hey_capsule.Prelude.{
  ◌≡◌, refl, ap, sym, true, false, ◌⊎◌, none, some, [], ◌∷◌, codes, any, text_eq, ok, find, lookup,
  insert, remove, remove_first, strip_prefix,
}
use hey_capsule.Prelude.Int.{pos}
use hey_capsule.Contacts.Record.{DmContact, pending_invite}
use hey_capsule.Contacts.Store.{list_contacts, sort_newest, insert_newest}
use hey_capsule.Contacts.Bootstrap.{new_contact}
use hey_capsule.Events.Values.{Json, string, object, field, end, as_str, get, get_field}
use hey_capsule.Receiving.{
  InnerPayload, Device, ratchet_path, read_ratchet, write_ratchet, remove_ratchet,
}
use hey_capsule.Receiving.Opening.{decrypt_via_for_contact, shared_secrets}
use hey_capsule.Receiving.Handshake.{
  offer_of, promoted, responder_ratchet, bootstrap_responder_ratchet, with_promoted,
  finish_bootstrap, promote, accept_offer, on_offer, receive_handshake,
}
use hey_capsule.Receiving.Promotion.{
  IsBootstrapped, receive_handshake_again, receive_handshake-IsBootstrapped,
}
use hey_capsule.Receiving.Revoking.{
  IsErased, actives, revoke_invite, delete_conversation, receive_handshake-revoke_invite,
  delete_conversation-IsErased,
}
use hey_capsule.Receiving.Tests.{
  bob, toy, cipher, host, draws, eph, did, hello, keys, minted, device, chain,
}

handshake_program : Unit {0}
unfolding ratchet_init_responder dh_ratchet sending_chain kdf_rk root_init bytes_to_hex seed32
    hex_to_bytes hex_pairs from_str_radix to_digit hex_digit is_bootstrapped b32 any text_eq find
    lookup insert remove remove_first strip_prefix list_contacts sort_newest insert_newest
    new_contact as_str get get_field ratchet_path read_ratchet write_ratchet remove_ratchet
    decrypt_via_for_contact shared_secrets offer_of promoted responder_ratchet
    bootstrap_responder_ratchet with_promoted finish_bootstrap promote accept_offer on_offer
    receive_handshake
handshake_program = tt

abbrev block : Json
block = object (
    field (codes "eph_pub_b64") (string eph)
      (field (codes "kem_ct_b64") (string eph) (field (codes "dh_pub_b64") (string eph) end)))

abbrev shaking : Json
shaking = object (
    field (codes "my_inbound_queue") (string (codes "q9"))
      (field (codes "pubkeys") (string (codes "k")) (field (codes "ratchet") block end)))

abbrev accepting : InnerPayload
accepting = record {
  kind = codes "handshake";
  sender_did = did;
  ts = pos 9;
  body = shaking;
  sig = [];
  rh = none;
}

abbrev invited : DmContact
invited =
    record (new_contact minted (codes "q0") (codes "pending:q1") (codes "Bob") keys none true) {
      status = pending_invite;
    }

abbrev stash : RatchetState
stash = record chain { rk = [] }

abbrev inviter : Device
inviter = record device {
  storage = record (device.storage) { contacts = some (invited ∷ []) };
  ratchets = (ratchet_path (codes "pending:q1"), stash) ∷ [];
}

-- An active contact that has the queue of the invite comes first.
abbrev with_active : Device
with_active = record inviter {
  storage = record (inviter.storage) { contacts = some (bob ∷ invited ∷ []) };
}

receive_handshake_accepted :
    (receive_handshake toy cipher (host hello) draws inviter accepting (codes "q1")).0 ≡ ok tt
unfolding handshake_program
receive_handshake_accepted = refl

receive_handshake_again_example :
    let d' = (receive_handshake toy cipher (host hello) draws inviter accepting (codes "q1")).1 in
    (receive_handshake toy cipher (host hello) draws d' accepting (codes "q1")).1 ≡ d'
unfolding handshake_program
receive_handshake_again_example =
    receive_handshake_again toy cipher (host hello) draws inviter accepting accepting (codes "q1")
      refl receive_handshake_accepted

own_file :
    (c : DmContact)
    → some invited ≡ some c
    → text_eq (ratchet_path c.did) (ratchet_path did) ≡ false
unfolding handshake_program
own_file c e =
    ap (λ o. elim o [ none ↦ false | some k ↦ text_eq (ratchet_path k.did) (ratchet_path did) ])
      (sym e)

receive_handshake-IsBootstrapped_example :
    let d' = (receive_handshake toy cipher (host hello) draws inviter accepting (codes "q1")).1 in
    (d' ≡ inviter)
    ⊎ IsBootstrapped toy cipher (host hello) draws inviter accepting (codes "q1") block d'
unfolding handshake_program
receive_handshake-IsBootstrapped_example =
    receive_handshake-IsBootstrapped toy cipher (host hello) draws inviter accepting (codes "q1")
      block refl own_file

receive_handshake-revoke_invite_example :
    let d' = revoke_invite (codes "q1") with_active in
    ((receive_handshake toy cipher (host hello) draws d' accepting (codes "q1")).1 ≡ d')
    × (actives d' ≡ actives with_active)
unfolding handshake_program
receive_handshake-revoke_invite_example =
    receive_handshake-revoke_invite toy cipher (host hello) draws (codes "q1") (codes "q1")
      with_active accepting (refl, (refl, tt)) refl

delete_conversation-IsErased_example : IsErased did (delete_conversation did device)
unfolding handshake_program
delete_conversation-IsErased_example = delete_conversation-IsErased bob device refl refl
