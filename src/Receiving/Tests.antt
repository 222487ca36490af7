-- ===== src/Receiving/Tests.antt =====
-- One message of a ratchet, received, and received again, under toy primitives: a derived key repeats
-- its input's first byte, and a chain key adds one to it.
use hey_capsule.Contacts.Rotation.{
  maybe_rotate_inbound_queue, rotation_step, prune_retired_queues, count_message, is_due,
  rotate_contact_queue,
}
use hey_capsule.Contacts.Store.{
  list_contacts, touch_contact_message, update_first, sort_newest, insert_newest, v1_contact,
}
use hey_capsule.Identity.Signing.{verify, verify_bytes}
use hey_capsule.Identity.Base58.{
  did_key_to_public_key, base58_decode, decode_loop, decode_step, mul_add, push_carry, digit_of,
  index_of, key_of, leading,
}
use hey_capsule.Ratchet.Steps.{skip_message_keys, skip_loop, chain_step, advance, ratchet_step_recv}
use hey_capsule.Receiving.Payload.{
  verify_inner, verify_under, header_eq, attachments_from_body, text_of_body, ratchet_dedup_id,
}
use hey_capsule.Prelude.{
  ℕ, ◌+◌, ◌≡◌, refl, ◌⊎◌, inr, true, none, some, [], ◌∷◌, Text, codes, replicate, get_or, any,
  text_eq, ok, err, ◌==◌, if◌then◌else◌, find, lookup, insert, filter, strip_prefix,
}
use hey_capsule.Prelude.Int.{pos}
use hey_capsule.Identity.Hex.{
  bytes_to_hex, seed32, hex_to_bytes, hex_pairs, from_str_radix, to_digit, hex_digit,
}
use hey_capsule.Crypto.Kdf.{Bytes, Primitives, kdf_ck}
use hey_capsule.Crypto.Attachment.{Aead}
use hey_capsule.Crypto.Envelope.{
  HpqEnvelope, open_with_secrets, open_box, body_of, utf8_from, derive_key,
  envelope_recipient_inputs,
}
use hey_capsule.Ratchet.State.{
  Fresh, RatchetHeader, RatchetState, is_bootstrapped, b32, try_skipped, take_key, evict_skipped,
}
use hey_capsule.Contacts.Record.{
  DmContact, PeerKeys, owns_inbound_queue_with, owns_inbound_queue, pair_inbound_queue, is_legacy,
}
use hey_capsule.Contacts.Bootstrap.{Minted, new_contact}
use hey_capsule.Conversation.{
  store_incoming_message, add_message, read_conversation, write_conversation, conv_has, conv_path,
  preview_of,
}
use hey_capsule.Events.Values.{Json, null, string, object, field, end, as_str, get, get_field}
use hey_capsule.Receiving.{
  group_refused, InnerPayload, Device, Host, Draws, ratchet_path, read_ratchet, write_ratchet,
}
use hey_capsule.Receiving.Opening.{provider, decrypt_via_for_contact, ratchet_kem_ss}
use hey_capsule.Receiving.Advance.{
  PageNumber, Accepted, accept_ratchet, receive_ratchet_message, contact_of_queue, eph_key,
  after_step, after_open, check_inner, judged, stale, commit, deliver_ratchet, store_message,
  rotated,
}
use hey_capsule.Receiving.Single.{open_inner}
use hey_capsule.Receiving.Wire.{by_kind}
use hey_capsule.Receiving.Checks.{IsAuthentic}
use hey_capsule.Receiving.Authentic.{Steps, receive_ratchet_message-IsAuthentic}
use hey_capsule.Receiving.Redelivery.{
  receive_ratchet_message_again, receive_ratchet_message-declined,
}
use hey_capsule.Receiving.Downgrade.{Allows, by_kind-Allows}

program : Unit {0}
unfolding accept_ratchet contact_of_queue eph_key after_step after_open check_inner judged stale
    receive_ratchet_message commit deliver_ratchet store_message rotated verify_inner verify_under
    header_eq attachments_from_body text_of_body ratchet_dedup_id decrypt_via_for_contact
    ratchet_kem_ss read_ratchet write_ratchet ratchet_path is_bootstrapped b32 try_skipped take_key
    evict_skipped skip_message_keys skip_loop chain_step advance ratchet_step_recv kdf_ck
    open_with_secrets open_box body_of utf8_from derive_key envelope_recipient_inputs seed32
    hex_to_bytes hex_pairs from_str_radix to_digit bytes_to_hex hex_digit did_key_to_public_key
    base58_decode decode_loop decode_step mul_add push_carry digit_of index_of key_of leading verify
    verify_bytes owns_inbound_queue_with owns_inbound_queue pair_inbound_queue is_legacy
    list_contacts touch_contact_message update_first sort_newest insert_newest v1_contact
    new_contact maybe_rotate_inbound_queue rotation_step prune_retired_queues count_message is_due
    rotate_contact_queue store_incoming_message add_message read_conversation write_conversation
    conv_has conv_path preview_of get get_field as_str find any text_eq lookup insert filter
    strip_prefix
program = tt

abbrev first : Bytes → ℕ
first s = get_or s 0 0

abbrev pub toy : Primitives
toy = record {
  hkdf = λ salt ikm info n. replicate n (first ikm);
  hkdf_prk = λ prk info n. replicate n (first prk + 1);
  dh = λ priv pub_key. replicate 32 7;
  b64_encode = λ s. s;
  b64_decode = λ s. some s;
  ml_kem_encapsulate = λ r pub_key. some (r, r);
  ml_kem_decapsulate = λ ct priv. some ct;
}

-- Opens under the key of eights only.
abbrev pub cipher : Aead
cipher = record {
  encrypt = λ key nonce plaintext. some plaintext;
  decrypt = λ key nonce s. if first key == 8 then some s else none;
  b64_encode = λ s. s;
  b64_decode = λ s. some s;
}

abbrev pub eph : Bytes
eph = replicate 32 7

abbrev pub did : Text
did = codes "did:key:z6MkeXBLjYiSvqnhFb6D7sHm8yKm4jV45wwBFRaatf1cfZ76"

abbrev header : RatchetHeader
header = record { dh = eph; pn = 0; n = 0; kem_ct = none; kem_pub = none }

abbrev page : PageNumber
page = record { pn = 0; n = 0; kem_ct = none; kem_pub = none }

abbrev env : HpqEnvelope
env = record { v = codes "hpq-1"; eph = eph; kem = codes "k"; n = replicate 12 0; ct = codes "c" }

abbrev pub hello : Json
hello = object (field (codes "text") (string (codes "hi")) end)

abbrev club : Json
club = object (field (codes "id") (string (codes "g1")) end)

abbrev to_club : Json
to_club = object (field (codes "group") club end)

abbrev saying : Json → InnerPayload
saying body = record {
  kind = codes "message";
  sender_did = did;
  ts = pos 9;
  body = body;
  sig = replicate 128 48;
  rh = some header;
}

abbrev pub keys : PeerKeys
keys = record { x25519_pub_b64 = codes "x"; ml_kem_pub_b64 = codes "k" }

abbrev pub host : Json → Host
host body = record {
  parse = λ s. some null;
  quote = λ s. s;
  envelope_of = λ v. some env;
  parse_inner = λ s. some (saying body);
  attachments_of = λ v. none;
  keys_of = λ v. some keys;
  members_of = λ v. none;
  header_value = λ h. null;
  sha256 = λ s. s;
  check = λ message sig pk. true;
  provider_dh = λ s. some s;
  provider_kem = λ s. some (codes "s");
}

abbrev pub minted : Minted
minted = record { inbound = codes "q1"; recv = codes "r"; send = codes "s" }

abbrev fresh : Fresh
fresh = record { dh_priv = eph; dh_pub = eph; kem_priv = []; kem_pub = []; kem_randomness = [] }

abbrev pub draws : Draws
draws = record {
  fresh = fresh;
  next_turn = fresh;
  now = 1000;
  mint = λ i. minted;
  new_id = codes "u";
  new_queue = codes "q2";
  new_pseudonym = codes "r2";
  my_did = codes "me";
}

abbrev pub bob : DmContact
bob = record (new_contact minted (codes "q0") did (codes "Bob") keys none true) {
  ratchet_capable = true;
}

abbrev pub chain : RatchetState
chain = record {
  rk = bytes_to_hex eph;
  cks = none;
  ckr = some (bytes_to_hex eph);
  dhs_priv = bytes_to_hex eph;
  dhs_pub = bytes_to_hex eph;
  dhr_pub = some (bytes_to_hex eph);
  ns = 0;
  nr = 0;
  pn = 0;
  skipped = [];
  kem_priv = none;
  kem_pub = none;
  peer_kem_pub = none;
  send_kem_ct = none;
}

abbrev pub device : Device
device = record {
  storage = record { conversations = []; contacts = some (bob ∷ []); expiry = [] };
  groups = record { groups = []; declined = codes "g1" ∷ []; conversations = [] };
  ratchets = (ratchet_path did, chain) ∷ [];
}

abbrev stepped : RatchetState
stepped = record chain { ckr = some (bytes_to_hex (replicate 32 8)); nr = 1 }

abbrev accepted : Json → Accepted
accepted body = record { contact = bob; inner = saying body; state = stepped }

accept_hello :
    accept_ratchet toy cipher (host hello) draws device (some (codes "q1")) env page
    ≡ ok (some (accepted hello))
unfolding program
accept_hello = refl

accept_club :
    accept_ratchet toy cipher (host to_club) draws device (some (codes "q1")) env page
    ≡ ok (some (accepted to_club))
unfolding program
accept_club = refl

receive_ratchet_message-IsAuthentic_example :
    let d' =
      (receive_ratchet_message toy cipher
        (host hello)
        draws
        device
        (some (codes "q1"))
        env
        page).1 in
    (d' ≡ device)
    ⊎ ((a : Accepted) × (queue : Text) × (some (codes "q1") ≡ some queue)
        × IsAuthentic toy cipher (host hello) draws device queue env page a
        × Steps toy cipher (host hello) draws device a d')
receive_ratchet_message-IsAuthentic_example =
    receive_ratchet_message-IsAuthentic toy cipher (host hello) draws device (some (codes "q1")) env
      page

receive_ratchet_message_again_example :
    let d' =
      (receive_ratchet_message toy cipher
        (host hello)
        draws
        device
        (some (codes "q1"))
        env
        page).1 in
    receive_ratchet_message toy cipher (host hello) draws d' (some (codes "q1")) env page
    ≡ (ok tt, d')
unfolding program
receive_ratchet_message_again_example =
    receive_ratchet_message_again toy cipher (host hello) draws draws device (codes "q1") env page
      (accepted hello) _ stepped eph accept_hello refl refl refl refl refl
      (inr (_, _, provider, _, _, refl, refl, refl, refl))

receive_ratchet_message-declined_example :
    receive_ratchet_message toy cipher (host to_club) draws device (some (codes "q1")) env page
    ≡ (err group_refused, device)
unfolding program
receive_ratchet_message-declined_example =
    receive_ratchet_message-declined toy cipher (host to_club) draws device (some (codes "q1")) env
      page (accepted to_club) club (codes "g1") accept_club refl refl refl

by_kind-Allows_example :
    Allows toy cipher
      (host hello)
      draws
      device
      (some (codes "q1"))
      env
      (by_kind toy cipher
        (host hello)
        draws
        device
        (some (codes "q1"))
        env
        (open_inner toy cipher (host hello) draws device (some (codes "q1")) env)).1
by_kind-Allows_example = by_kind-Allows toy cipher (host hello) draws device (some (codes "q1")) env
