-- ===== src/Groups/Tests.antt =====
-- A group of Ann, Bob and Cem, as its owner and as a member hold it.
use hey_capsule.Prelude.{
  ℕ, ◌≡◌, ◌⊎◌, refl, true, false, Option, none, some, List, [], ◌∷◌, Text, codes, find, All,
  option_map, err, any, filter, text_eq,
}
use hey_capsule.Prelude.Int.{pos}
use hey_capsule.Contacts.Record.{DmContact, PeerKeys}
use hey_capsule.Contacts.Store.{find_contact, list_contacts}
use hey_capsule.Contacts.Bootstrap.{Minted, new_contact}
use hey_capsule.Groups.{
  GroupMember, Group, GroupStore, is_group, group_ctx, group_conv_path, decline_group,
}
use hey_capsule.Groups.Incoming.{no_group_id, upsert_group_from_ctx}
use hey_capsule.Groups.History.{GroupMessage, outcome, receive_groups}
use hey_capsule.Groups.Consent.{Consents, receive_groups-Consents}
use hey_capsule.Groups.Declined.{receive_groups-decline_group}
use hey_capsule.Groups.Pinned.{receive_groups-pinned}
use hey_capsule.Groups.Roster.{
  Me, GroupBody, not_owner, announce, without, with_group, trim, remove_group_member, is_whitespace,
  removal, trim_end, trim_start,
}
use hey_capsule.Groups.Removal.{message_to, fewer, send_group_message-remove}
use hey_capsule.Groups.Announcements.{announce-without}

abbrev keys : PeerKeys
keys = record { x25519_pub_b64 = codes "eA"; ml_kem_pub_b64 = codes "a0" }

abbrev other_keys : PeerKeys
other_keys = record { x25519_pub_b64 = codes "eB"; ml_kem_pub_b64 = codes "a1" }

abbrev member : Text → Option PeerKeys → GroupMember
member did k = record { did = did; name = did; peer_pubkeys = k; peer_ticket = none }

abbrev club : Group
club = record {
  id = codes "g-1";
  name = codes "Club";
  members =
      member (codes "ann") none
      ∷ member (codes "bob") (some other_keys)
      ∷ member (codes "cem") none
      ∷ [];
  last_ts = pos 5;
  last_preview = [];
  unread = 0;
  created_by = codes "ann";
  bio = [];
  avatar_cid = none;
  pending = false;
}

abbrev held : GroupStore
held = record { groups = club ∷ []; declined = []; conversations = [] }

abbrev nothing : GroupStore
nothing = record { groups = []; declined = []; conversations = [] }

abbrev ann : Me
ann = record { did_key = codes "ann"; name = codes "Ann"; pubkeys = none; ticket = none }

abbrev minted : Minted
minted = record { inbound = codes "i"; recv = codes "r"; send = codes "s" }

abbrev digest : List ℕ → List ℕ
digest s = s

abbrev bob : DmContact
bob = new_contact minted [] (codes "bob") (codes "Bob") keys none true

abbrev hello : GroupMessage
hello = record {
  ctx = group_ctx club;
  sender_did = codes "bob";
  text = codes "hi";
  ts = pos 7;
  dedup_id = codes "m1";
  attachments = [];
}

-- Ids that differ in punctuation share a file.
shared_path : group_conv_path (codes "g-1") ≡ group_conv_path (codes "g1")
unfolding group_conv_path filter
shared_path = refl

trimmed : trim (codes "  a b ") ≡ codes "a b"
unfolding trim trim_end trim_start is_whitespace any
trimmed = refl

refused :
    remove_group_member (record ann { did_key = codes "bob" }) held (codes "g-1") (codes "cem")
    ≡ err not_owner
unfolding remove_group_member find text_eq removal
refused = refl

abbrev removed : GroupStore
removed = with_group (without (codes "cem") club) held

receive_groups-Consents_example : Consents (find (is_group (codes "g-1")) nothing.groups) (
    find
      (is_group (codes "g-1"))
      (receive_groups digest
        (λ _. minted)
        (codes "ann")
        (pos 9)
        (hello ∷ [])
        none
        nothing).1.groups)
receive_groups-Consents_example =
    receive_groups-Consents digest (λ _. minted) (codes "ann") (pos 9) (codes "g-1") (hello ∷ [])
      none nothing

receive_groups-decline_group_example :
    let later =
      receive_groups digest
        (λ _. minted)
        (codes "ann")
        (pos 9)
        (hello ∷ [])
        none
        (decline_group held (codes "g-1")) in
    (find (is_group (codes "g-1")) later.1.groups ≡ none)
    × (outcome digest (λ _. minted) (codes "ann") (pos 9) hello later.0 later.1
        ≡ (err no_group_id, later.0, later.1))
unfolding group_ctx
receive_groups-decline_group_example =
    receive_groups-decline_group digest (λ _. minted) (codes "ann") (pos 9) (codes "g-1")
      (hello ∷ []) hello none held refl

receive_groups-pinned_example :
    find_contact
      (receive_groups digest
        (λ _. minted)
        (codes "ann")
        (pos 9)
        (hello ∷ [])
        (some (bob ∷ []))
        nothing).0
      (codes "bob")
    ≡ some bob
unfolding find_contact find list_contacts text_eq new_contact
receive_groups-pinned_example =
    receive_groups-pinned digest (λ _. minted) (codes "ann") (pos 9) (hello ∷ []) (some (bob ∷ []))
      nothing (codes "bob") bob keys refl refl

send_group_message-remove_example :
    ((g : Group) × (find (is_group (codes "g-1")) held.groups ≡ some g)
      × ((g.created_by ≡ []) ⊎ (g.created_by ≡ ann.did_key)))
    × (message_to [] (pos 9) ann removed (codes "g-1") (codes "hi") []
        ≡ fewer (codes "cem") (message_to [] (pos 9) ann held (codes "g-1") (codes "hi") []))
unfolding remove_group_member find text_eq removal filter
send_group_message-remove_example =
    send_group_message-remove ann held removed (codes "g-1") (codes "cem")
      (announce ann (without (codes "cem") club)) [] (pos 9) (codes "hi") [] refl

announce-without_example :
    All
      (λ (b : Text × GroupBody).
        option_map
          (λ (k : Group). k.members)
          (find
            (is_group (codes "g-1"))
            (upsert_group_from_ctx digest
              (λ _. minted)
              (codes "bob")
              (pos 9)
              b.1.group
              none
              held).2.groups)
        ≡ some club.members)
      (announce ann (without (codes "cem") club))
unfolding remove_group_member find text_eq removal filter
announce-without_example =
    announce-without digest (λ _. minted) (codes "bob") (pos 9) ann held removed (codes "g-1")
      (codes "cem") (announce ann (without (codes "cem") club)) club club none held refl refl refl
      refl
