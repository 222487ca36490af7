-- ===== src/Groups/Pinned.antt =====
-- The keys that rosters bring never replace keys that are pinned (capsules/hey-core/src/api/dms.rs).
use hey_capsule.Prelude.{
  ℕ, suc, ◌≡◌, refl, false, ◌||◌, some, List, [], ◌∷◌, Text, text_eq, any, is_empty, Bool-cases,
  Option-cases, inl, inr,
}
use hey_capsule.Prelude.Int.{ℤ}
use hey_capsule.Contacts.Record.{DmContact, PeerKeys}
use hey_capsule.Contacts.Store.{find_contact}
use hey_capsule.Contacts.Bootstrap.{Minted}
use hey_capsule.Contacts.Pinned.{bootstrap_contact_from_keys-pinned}
use hey_capsule.Groups.{GroupMember, GroupStore, or_default}
use hey_capsule.Groups.Incoming.{
  Contacts, bootstrap_roster_contact, bootstrap_roster, upsert_group_from_ctx,
  store_incoming_group_message,
}
use hey_capsule.Groups.History.{GroupMessage, outcome, receive_groups}

module _ (sha256 : List ℕ → List ℕ) (mint : ℕ → Minted) (my_did : Text) (now : ℤ) where
  module _ (d : Text) (c : DmContact) (k : PeerKeys) (pinned : c.peer_pubkeys ≡ some k) where
    roster_contact-pinned :
        (i : ℕ) (m : GroupMember) (stored : Contacts)
        → find_contact stored d ≡ some c
        → find_contact (bootstrap_roster_contact sha256 mint my_did now i m stored) d ≡ some c
    unfolding bootstrap_roster_contact
    roster_contact-pinned i m stored held = elim (Option-cases m.peer_pubkeys) [
      | inl none' ↦ rw (none', bootstrap_roster_contact) held
      | inr (keys, e) ↦
          rw (e, bootstrap_roster_contact)
            (bootstrap_contact_from_keys-pinned sha256 (mint i) my_did stored m.did m.name keys
              m.peer_ticket false d c k held pinned refl)
    ]

    roster-pinned :
        (i : ℕ) (ms : List GroupMember) (stored : Contacts)
        → find_contact stored d ≡ some c
        → find_contact (bootstrap_roster sha256 mint my_did now i ms stored) d ≡ some c
    unfolding bootstrap_roster
    roster-pinned i [] stored held = held
    roster-pinned i (m ∷ ms) stored held =
        roster-pinned (suc i) ms (bootstrap_roster_contact sha256 mint my_did now i m stored)
          (roster_contact-pinned i m stored held)

    outcome-pinned :
        (m : GroupMessage) (stored : Contacts) (s : GroupStore)
        → find_contact stored d ≡ some c
        → find_contact (outcome sha256 mint my_did now m stored s).1 d ≡ some c
    unfolding store_incoming_group_message upsert_group_from_ctx
    outcome-pinned m stored s held = elim (Option-cases m.ctx.id) [
      | inl e ↦ rw (e, upsert_group_from_ctx) held
      | inr (gid, e) ↦ elim (Bool-cases (is_empty gid || any (λ d. text_eq d gid) s.declined)) [
        | inl refused ↦ rw (e, upsert_group_from_ctx, refused) held
        | inr taken ↦
            rw (e, upsert_group_from_ctx, taken)
              (roster-pinned 0 (or_default m.ctx.members []) stored held)
      ]
    ]

  -- Storing whatever group messages, with whatever rosters (`store_incoming_group_message`), leaves
  -- the contact that is found under a did as it is, where its keys are pinned. The queue rotation that
  -- the receiver makes for the sender after it has stored a message is no part of this.
  pub receive_groups-pinned :
      (ms : List GroupMessage) (stored : Contacts) (s : GroupStore) (d : Text) (c : DmContact)
      (k : PeerKeys)
      → find_contact stored d ≡ some c
      → c.peer_pubkeys ≡ some k
      → find_contact (receive_groups sha256 mint my_did now ms stored s).0 d ≡ some c
  unfolding receive_groups
  receive_groups-pinned [] stored s d c k held pinned = held
  receive_groups-pinned (m ∷ ms) stored s d c k held pinned =
      let out = outcome sha256 mint my_did now m stored s in
      receive_groups-pinned ms out.1 out.2 d c k (outcome-pinned d c k pinned m stored s held)
        pinned
