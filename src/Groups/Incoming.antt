-- ===== src/Groups/Incoming.antt =====
-- Groups as they come in: the roster of a message, and the message (`upsert_group_from_ctx` and
-- `store_incoming_group_message`, capsules/hey-core/src/api/dms.rs). Contacts that the roster makes
-- draw their queues from `mint`, by the place in the roster.
use hey_capsule.Prelude.{
  ℕ, suc, Bool, true, false, ◌||◌, Option, none, some, List, [], ◌∷◌, ◌++◌, Text, codes, text_eq,
  any, find, take, is_empty, modify_first, if◌then◌else◌, Result, ok, err,
}
use hey_capsule.Prelude.Int.{ℤ}
use hey_capsule.Contacts.Record.{DmContact}
use hey_capsule.Contacts.Bootstrap.{Minted, bootstrap_contact_from_keys}
use hey_capsule.Conversation.{Attachment, DmMessage}
use hey_capsule.Groups.{
  GroupMember, Group, GroupCtx, GroupStore, is_group, or_default, refreshed, received_group,
  read_group_conversation, write_group_conversation, touch_group, short_did_label,
}

pub data GroupError : Type 0 where
  no_group_id : GroupError

abbrev pub Contacts : Type 0
Contacts = Option (List DmContact)

unfoldable pub upsert_record : ℤ → Text → GroupCtx → List Group → List Group
upsert_record now id ctx groups = elim (find (is_group id) groups) [
  | some g ↦ modify_first (is_group id) (refreshed ctx) groups
  | none ↦ groups ++ (received_group id ctx now ∷ [])
]

abbrev pub name_in : Text → GroupMember → Text
name_in sender_did m = if is_empty m.name then short_did_label sender_did else m.name

-- The sender's name in the roster, or a label for its did.
unfoldable pub sender_name_of : GroupStore → Text → Text → Text
sender_name_of s gid sender_did = elim (find (is_group gid) s.groups) [
  | none ↦ short_did_label sender_did
  | some g ↦ (elim (find (λ (m : GroupMember). text_eq m.did sender_did) g.members) [
    | none ↦ short_did_label sender_did
    | some m ↦ name_in sender_did m
  ])
]

unfoldable pub group_preview : Text → Text → List Attachment → Text
group_preview name text [] = name ++ (codes ": " ++ text)
group_preview name text (a ∷ as') =
    if is_empty text
    then name ++ (codes ": " ++ (128206 ∷ b' ' ∷ a.name))
    else name ++ (codes ": " ++ text)

unfoldable pub add_group_message :
    Text → GroupStore → Text → Text → Text → ℤ → List Attachment → GroupStore
add_group_message id s gid sender_did text ts attachments =
    let name = sender_name_of s gid sender_did in
    let msg : DmMessage = record {
      id = id;
      text = take 4096 text;
      ts = ts;
      mine = false;
      encrypted = true;
      attachments = attachments;
      sender_name = name;
      pinned = false;
    } in
    touch_group (write_group_conversation gid (read_group_conversation s gid ++ (msg ∷ [])) s) gid
      (group_preview name msg.text attachments) ts 1

abbrev pub no_content : Text → List Attachment → Bool
no_content text [] = is_empty text
no_content text (a ∷ as') = false

-- What follows on the upsert, by the group id that it gives.
unfoldable pub file_message :
    Option Text
    → GroupStore
    → Text
    → Text
    → ℤ
    → Text
    → List Attachment
    → Result GroupError Bool × GroupStore
file_message none s sender_did text ts dedup_id attachments = (err no_group_id, s)
file_message (some gid) s sender_did text ts dedup_id attachments =
    if no_content text attachments
      || any (λ (m : DmMessage). text_eq m.id dedup_id) (read_group_conversation s gid)
    then (ok false, s)
    else (ok true, add_group_message dedup_id s gid sender_did text ts attachments)

module _ (sha256 : List ℕ → List ℕ) (mint : ℕ → Minted) (my_did : Text) (now : ℤ) where
  unfoldable pub bootstrap_roster_contact : ℕ → GroupMember → Contacts → Contacts
  bootstrap_roster_contact i m stored = elim m.peer_pubkeys [
    | none ↦ stored
    | some keys ↦
        (bootstrap_contact_from_keys sha256 (mint i) my_did stored m.did m.name keys m.peer_ticket
          false).1
  ]

  -- The loop over the members from the `i`th on.
  unfoldable pub bootstrap_roster : ℕ → List GroupMember → Contacts → Contacts
  bootstrap_roster i [] stored = stored
  bootstrap_roster i (m ∷ ms) stored =
      bootstrap_roster (suc i) ms (bootstrap_roster_contact i m stored)

  unfoldable pub upsert_group_from_ctx :
      GroupCtx → Contacts → GroupStore → Option Text × Contacts × GroupStore
  upsert_group_from_ctx ctx stored s = elim ctx.id [
    | none ↦ (none, stored, s)
    | some id ↦ if is_empty id || any (λ d. text_eq d id) s.declined then (none, stored, s) else (
      some id,
      bootstrap_roster 0 (or_default ctx.members []) stored,
      record s { groups = upsert_record now id ctx s.groups },
    )
  ]

  -- `dedup_id` is always given by the callers. Whether a message was appended, and the state.
  unfoldable pub store_incoming_group_message :
      GroupCtx
      → Contacts
      → GroupStore
      → Text
      → Text
      → ℤ
      → Text
      → List Attachment
      → Result GroupError Bool × Contacts × GroupStore
  store_incoming_group_message ctx stored s sender_did text ts dedup_id attachments =
      let up = upsert_group_from_ctx ctx stored s in
      let filed = file_message up.0 up.2 sender_did text ts dedup_id attachments in
      (filed.0, up.1, filed.1)
