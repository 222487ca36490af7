-- ===== src/Groups/Roster.antt =====
-- The roster of a group and what is sent to it (`create_group`, `add_group_members`,
-- `remove_group_member`, `set_group_meta` and `send_group_message`,
-- capsules/hey-core/src/api/dms.rs). Sending is best effort and its result is dropped: an operation
-- returns the bodies that it hands to `send_body_to_contact`, with the did of each recipient.
use hey_capsule.Prelude.{
  ℕ, Bool, true, false, not, ◌&&◌, ◌||◌, Option, none, some, List, [], ◌∷◌, ◌++◌, map, Text, codes,
  text_eq, any, filter, find, take, length, ltb, leb, is_empty, modify_first, ◌==◌, if◌then◌else◌,
  Result, ok, err, ◌>>=◌, ok_or,
}
use hey_capsule.Prelude.Int.{ℤ}
use hey_capsule.Contacts.Record.{DmContact, PeerKeys, is_v2_active}
use hey_capsule.Contacts.Store.{is_did}
use hey_capsule.Conversation.{Attachment, DmMessage, preview_of}
use hey_capsule.Groups.{
  GroupMember, Group, GroupCtx, GroupStore, is_group, group_ctx, read_group_conversation,
  write_group_conversation, touch_group, short_did_label,
}

pub data RosterError : Type 0 where
  no_such_group not_owner yourself not_a_member not_active too_few empty_message : RosterError
  no_such_message : RosterError

-- The body of a message to a group: its text where it has one, and the context.
pub record GroupBody : Type 0 where
  pub text : Option Text
  pub attachments : List Attachment
  pub group : GroupCtx

-- This user: the did and the name of the session, and the keys and ticket that it shows.
pub record Me : Type 0 where
  pub did_key : Text
  pub name : Text
  pub pubkeys : Option PeerKeys
  pub ticket : Option Text

abbrev pub Sent : Type 0
Sent = List (Text × GroupBody)

-- `char::is_whitespace`.
unfoldable pub is_whitespace : ℕ → Bool
is_whitespace c =
    (leb 9 c && leb c 13)
    || any (◌==◌ c) (32 ∷ 133 ∷ 160 ∷ 5760 ∷ 8232 ∷ 8233 ∷ 8239 ∷ 8287 ∷ 12288 ∷ [])
    || (leb 8192 c && leb c 8202)

unfoldable pub trim_start : Text → Text
trim_start [] = []
trim_start (c ∷ s) = if is_whitespace c then trim_start s else c ∷ s

-- Without the white space at the end: a character stays where itself or one after it is none.
unfoldable pub trim_end : Text → Text
trim_end [] = []
trim_end (c ∷ s) =
    let rest = trim_end s in if is_whitespace c && is_empty rest then [] else c ∷ rest

unfoldable pub trim : Text → Text
trim s = trim_end (trim_start s)

unfoldable pub roster_member : DmContact → GroupMember
roster_member c = record {
  did = c.did;
  name = if is_empty (trim c.name) then short_did_label c.did else c.name;
  peer_pubkeys = c.peer_pubkeys;
  peer_ticket = c.peer_ticket;
}

unfoldable pub my_roster_member : Me → GroupMember
my_roster_member me = record {
  did = me.did_key;
  name = me.name;
  peer_pubkeys = me.pubkeys;
  peer_ticket = me.ticket;
}

abbrev pub is_member : Text → GroupMember → Bool
is_member did m = text_eq m.did did

-- To every member but this user.
unfoldable pub fan_out : Me → GroupBody → List GroupMember → Sent
fan_out me body members =
    map (λ (m : GroupMember). (m.did, body)) (filter (λ m. not (is_member me.did_key m)) members)

abbrev pub announce : Me → Group → Sent
announce me g = fan_out me (record { text = none; attachments = []; group = group_ctx g }) g.members

abbrev pub usable : Text → DmContact → Bool
usable did c = is_did did c && is_v2_active c

-- The loop over the dids that are to join, which stops at the first that is no active contact.
unfoldable pub add_members :
    Me → List DmContact → List Text → List GroupMember → Result RosterError (List GroupMember)
add_members me contacts [] members = ok members
add_members me contacts (did ∷ dids) members =
    let skipped = add_members me contacts dids members in
    let added =
      λ (c : DmContact). add_members me contacts dids (members ++ (roster_member c ∷ [])) in
    if text_eq did me.did_key || any (is_member did) members
    then skipped
    else (ok_or (find (usable did) contacts) not_active >>= added)

-- In `create_group` the test for a duplicate comes after the look at the contacts.
unfoldable pub first_members :
    Me → List DmContact → List Text → List GroupMember → Result RosterError (List GroupMember)
first_members me contacts [] members = ok members
first_members me contacts (did ∷ dids) members =
    let skipped = first_members me contacts dids members in
    let added = λ (c : DmContact).
      if any (is_member did) members
      then skipped
      else first_members me contacts dids (members ++ (roster_member c ∷ [])) in
    if text_eq did me.did_key
    then skipped
    else (ok_or (find (usable did) contacts) not_active >>= added)

-- `gid` is the id that is drawn.
unfoldable pub create_group :
    Text
    → ℤ
    → Me
    → List DmContact
    → GroupStore
    → Text
    → List Text
    → Result RosterError (Text × GroupStore × Sent)
create_group gid now me contacts s name member_dids = do
  members ← first_members me contacts member_dids (my_roster_member me ∷ [])
  (if ltb (length members) 2
      then err too_few
      else (let g : Group = record {
        id = gid;
        name = trim name;
        members = members;
        last_ts = now;
        last_preview = codes "Group created";
        unread = 0;
        created_by = me.did_key;
        bio = [];
        avatar_cid = none;
        pending = false;
      } in
          ok (gid, record s { groups = s.groups ++ (g ∷ []) }, announce me g)))

abbrev pub with_group : Group → GroupStore → GroupStore
with_group g s = record s { groups = modify_first (is_group g.id) (λ _. g) s.groups }

unfoldable pub add_group_members :
    Me → List DmContact → GroupStore → Text → List Text → Result RosterError (GroupStore × Sent)
add_group_members me contacts s gid new_member_dids = do
  g ← ok_or (find (is_group gid) s.groups) no_such_group
  members ← add_members me contacts new_member_dids g.members
  let g' : Group = record g { members = members }
  ok (with_group g' s, announce me g')

abbrev pub is_owner : Me → Group → Bool
is_owner me g = is_empty g.created_by || text_eq g.created_by me.did_key

unfoldable pub set_group_meta :
    Me → GroupStore → Text → Text → Option Text → Result RosterError (GroupStore × Sent)
set_group_meta me s gid bio avatar_cid = do
  g ← ok_or (find (is_group gid) s.groups) no_such_group
  let g' : Group = record g {
    bio = take 280 bio;
    avatar_cid = elim avatar_cid [ none ↦ g.avatar_cid | some cid ↦ some cid ];
  }
  (if is_owner me g then ok (with_group g' s, announce me g') else err not_owner)

abbrev pub without : Text → Group → Group
without member_did g = record g { members = filter (λ m. not (is_member member_did m)) g.members }

unfoldable pub removal : Me → Text → GroupStore → Group → Result RosterError (GroupStore × Sent)
removal me member_did s g =
    let g' = without member_did g in
    if not (is_owner me g)
    then err not_owner
    else if text_eq member_did me.did_key
    then err yourself
    else if length g'.members == length g.members
    then err not_a_member
    else ok (with_group g' s, announce me g')

unfoldable pub remove_group_member :
    Me → GroupStore → Text → Text → Result RosterError (GroupStore × Sent)
remove_group_member me s gid member_did =
    ok_or (find (is_group gid) s.groups) no_such_group >>= removal me member_did s

abbrev pub has_none {ℓ} : {A : Type ℓ} → List A → Bool
has_none [] = true
has_none (a ∷ as') = false

unfoldable pub send_group_message_inner :
    Text
    → ℤ
    → Me
    → GroupStore
    → Text
    → Text
    → List Attachment
    → Result RosterError (DmMessage × GroupStore × Sent)
send_group_message_inner id now me s gid text attachments =
    if is_empty (trim text) && has_none attachments then err empty_message else (do
      g ← ok_or (find (is_group gid) s.groups) no_such_group
      let plain = take 4096 (trim text)
      let msg : DmMessage = record {
        id = id;
        text = plain;
        ts = now;
        mine = true;
        encrypted = true;
        attachments = attachments;
        sender_name = me.name;
        pinned = false;
      }
      let s1 = write_group_conversation gid (read_group_conversation s gid ++ (msg ∷ [])) s
      ok (
        msg,
        touch_group s1 gid (preview_of plain attachments) now 0,
        fan_out me (record { text = some plain; attachments = attachments; group = group_ctx g })
            g.members,
      ))

-- `none` where no message has the id.
abbrev pub pin : Text → Bool → List DmMessage → Result RosterError (List DmMessage)
pin message_id pinned conv =
    if any (λ (m : DmMessage). text_eq m.id message_id) conv
    then ok (
        modify_first (λ (m : DmMessage). text_eq m.id message_id)
          (λ (m : DmMessage). record m { pinned = pinned }) conv)
    else err no_such_message

unfoldable pub pin_group_message : GroupStore → Text → Text → Bool → Result RosterError GroupStore
pin_group_message s gid message_id pinned = do
  conv ← pin message_id pinned (read_group_conversation s gid)
  ok (write_group_conversation gid conv s)
