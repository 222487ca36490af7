-- ===== src/Groups.antt =====
-- Groups (capsules/hey-core/src/api/dms.rs): the record, the stored list, and consent. A group has
-- no key of its own: it is a roster of contacts, and a message goes to each of them. Dids are ASCII,
-- and texts are lists of characters. A storage file that is missing reads as empty, and writes do
-- not fail. The random id, the clock and this user's did are arguments.
pub mod Incoming
pub mod Roster
pub mod History
pub mod Consent
pub mod Declined
pub mod Pinned
pub mod Removal
pub mod Announcements
mod Tests
use hey_capsule.Prelude.{
  ℕ, ◌-◌, Bool, true, false, not, ◌&&◌, ◌||◌, Option, none, some, List, [], ◌∷◌, ◌++◌, Text, codes,
  text_eq, text_key, Map, lookup, insert, remove, any, filter, find, take, drop, length, leb, ltb,
  is_empty, modify_first, ◌==◌, if◌then◌else◌, Result, ok, err,
}
use hey_capsule.Prelude.Int.{ℤ, ltb_ℤ}
use hey_capsule.Contacts.Record.{DmContact, PeerKeys}
use hey_capsule.Contacts.Store.{saturating_add}
use hey_capsule.Contacts.Bootstrap.{Minted, bootstrap_contact_from_keys}
use hey_capsule.Conversation.{DmMessage, or_none}

pub record GroupMember : Type 0 where
  pub did : Text
  pub name : Text
  pub peer_pubkeys : Option PeerKeys
  pub peer_ticket : Option Text

pub record Group : Type 0 where
  pub id : Text
  pub name : Text
  pub members : List GroupMember
  pub last_ts : ℤ
  pub last_preview : Text
  pub unread : ℕ
  pub created_by : Text
  pub bio : Text
  pub avatar_cid : Option Text
  pub pending : Bool

-- The `group` value of a message, by what its readers take from it: a field that is missing or has
-- another shape is `none`.
pub record GroupCtx : Type 0 where
  pub id : Option Text
  pub name : Option Text
  pub members : Option (List GroupMember)
  pub created_by : Option Text
  pub bio : Option Text
  pub avatar_cid : Option Text

-- dm/groups.json, dm/declined-groups.json and the files of dm/group-conv/.
pub record GroupStore : Type 0 where
  pub groups : List Group
  pub declined : List Text
  pub conversations : Map Text (List DmMessage)

abbrev pub is_group : Text → Group → Bool
is_group id g = text_eq g.id id

abbrev pub is_ascii_alphanumeric : ℕ → Bool
is_ascii_alphanumeric c =
    (leb b'0' c && leb c b'9') || (leb b'A' c && leb c b'Z') || (leb b'a' c && leb c b'z')

unfoldable pub group_conv_path : Text → Text
group_conv_path gid = codes "dm/group-conv/" ++ (filter is_ascii_alphanumeric gid ++ codes ".json")

unfoldable pub insert_active : Group → List Group → List Group
insert_active g [] = g ∷ []
insert_active g (h ∷ hs) = if ltb_ℤ g.last_ts h.last_ts then h ∷ insert_active g hs else g ∷ h ∷ hs

-- The most recently active first.
unfoldable pub list_groups : GroupStore → List Group
list_groups s = sorted s.groups
  where
    sorted : List Group → List Group
    sorted [] = []
    sorted (g ∷ gs) = insert_active g (sorted gs)

unfoldable pub read_group_conversation : GroupStore → Text → List DmMessage
read_group_conversation s gid = or_none (lookup (group_conv_path gid) s.conversations)

unfoldable pub write_group_conversation : Text → List DmMessage → GroupStore → GroupStore
write_group_conversation gid msgs s = record s {
  conversations = insert (group_conv_path gid) msgs s.conversations;
}

abbrev pub max_ts : ℤ → ℤ → ℤ
max_ts a b = if ltb_ℤ a b then b else a

unfoldable pub touched : Text → ℤ → ℕ → Group → Group
touched preview ts unread_delta g = record g {
  last_ts = max_ts ts g.last_ts;
  last_preview = take 120 preview;
  unread = saturating_add g.unread unread_delta;
}

unfoldable pub touch_group : GroupStore → Text → Text → ℤ → ℕ → GroupStore
touch_group s gid preview ts unread_delta = record s {
  groups = modify_first (is_group gid) (touched preview ts unread_delta) s.groups;
}

unfoldable pub group_ctx : Group → GroupCtx
group_ctx g = record {
  id = some g.id;
  name = some g.name;
  members = some g.members;
  created_by = some g.created_by;
  bio = some g.bio;
  avatar_cid = g.avatar_cid;
}

abbrev pub or_default {ℓ} : {A : Type ℓ} → Option A → A → A
or_default none d = d
or_default (some a) d = a

-- Refresh a group that is there.
unfoldable pub refreshed : GroupCtx → Group → Group
refreshed ctx g =
    let name = or_default ctx.name (codes "Group") in
    let members = or_default ctx.members [] in
    let created_by = or_default ctx.created_by [] in
    let bio = or_default ctx.bio [] in
    record g {
      name = if is_empty name then g.name else name;
      members = if ltb (length g.members) (length members) then members else g.members;
      created_by = if is_empty created_by then g.created_by else created_by;
      bio = if is_empty bio then g.bio else bio;
      avatar_cid = elim ctx.avatar_cid [ none ↦ g.avatar_cid | some cid ↦ some cid ];
    }

unfoldable pub received_group : Text → GroupCtx → ℤ → Group
received_group id ctx now = record {
  id = id;
  name = or_default ctx.name (codes "Group");
  members = or_default ctx.members [];
  last_ts = now;
  last_preview = [];
  unread = 0;
  created_by = or_default ctx.created_by [];
  bio = or_default ctx.bio [];
  avatar_cid = ctx.avatar_cid;
  pending = true;
}

unfoldable pub accept_group : GroupStore → Text → GroupStore
accept_group s gid = record s {
  groups = modify_first (is_group gid) (λ (g : Group). record g { pending = false }) s.groups;
}

unfoldable pub decline_group : GroupStore → Text → GroupStore
decline_group s gid = record s {
  groups = filter (λ g. not (is_group gid g)) s.groups;
  declined = if any (λ d. text_eq d gid) s.declined then s.declined else s.declined ++ (gid ∷ []);
}

unfoldable pub mark_group_read : GroupStore → Text → GroupStore
mark_group_read s gid = record s {
  groups = modify_first (is_group gid) (λ (g : Group). record g { unread = 0 }) s.groups;
}

unfoldable pub delete_group : GroupStore → Text → GroupStore
delete_group s gid = record s {
  groups = filter (λ g. not (is_group gid g)) s.groups;
  conversations = remove (group_conv_path gid) s.conversations;
}

-- A did of more than 12 characters goes by its last 6.
unfoldable pub short_did_label : Text → Text
short_did_label did = if ltb 12 (length did) then codes "hey-" ++ drop (length did - 6) did else did
