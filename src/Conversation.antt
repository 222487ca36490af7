-- ===== src/Conversation.antt =====
-- The stored conversations (capsules/hey-core/src/api/dms.rs): incoming messages, redeliveries and
-- expiry. A storage file is an entry of a map from its path, and reading one that is missing gives
-- the default; writes do not fail. Texts here are lists of characters.
pub mod Keeping
mod Tests
use hey_capsule.Prelude.{
  ℕ, ◌||◌, ◌&&◌, ◌==◌, Bool, true, false, not, Option, none, some, List, [], ◌∷◌, ◌++◌, map, Text,
  codes, text_eq, text_key, Map, lookup, insert, remove, any, filter, take, is_empty, if◌then◌else◌,
}
use hey_capsule.Prelude.Int.{ℤ, pos, ◌-ℤ◌, ◌*ℤ◌, ltb_ℤ}
use hey_capsule.Contacts.Record.{DmContact}
use hey_capsule.Contacts.Store.{touch_contact_message}

pub record Attachment : Type 0 where
  pub id : Text
  pub name : Text
  pub mime : Text
  pub size : ℕ
  pub cid : Text
  pub chunks : List Text
  pub tickets : List Text
  pub key_b64 : Text
  pub inline_b64 : Option Text

pub record DmMessage : Type 0 where
  pub id : Text
  pub text : Text
  pub ts : ℤ
  pub mine : Bool
  pub encrypted : Bool
  pub attachments : List Attachment
  pub sender_name : Text
  pub pinned : Bool

-- Expiry in seconds by did.
abbrev pub ExpiryMap : Type 0
ExpiryMap = Map Text ℤ

-- What storage holds: conversations by path, the contacts and the expiry.
pub record Storage : Type 0 where
  pub conversations : Map Text (List DmMessage)
  pub contacts : Option (List DmContact)
  pub expiry : ExpiryMap

unfoldable pub conv_path : Text → Text
conv_path did =
    codes "dm/by-did/"
    ++ (map (λ c. if c == b'/' || c == b':' then b'_' else c) did ++ codes ".json")

abbrev pub or_none : Option (List DmMessage) → List DmMessage
or_none none = []
or_none (some msgs) = msgs

unfoldable pub read_conversation : Storage → Text → List DmMessage
read_conversation s did = or_none (lookup (conv_path did) s.conversations)

unfoldable pub write_conversation : Text → List DmMessage → Storage → Storage
write_conversation did msgs s = record s {
  conversations = insert (conv_path did) msgs s.conversations;
}

unfoldable pub conv_has : Storage → Text → Text → Bool
conv_has s sender id = any (λ (m : DmMessage). text_eq m.id id) (read_conversation s sender)

abbrev pub is_redelivery : Storage → Text → Option Text → Bool
is_redelivery s sender none = false
is_redelivery s sender (some id) = conv_has s sender id

abbrev pub or_new : Option Text → Text → Text
or_new none new_id = new_id
or_new (some id) new_id = id

-- The preview of a message: its text, or the name of its first attachment behind a paper clip.
unfoldable pub preview_of : Text → List Attachment → Text
preview_of text [] = text
preview_of text (a ∷ as') = if is_empty text then 128206 ∷ b' ' ∷ a.name else text

-- `new_id` is the id that is drawn for a message that has none.
abbrev pub incoming : Text → Text → ℤ → Option Text → List Attachment → DmMessage
incoming new_id text ts dedup_id attachments = record {
  id = or_new dedup_id new_id;
  text = take 4096 text;
  ts = ts;
  mine = false;
  encrypted = true;
  attachments = attachments;
  sender_name = [];
  pinned = false;
}

-- Append a message to its conversation, and touch the contact.
unfoldable pub add_message : Storage → Text → DmMessage → Storage
add_message s sender_did msg =
    let s' = write_conversation sender_did (read_conversation s sender_did ++ (msg ∷ [])) s in
    record s' {
      contacts = some (
          touch_contact_message s'.contacts sender_did (preview_of msg.text msg.attachments) msg.ts
            1);
    }

unfoldable pub store_incoming_message :
    Text → Storage → Text → Text → ℤ → Option Text → List Attachment → Bool × Storage
store_incoming_message new_id s sender_did text ts dedup_id attachments =
    if is_redelivery s sender_did dedup_id
    then (false, s)
    else (true, add_message s sender_did (incoming new_id text ts dedup_id attachments))

unfoldable pub get_expiry_secs : Storage → Text → ℤ
get_expiry_secs s did = elim (lookup did s.expiry) [ some secs ↦ secs | none ↦ pos 0 ]

-- `secs <= 0`.
abbrev pub is_off : ℤ → Bool
is_off secs = not (ltb_ℤ (pos 0) secs)

unfoldable pub set_expiry_secs : Storage → Text → ℤ → Storage
set_expiry_secs s did secs = record s {
  expiry = if is_off secs then remove did s.expiry else insert did secs s.expiry;
}

abbrev pub is_expired : ℤ → DmMessage → Bool
is_expired cutoff m = ltb_ℤ m.ts cutoff

unfoldable pub prune_expired : ℕ → Storage → Text → Storage
prune_expired now s did =
    let ttl = get_expiry_secs s did in
    let cutoff = pos now -ℤ (ttl *ℤ pos 1000) in
    let conv = read_conversation s did in
    if is_off ttl
    then s
    else if any (is_expired cutoff) conv
    then write_conversation did (filter (λ m. not (is_expired cutoff m)) conv) s
    else s
