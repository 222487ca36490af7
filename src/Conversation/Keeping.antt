-- ===== src/Conversation/Keeping.antt =====
-- What a conversation holds after a redelivery and after expiry.
use hey_capsule.Prelude.{
  ℕ, ◌≡◌, refl, ap, ◌∙◌, sym, Bool, true, false, not, some, List, [], ◌∷◌, ◌++◌, Text, text_eq,
  text_key, lookup, insert, lookup-insert, beq_refl, any, filter, if◌then◌else◌, Bool-cases, inl,
  inr, arith,
}
use hey_capsule.Prelude.Int.{ℤ, pos, ◌-ℤ◌, ◌*ℤ◌}
use hey_capsule.Conversation.{
  Attachment, DmMessage, Storage, conv_path, or_none, read_conversation, write_conversation,
  conv_has, incoming, add_message, store_incoming_message, get_expiry_secs, is_off, is_expired,
  prune_expired,
}

read-write :
    (s : Storage) (did : Text) (msgs : List DmMessage)
    → read_conversation (write_conversation did msgs s) did ≡ msgs
unfolding read_conversation write_conversation
read-write s did msgs =
    let e : lookup (conv_path did) (insert (conv_path did) msgs s.conversations) ≡ some msgs =
      lookup-insert (conv_path did) (conv_path did) msgs s.conversations
      ∙ rw (beq_refl text_key (conv_path did)) refl in
    ap or_none e

filter_none :
    (p : DmMessage → Bool) (xs : List DmMessage)
    → any p xs ≡ false
    → filter (λ m. not (p m)) xs ≡ xs
unfolding any filter
filter_none p [] h = refl
filter_none p (x ∷ xs) h = ground (arith, filter_none p xs)

any-last :
    (id : Text) (xs : List DmMessage) (m : DmMessage)
    → m.id ≡ id
    → any (λ (m : DmMessage). text_eq m.id id) (xs ++ (m ∷ [])) ≡ true
unfolding any
any-last id [] m e = rw (ap (λ s. text_eq s id) e, beq_refl text_key id) refl
any-last id (x ∷ xs) m e = ground (arith, any-last id xs m e)

store_redelivered :
    (new_id : Text) (s : Storage) (sender text id : Text) (ts : ℤ) (as' : List Attachment)
    → conv_has s sender id ≡ true
    → store_incoming_message new_id s sender text ts (some id) as' ≡ (false, s)
unfolding store_incoming_message
store_redelivered new_id s sender text id ts as' held = rw (store_incoming_message, held) refl

store_new :
    (new_id : Text) (s : Storage) (sender text id : Text) (ts : ℤ) (as' : List Attachment)
    → conv_has s sender id ≡ false
    → store_incoming_message new_id s sender text ts (some id) as'
      ≡ (true, add_message s sender (incoming new_id text ts (some id) as'))
unfolding store_incoming_message
store_new new_id s sender text id ts as' new = rw (store_incoming_message, new) refl

read-add_message :
    (s : Storage) (sender : Text) (msg : DmMessage)
    → read_conversation (add_message s sender msg) sender ≡ read_conversation s sender ++ (msg ∷ [])
unfolding add_message read_conversation write_conversation
read-add_message s sender msg = read-write s sender (read_conversation s sender ++ (msg ∷ []))

conv_has-add_message :
    (s : Storage) (sender id : Text) (msg : DmMessage)
    → msg.id ≡ id
    → conv_has (add_message s sender msg) sender id ≡ true
unfolding conv_has
conv_has-add_message s sender id msg e =
    ap (any (λ (m : DmMessage). text_eq m.id id)) (read-add_message s sender msg)
    ∙ any-last id (read_conversation s sender) msg e

pub held_after :
    (new_id : Text) (s : Storage) (sender text id : Text) (ts : ℤ) (as' : List Attachment)
    → conv_has (store_incoming_message new_id s sender text ts (some id) as').1 sender id ≡ true
held_after new_id s sender text id ts as' = elim (Bool-cases (conv_has s sender id)) [
  | inl held ↦
      ap (λ (r : Bool × Storage). conv_has r.1 sender id)
        (store_redelivered new_id s sender text id ts as' held)
      ∙ held
  | inr new ↦
      ap (λ (r : Bool × Storage). conv_has r.1 sender id)
        (store_new new_id s sender text id ts as' new)
      ∙ conv_has-add_message s sender id (incoming new_id text ts (some id) as') refl
]

-- A message that comes a second time under the same id, even with other contents, is recognised as a
-- redelivery and changes nothing.
pub store_incoming_message_again :
    (new_id new_id' : Text) (s : Storage) (sender text text' id : Text) (ts ts' : ℤ)
    (as' bs : List Attachment)
    → let first = (store_incoming_message new_id s sender text ts (some id) as').1 in
      store_incoming_message new_id' first sender text' ts' (some id) bs ≡ (false, first)
store_incoming_message_again new_id new_id' s sender text text' id ts ts' as' bs =
    store_redelivered new_id' (store_incoming_message new_id s sender text ts (some id) as').1
      sender text' id ts' bs (held_after new_id s sender text id ts as')

-- Where an expiry is set, pruning leaves exactly the messages of the conversation that are not older
-- than it allows; where none is, it leaves all.
pub read_conversation-prune_expired :
    (now : ℕ) (s : Storage) (did : Text)
    → let ttl = get_expiry_secs s did in
      let conv = read_conversation s did in
      read_conversation (prune_expired now s did) did ≡ (
        if is_off ttl
        then conv
        else filter (λ m. not (is_expired (pos now -ℤ (ttl *ℤ pos 1000)) m)) conv)
unfolding prune_expired
read_conversation-prune_expired now s did =
    let cutoff = pos now -ℤ (get_expiry_secs s did *ℤ pos 1000) in
    let conv = read_conversation s did in
    elim (Bool-cases (is_off (get_expiry_secs s did))) [
      | inl off ↦ rw off refl
      | inr on ↦ elim (Bool-cases (any (is_expired cutoff) conv)) [
        | inl old ↦ rw (on, old) (read-write s did (filter (λ m. not (is_expired cutoff m)) conv))
        | inr young ↦ rw (on, young) (sym (filter_none (is_expired cutoff) conv young))
      ]
    ]
