-- ===== src/Receiving/Revoking.antt =====
-- Withdrawing an invite and deleting a conversation (`revoke_invite` and `delete_conversation`,
-- capsules/hey-core/src/api/dms.rs), up to what they store. The topics that they forget are not
-- modelled.
use hey_capsule.Prelude.{
  ◌≡◌, refl, ap, ◌∙◌, sym, Bool, true, false, not, ◌&&◌, ◌||◌, inl, inr, ◌++◌, codes, Option, none,
  some, List, [], ◌∷◌, Text, text_eq, text_key, Map, lookup, lookup-remove, beq_refl, find, filter,
  any, remove, remove_first, All, Bool-cases, Option-cases, arith,
}
use hey_capsule.Crypto.Kdf.{Primitives}
use hey_capsule.Crypto.Attachment.{Aead}
use hey_capsule.Contacts.Record.{DmContact, is_active, is_text}
use hey_capsule.Contacts.Store.{list_contacts, is_did}
use hey_capsule.Conversation.{conv_path}
use hey_capsule.Receiving.{
  InnerPayload, Device, Host, Draws, remove_ratchet, read_ratchet, ratchet_path,
}
use hey_capsule.Receiving.Handshake.{is_invited, receive_handshake}
use hey_capsule.Receiving.Promotion.{find-none, Used, receive_handshake-Used-same}

abbrev pub is_revoked : Text → DmContact → Bool
is_revoked id c = not (is_active c.status) && (text_eq c.did id || is_text c.my_inbound_queue id)

abbrev pub without_contact : (DmContact → Bool) → Device → Device
without_contact p d = record d {
  storage = record (d.storage) {
    contacts = some (remove_first p (list_contacts d.storage.contacts));
  };
}

unfoldable pub revoke_invite : Text → Device → Device
revoke_invite id d = elim (find (is_revoked id) (list_contacts d.storage.contacts)) [
  | none ↦ d
  | some removed ↦ remove_ratchet removed.did (without_contact (is_revoked id) d)
]

-- The prekey that was stashed for the contact's queue.
unfoldable pub remove_stash : Option Text → Device → Device
remove_stash none d = d
remove_stash (some queue) d = remove_ratchet (codes "pending:" ++ queue) d

-- What is kept under a contact's did goes with it.
unfoldable pub erase : DmContact → Device → Device
erase removed d = remove_stash removed.my_inbound_queue (
    remove_ratchet removed.did (record d {
      storage = record (d.storage) {
        conversations = remove (conv_path removed.did) d.storage.conversations;
        expiry = remove removed.did d.storage.expiry;
      };
    }))

unfoldable pub delete_conversation : Text → Device → Device
delete_conversation did d = elim (find (is_did did) (list_contacts d.storage.contacts)) [
  | none ↦ d
  | some removed ↦ erase removed (without_contact (is_did did) d)
]

module _ {ℓ} {A : Type ℓ} (p q : A → Bool) where
  find-same : (xs : List A) → All (λ x. p x ≡ q x) xs → find p xs ≡ find q xs
  unfolding find
  find-same [] h = refl
  find-same (x ∷ xs) h = rw (h.0, find-same xs h.1) refl

  remove_first-same :
      (xs : List A) → All (λ x. p x ≡ q x) xs → remove_first p xs ≡ remove_first q xs
  unfolding remove_first
  remove_first-same [] h = refl
  remove_first-same (x ∷ xs) h = rw (h.0, remove_first-same xs h.1) refl

  -- What is removed fails the other test.
  filter-remove_first :
      (xs : List A)
      → ((x : A) → p x ≡ true → q x ≡ false)
      → filter q (remove_first p xs) ≡ filter q xs
  unfolding remove_first filter
  filter-remove_first [] h = refl
  filter-remove_first (x ∷ xs) h = elim (Bool-cases (p x)) [
    | inl gone ↦ rw (gone, h x gone) refl
    | inr kept ↦ rw kept (ground (arith, filter-remove_first xs h))
  ]

abbrev pub actives : Device → List DmContact
actives d = filter (λ c. is_active c.status) (list_contacts d.storage.contacts)

pub actives-revoke_invite : (id : Text) (d : Device) → actives (revoke_invite id d) ≡ actives d
unfolding revoke_invite remove_ratchet list_contacts
actives-revoke_invite id d =
    elim (Option-cases (find (is_revoked id) (list_contacts d.storage.contacts))) [
      | inl gone ↦ rw (revoke_invite, gone) refl
      | inr (c, found) ↦
          rw (revoke_invite, found)
            (filter-remove_first (is_revoked id) (λ c. is_active c.status)
              (list_contacts d.storage.contacts) (λ c h. ground (arith, h)))
    ]

-- The id is the did or the queue of a contact just where the contact has this queue.
abbrev pub Names : Text → Text → DmContact → Type 0
Names id queue c =
    (text_eq c.did id || is_text c.my_inbound_queue id) ≡ is_text c.my_inbound_queue queue

revoked-invited :
    (id queue : Text) (cs : List DmContact)
    → All (Names id queue) cs
    → All (λ c. is_revoked id c ≡ is_invited queue c) cs
revoked-invited id queue [] h = tt
revoked-invited id queue (c ∷ cs) h = (ground (arith, h.0), revoked-invited id queue cs h.1)

revoke_invite-Used :
    (id queue : Text) (d : Device)
    → All (Names id queue) (list_contacts d.storage.contacts)
    → any (is_invited queue) (remove_first (is_invited queue) (list_contacts d.storage.contacts))
      ≡ false
    → Used queue (revoke_invite id d)
unfolding revoke_invite remove_ratchet list_contacts
revoke_invite-Used id queue d names only =
    let same = revoked-invited id queue (list_contacts d.storage.contacts) names in
    elim (Option-cases (find (is_revoked id) (list_contacts d.storage.contacts))) [
      | inl gone ↦ rw (revoke_invite, gone) (sym (find-same _ _ _ same) ∙ gone)
      | inr (c, found) ↦
          rw (revoke_invite, found)
            (ap (find (is_invited queue)) (remove_first-same _ _ _ same)
              ∙ find-none (is_invited queue) _ only)
    ]

module _ (p : Primitives) (cipher : Aead) (host : Host) (draws : Draws) where
  -- Where an id is the did or the queue of just those contacts that have a queue as theirs, active
  -- ones among them, and at most one of them is pending, then after the id is revoked no handshake on
  -- the queue changes anything, and the active contacts are those from before.
  pub receive_handshake-revoke_invite :
      (id queue : Text) (d : Device) (inner : InnerPayload)
      → All (Names id queue) (list_contacts d.storage.contacts)
      → any (is_invited queue) (remove_first (is_invited queue) (list_contacts d.storage.contacts))
        ≡ false
      → let d' = revoke_invite id d in
        ((receive_handshake p cipher host draws d' inner queue).1 ≡ d') × (actives d' ≡ actives d)
  receive_handshake-revoke_invite id queue d inner same only = (
    receive_handshake-Used-same p cipher host draws _ inner queue
        (revoke_invite-Used id queue d same only),
    actives-revoke_invite id d,
  )

lookup-remove_self : {V : Type 0} (k : Text) (m : Map Text V) → lookup k (remove k m) ≡ none
lookup-remove_self k m = lookup-remove k k m ∙ rw (beq_refl text_key k) refl

lookup-remove_gone :
    {V : Type 0} (k j : Text) (m : Map Text V) → lookup k m ≡ none → lookup k (remove j m) ≡ none
lookup-remove_gone k j m gone = lookup-remove j k m ∙ ground (arith, gone)

read_ratchet-remove_stash :
    (o : Option Text) (d : Device) (did : Text)
    → read_ratchet d did ≡ none
    → read_ratchet (remove_stash o d) did ≡ none
unfolding remove_stash remove_ratchet read_ratchet
read_ratchet-remove_stash none d did gone = gone
read_ratchet-remove_stash (some queue) d did gone =
    lookup-remove_gone (ratchet_path did) (ratchet_path (codes "pending:" ++ queue)) d.ratchets gone

storage-remove_stash : (o : Option Text) (d : Device) → (remove_stash o d).storage ≡ d.storage
unfolding remove_stash remove_ratchet
storage-remove_stash none d = refl
storage-remove_stash (some queue) d = refl

-- Nothing is kept under a did.
pub record IsErased (did : Text) (d : Device) : Type 0 where
  pub contact : find (is_did did) (list_contacts d.storage.contacts) ≡ none
  pub conversation : lookup (conv_path did) d.storage.conversations ≡ none
  pub timer : lookup did d.storage.expiry ≡ none
  pub ratchet : read_ratchet d did ≡ none

erase-IsErased :
    (c : DmContact) (d : Device)
    → find (is_did c.did) (list_contacts d.storage.contacts) ≡ none
    → IsErased c.did (erase c d)
unfolding erase remove_ratchet read_ratchet
erase-IsErased c d gone =
    let same = storage-remove_stash c.my_inbound_queue _ in
    record {
      contact = ap (λ s. find (is_did c.did) (list_contacts s.contacts)) same ∙ gone;
      conversation =
          ap (λ s. lookup (conv_path c.did) s.conversations) same
          ∙ lookup-remove_self (conv_path c.did) d.storage.conversations;
      timer = ap (λ s. lookup c.did s.expiry) same ∙ lookup-remove_self c.did d.storage.expiry;
      ratchet =
          read_ratchet-remove_stash c.my_inbound_queue _ c.did
            (lookup-remove_self (ratchet_path c.did) d.ratchets);
    }

-- Where one contact at most has the did, and it is there, a deletion leaves neither it nor a
-- conversation, a timer or a ratchet under its did.
pub delete_conversation-IsErased :
    (c : DmContact) (d : Device)
    → find (is_did c.did) (list_contacts d.storage.contacts) ≡ some c
    → any (is_did c.did) (remove_first (is_did c.did) (list_contacts d.storage.contacts)) ≡ false
    → IsErased c.did (delete_conversation c.did d)
unfolding delete_conversation list_contacts
delete_conversation-IsErased c d found only =
    rw (delete_conversation, found)
      (erase-IsErased c (without_contact (is_did c.did) d) (find-none (is_did c.did) _ only))
