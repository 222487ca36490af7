-- ===== src/Groups/Consent.antt =====
-- What incoming messages may do to the groups that are there (capsules/hey-core/src/api/dms.rs):
-- nobody is joined to a group.
use hey_capsule.Prelude.{
  ℕ, ◌≡◌, refl, ◌∙◌, true, ◌||◌, Option, none, some, List, [], ◌∷◌, ◌++◌, Text, text_eq, text_key,
  any, find, is_empty, modify_first, Bool-cases, Option-cases, inl, inr,
}
use hey_capsule.Prelude.Int.{ℤ}
use hey_capsule.Contacts.Bootstrap.{Minted}
use hey_capsule.Conversation.{Attachment}
use hey_capsule.Groups.{
  Group, GroupCtx, GroupStore, is_group, refreshed, received_group, touched, touch_group,
  write_group_conversation,
}
use hey_capsule.Groups.Incoming.{
  Contacts, upsert_record, upsert_group_from_ctx, add_group_message, store_incoming_group_message,
  file_message,
}
use hey_capsule.Groups.History.{GroupMessage, is_known, outcome, receive_groups}

-- A group under one id before and after: it stays, as pending as it was, and a new one is pending.
abbrev pub Consents : Option Group → Option Group → Type 0
Consents none none = Unit
Consents none (some g') = g'.pending ≡ true
Consents (some g) none = ⊥
Consents (some g) (some g') = g'.pending ≡ g.pending

Consents-refl : (o : Option Group) → Consents o o
Consents-refl none = tt
Consents-refl (some g) = refl

Consents-trans : (a b c : Option Group) → Consents a b → Consents b c → Consents a c
Consents-trans none none c h k = k
Consents-trans none (some b) none h k = absurd k
Consents-trans none (some b) (some c) h k = k ∙ h
Consents-trans (some a) none c h k = absurd h
Consents-trans (some a) (some b) none h k = absurd k
Consents-trans (some a) (some b) (some c) h k = k ∙ h

modify_first-Consents :
    (id gid : Text) (f : Group → Group) (gs : List Group)
    → ((g : Group) → (f g).id ≡ g.id)
    → ((g : Group) → (f g).pending ≡ g.pending)
    → Consents (find (is_group id) gs) (find (is_group id) (modify_first (is_group gid) f gs))
unfolding find modify_first
modify_first-Consents id gid f [] keeps pends = tt
modify_first-Consents id gid f (g ∷ gs) keeps pends = elim (Bool-cases (is_group gid g)) [
  | inl changed ↦ elim (Bool-cases (is_group id g)) [
    | inl here ↦ rw (changed, here, keeps g, here) (pends g)
    | inr there ↦ rw (changed, there, keeps g, there) (Consents-refl (find (is_group id) gs))
  ]
  | inr kept ↦ elim (Bool-cases (is_group id g)) [
    | inl here ↦ rw (kept, here) refl
    | inr there ↦ rw (kept, there) (modify_first-Consents id gid f gs keeps pends)
  ]
]

append-Consents :
    (id : Text) (gs : List Group) (new : Group)
    → new.pending ≡ true
    → Consents (find (is_group id) gs) (find (is_group id) (gs ++ (new ∷ [])))
unfolding find
append-Consents id [] new pends = elim (Bool-cases (is_group id new)) [
  | inl here ↦ rw here pends
  | inr there ↦ rw there tt
]
append-Consents id (g ∷ gs) new pends = elim (Bool-cases (is_group id g)) [
  | inl here ↦ rw here refl
  | inr there ↦ rw there (append-Consents id gs new pends)
]

upsert_record-Consents :
    (now : ℤ) (id gid : Text) (ctx : GroupCtx) (gs : List Group)
    → Consents (find (is_group id) gs) (find (is_group id) (upsert_record now gid ctx gs))
unfolding upsert_record refreshed received_group
upsert_record-Consents now id gid ctx gs = elim (Option-cases (find (is_group gid) gs)) [
  | inl absent ↦
      rw (absent, upsert_record) (append-Consents id gs (received_group gid ctx now) refl)
  | inr (g, held) ↦
      rw (held, upsert_record)
        (modify_first-Consents id gid (refreshed ctx) gs (λ _. refl) (λ _. refl))
]

add_group_message-Consents :
    (id : Text) (s : GroupStore) (gid sender_did text dedup_id : Text) (ts : ℤ)
    (as' : List Attachment)
    → Consents
        (find (is_group id) s.groups)
        (find (is_group id) (add_group_message dedup_id s gid sender_did text ts as').groups)
unfolding add_group_message touch_group write_group_conversation touched
add_group_message-Consents id s gid sender_did text dedup_id ts as' =
    modify_first-Consents id gid _ s.groups (λ _. refl) (λ _. refl)

file_message-Consents :
    (id : Text) (o : Option Text) (s : GroupStore) (m : GroupMessage)
    → Consents (find (is_group id) s.groups) (
        find
          (is_group id)
          (file_message o s m.sender_did m.text m.ts m.dedup_id m.attachments).1.groups)
unfolding file_message
file_message-Consents id none s m = Consents-refl (find (is_group id) s.groups)
file_message-Consents id (some gid) s m = elim (Bool-cases (is_known m s gid)) [
  | inl known ↦ rw (file_message, known) (Consents-refl (find (is_group id) s.groups))
  | inr new ↦
      rw (file_message, new)
        (add_group_message-Consents id s gid m.sender_did m.text m.dedup_id m.ts m.attachments)
]

module _ (sha256 : List ℕ → List ℕ) (mint : ℕ → Minted) (my_did : Text) (now : ℤ) where
  upsert-Consents :
      (id : Text) (ctx : GroupCtx) (c : Contacts) (s : GroupStore)
      → Consents
          (find (is_group id) s.groups)
          (find (is_group id) (upsert_group_from_ctx sha256 mint my_did now ctx c s).2.groups)
  unfolding upsert_group_from_ctx
  upsert-Consents id ctx c s = elim (Option-cases ctx.id) [
    | inl e ↦ rw (e, upsert_group_from_ctx) (Consents-refl (find (is_group id) s.groups))
    | inr (gid, e) ↦ elim (Bool-cases (is_empty gid || any (λ d. text_eq d gid) s.declined)) [
      | inl refused ↦
          rw (e, upsert_group_from_ctx, refused) (Consents-refl (find (is_group id) s.groups))
      | inr taken ↦
          rw (e, upsert_group_from_ctx, taken) (upsert_record-Consents now id gid ctx s.groups)
    ]
  ]

  outcome-Consents :
      (id : Text) (m : GroupMessage) (c : Contacts) (s : GroupStore)
      → Consents
          (find (is_group id) s.groups)
          (find (is_group id) (outcome sha256 mint my_did now m c s).2.groups)
  unfolding store_incoming_group_message
  outcome-Consents id m c s =
      let up = upsert_group_from_ctx sha256 mint my_did now m.ctx c s in
      Consents-trans (find (is_group id) s.groups) (find (is_group id) up.2.groups) _
        (upsert-Consents id m.ctx c s) (file_message-Consents id up.0 up.2 m)

  -- Whatever messages come in, from whomever, and in whatever order: a group that is there stays
  -- under its id, and accepted or pending as it was; a group that was not there is pending if it is
  -- there after.
  pub receive_groups-Consents :
      (id : Text) (ms : List GroupMessage) (c : Contacts) (s : GroupStore)
      → Consents
          (find (is_group id) s.groups)
          (find (is_group id) (receive_groups sha256 mint my_did now ms c s).1.groups)
  unfolding receive_groups
  receive_groups-Consents id [] c s = Consents-refl (find (is_group id) s.groups)
  receive_groups-Consents id (m ∷ ms) c s =
      let out = outcome sha256 mint my_did now m c s in
      Consents-trans (find (is_group id) s.groups) (find (is_group id) out.2.groups) _
        (outcome-Consents id m c s) (receive_groups-Consents id ms out.1 out.2)
