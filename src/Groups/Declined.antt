-- ===== src/Groups/Declined.antt =====
-- A declined group does not come back (capsules/hey-core/src/api/dms.rs).
use hey_capsule.Prelude.{
  ℕ, ◌≡◌, refl, ap, ◌∙◌, sym, subst, true, false, not, ◌||◌, Option, none, some, List, [], ◌∷◌,
  ◌++◌, Text, text_eq, text_eq_iff, text_key, beq_refl, any, find, is_empty, modify_first,
  find-modify_first_other, find-append, find-filter-none, Bool-cases, Option-cases, inl, inr, arith,
  err,
}
use hey_capsule.Prelude.Int.{ℤ}
use hey_capsule.Contacts.Bootstrap.{Minted}
use hey_capsule.Groups.{
  Group, GroupCtx, GroupStore, is_group, refreshed, received_group, touched, touch_group,
  write_group_conversation, decline_group,
}
use hey_capsule.Groups.Incoming.{
  Contacts, no_group_id, upsert_record, upsert_group_from_ctx, add_group_message,
  store_incoming_group_message, file_message,
}
use hey_capsule.Groups.History.{GroupMessage, is_known, outcome, receive_groups}

-- What is in force for a declined group: the decline is held, and there is no group.
abbrev pub IsDeclined : Text → GroupStore → Type 0
IsDeclined gid s =
    (any (λ d. text_eq d gid) s.declined ≡ true) × (find (is_group gid) s.groups ≡ none)

any-last_text : (gid : Text) (ds : List Text) → any (λ d. text_eq d gid) (ds ++ (gid ∷ [])) ≡ true
unfolding any
any-last_text gid [] = rw (beq_refl text_key gid) refl
any-last_text gid (d ∷ ds) = ground (arith, any-last_text gid ds)

decline_group-IsDeclined : (s : GroupStore) (gid : Text) → IsDeclined gid (decline_group s gid)
unfolding decline_group
decline_group-IsDeclined s gid = (
  elim (Bool-cases (any (λ d. text_eq d gid) s.declined)) [
    | inl held ↦ rw (held, held) refl
    | inr new ↦ rw new (any-last_text gid s.declined)
  ],
  find-filter-none (λ g. not (is_group gid g)) (is_group gid) s.groups (λ g e. rw e refl),
)

declined_other :
    (s : GroupStore) (gid id : Text)
    → any (λ d. text_eq d gid) s.declined ≡ true
    → (is_empty id || any (λ d. text_eq d id) s.declined) ≡ false
    → text_eq id gid ≡ false
declined_other s gid id held taken = elim (Bool-cases (text_eq id gid)) [
  | inl same ↦
      let held' : any (λ d. text_eq d id) s.declined ≡ true =
        subst (λ i. any (λ d. text_eq d i) s.declined ≡ true) (sym ((text_eq_iff id gid).0 same))
          held in
      ground (arith, held', taken)
  | inr other ↦ other
]

-- A change to the group of another id.
modify_first_other :
    (gid id : Text) (f : Group → Group) (gs : List Group)
    → text_eq id gid ≡ false
    → ((g : Group) → (f g).id ≡ g.id)
    → find (is_group gid) (modify_first (is_group id) f gs) ≡ find (is_group gid) gs
modify_first_other gid id f gs ne keeps =
    let other = λ (g : Group) (e : is_group id g ≡ true).
      ap (λ i. text_eq i gid) ((text_eq_iff g.id id).0 e) ∙ ne in
    find-modify_first_other (is_group id) (is_group gid) f gs other
      (λ g e. ap (λ i. text_eq i gid) (keeps g) ∙ other g e)

modify_first-none :
    (gid id : Text) (f : Group → Group) (gs : List Group)
    → ((g : Group) → (f g).id ≡ g.id)
    → find (is_group gid) gs ≡ none
    → find (is_group gid) (modify_first (is_group id) f gs) ≡ none
unfolding find modify_first
modify_first-none gid id f [] keeps e = refl
modify_first-none gid id f (g ∷ gs) keeps e = elim (Bool-cases (is_group gid g)) [
  | inl here ↦ ground (arith, e, here)
  | inr there ↦ elim (Bool-cases (is_group id g)) [
    | inl changed ↦ rw (changed, keeps g, there) (ground (arith, e, there))
    | inr kept ↦ rw (kept, there) (modify_first-none gid id f gs keeps (ground (arith, e, there)))
  ]
]

upsert_record_other :
    (now : ℤ) (gid id : Text) (ctx : GroupCtx) (gs : List Group)
    → text_eq id gid ≡ false
    → find (is_group gid) gs ≡ none
    → find (is_group gid) (upsert_record now id ctx gs) ≡ none
unfolding upsert_record refreshed received_group find
upsert_record_other now gid id ctx gs ne absent = elim (Option-cases (find (is_group id) gs)) [
  | inl new ↦
      rw (new, upsert_record)
        (find-append (is_group gid) gs (received_group id ctx now ∷ []) ∙ rw (absent, ne) refl)
  | inr (g, held) ↦
      rw (held, upsert_record)
        (modify_first_other gid id (refreshed ctx) gs ne (λ _. refl) ∙ absent)
]

add_group_message-IsDeclined :
    (gid id : Text) (s : GroupStore) (m : GroupMessage)
    → IsDeclined gid s
    → IsDeclined gid (add_group_message m.dedup_id s id m.sender_did m.text m.ts m.attachments)
unfolding add_group_message touch_group write_group_conversation touched
add_group_message-IsDeclined gid id s m d =
    (d.0, modify_first-none gid id _ s.groups (λ _. refl) d.1)

file_message-IsDeclined :
    (gid : Text) (o : Option Text) (s : GroupStore) (m : GroupMessage)
    → IsDeclined gid s
    → IsDeclined gid (file_message o s m.sender_did m.text m.ts m.dedup_id m.attachments).1
unfolding file_message
file_message-IsDeclined gid none s m d = d
file_message-IsDeclined gid (some id) s m d = elim (Bool-cases (is_known m s id)) [
  | inl known ↦ rw (file_message, known) d
  | inr new ↦ rw (file_message, new) (add_group_message-IsDeclined gid id s m d)
]

module _ (sha256 : List ℕ → List ℕ) (mint : ℕ → Minted) (my_did : Text) (now : ℤ) where
  upsert-IsDeclined :
      (gid : Text) (ctx : GroupCtx) (c : Contacts) (s : GroupStore)
      → IsDeclined gid s
      → IsDeclined gid (upsert_group_from_ctx sha256 mint my_did now ctx c s).2
  unfolding upsert_group_from_ctx
  upsert-IsDeclined gid ctx c s d = elim (Option-cases ctx.id) [
    | inl e ↦ rw (e, upsert_group_from_ctx) d
    | inr (id, e) ↦ elim (Bool-cases (is_empty id || any (λ d. text_eq d id) s.declined)) [
      | inl refused ↦ rw (e, upsert_group_from_ctx, refused) d
      | inr taken ↦
          rw (e, upsert_group_from_ctx, taken)
            (
              d.0,
              upsert_record_other now gid id ctx s.groups (declined_other s gid id d.0 taken) d.1,
            )
    ]
  ]

  outcome-IsDeclined :
      (gid : Text) (m : GroupMessage) (c : Contacts) (s : GroupStore)
      → IsDeclined gid s
      → IsDeclined gid (outcome sha256 mint my_did now m c s).2
  unfolding store_incoming_group_message
  outcome-IsDeclined gid m c s d =
      let up = upsert_group_from_ctx sha256 mint my_did now m.ctx c s in
      file_message-IsDeclined gid up.0 up.2 m (upsert-IsDeclined gid m.ctx c s d)

  receive_groups-IsDeclined :
      (gid : Text) (ms : List GroupMessage) (c : Contacts) (s : GroupStore)
      → IsDeclined gid s
      → IsDeclined gid (receive_groups sha256 mint my_did now ms c s).1
  unfolding receive_groups
  receive_groups-IsDeclined gid [] c s d = d
  receive_groups-IsDeclined gid (m ∷ ms) c s d =
      let out = outcome sha256 mint my_did now m c s in
      receive_groups-IsDeclined gid ms out.1 out.2 (outcome-IsDeclined gid m c s d)

  pub refused_lem :
      (gid : Text) (m : GroupMessage) (c : Contacts) (s : GroupStore)
      → any (λ d. text_eq d gid) s.declined ≡ true
      → m.ctx.id ≡ some gid
      → outcome sha256 mint my_did now m c s ≡ (err no_group_id, c, s)
  unfolding store_incoming_group_message file_message upsert_group_from_ctx
  refused_lem gid m c s d e = elim (Bool-cases (is_empty gid)) [
    | inl empty ↦ rw (e, upsert_group_from_ctx, empty) refl
    | inr named ↦ rw (e, upsert_group_from_ctx, named, d) refl
  ]

  -- After a group is declined, and whatever messages come in then, there is no group under its id,
  -- and a message that names it is refused and changes neither the groups nor the contacts.
  pub receive_groups-decline_group :
      (gid : Text) (ms : List GroupMessage) (m : GroupMessage) (c : Contacts) (s : GroupStore)
      → m.ctx.id ≡ some gid
      → let later = receive_groups sha256 mint my_did now ms c (decline_group s gid) in
        (find (is_group gid) later.1.groups ≡ none)
        × (outcome sha256 mint my_did now m later.0 later.1 ≡ (err no_group_id, later.0, later.1))
  receive_groups-decline_group gid ms m c s e =
      let d =
        receive_groups-IsDeclined gid ms c (decline_group s gid) (decline_group-IsDeclined s gid) in
      let later = receive_groups sha256 mint my_did now ms c (decline_group s gid) in
      (d.1, refused_lem gid m later.0 later.1 d.0 e)
