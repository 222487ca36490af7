-- ===== src/Contacts/Listing.antt =====
-- The list of contacts stays sorted, with one record for each did.
use hey_capsule.Prelude.{
  subst, ℕ, ◌+◌, ◌≤◌, ◌≡◌, refl, ap, ◌∙◌, sym, false, ◌&&◌, Option, none, some, List, [], ◌∷◌, ◌++◌,
  Text, text_eq, text_eq_iff, text_key, filter, length, ◌==◌, if◌then◌else◌, Bool-cases,
  Option-cases, inl, inr, All, arith,
}
use hey_capsule.Prelude.Int.{ℤ, ltb_ℤ}
use hey_capsule.Contacts.Record.{DmContact}
use hey_capsule.Contacts.Store.{
  is_did, list_contacts, update_first, insert_newest, sort_newest, v1_contact,
  touch_contact_message,
}

-- How many records a did has.
abbrev pub records_of : Text → List DmContact → ℕ
records_of did list = length (filter (is_did did) list)

-- The newest first.
abbrev pub IsSorted : List DmContact → Type 0
IsSorted [] = Unit
IsSorted (c ∷ cs) = All (λ (d : DmContact). ltb_ℤ c.last_ts d.last_ts ≡ false) cs × IsSorted cs

records_of-insert_newest :
    (did : Text) (c : DmContact) (ds : List DmContact)
    → records_of did (insert_newest c ds) ≡ records_of did (c ∷ ds)
unfolding insert_newest filter
records_of-insert_newest did c [] = refl
records_of-insert_newest did c (d ∷ ds) = ground (arith, records_of-insert_newest did c ds)

records_of-sort_newest :
    (did : Text) (cs : List DmContact) → records_of did (sort_newest cs) ≡ records_of did cs
unfolding sort_newest filter
records_of-sort_newest did [] = refl
records_of-sort_newest did (c ∷ cs) =
    records_of-insert_newest did c (sort_newest cs) ∙ ground (arith, records_of-sort_newest did cs)

All-insert_newest :
    (P : DmContact → Type 0) (c : DmContact) (ds : List DmContact)
    → P c
    → All P ds
    → All P (insert_newest c ds)
unfolding insert_newest
All-insert_newest P c [] h hs = (h, tt)
All-insert_newest P c (d ∷ ds) h hs = ground (arith, All-insert_newest P c ds h hs.1, h, hs.0, hs.1)

newer_trans :
    (c : DmContact) (d : DmContact) (ds : List DmContact)
    → ltb_ℤ c.last_ts d.last_ts ≡ false
    → All (λ (e : DmContact). ltb_ℤ d.last_ts e.last_ts ≡ false) ds
    → All (λ (e : DmContact). ltb_ℤ c.last_ts e.last_ts ≡ false) ds
newer_trans c d [] h hs = tt
newer_trans c d (e ∷ es) h hs = (ground (arith, h, hs.0), newer_trans c d es h hs.1)

insert_newest-IsSorted :
    (c : DmContact) (ds : List DmContact) → IsSorted ds → IsSorted (insert_newest c ds)
unfolding insert_newest
insert_newest-IsSorted c [] s = (tt, tt)
insert_newest-IsSorted c (d ∷ ds) s = elim (Bool-cases (ltb_ℤ c.last_ts d.last_ts)) [
  | inl older ↦ rw older (
    All-insert_newest (λ (e : DmContact). ltb_ℤ d.last_ts e.last_ts ≡ false) c ds
        (ground (arith, older)) s.0,
    insert_newest-IsSorted c ds s.1,
  )
  | inr newer ↦ rw newer ((newer, newer_trans c d ds newer s.0), s)
]

sort_newest-IsSorted : (cs : List DmContact) → IsSorted (sort_newest cs)
unfolding sort_newest
sort_newest-IsSorted [] = tt
sort_newest-IsSorted (c ∷ cs) = insert_newest-IsSorted c (sort_newest cs) (sort_newest-IsSorted cs)

-- A change that keeps the did of the record that it changes.
records_of-update_first :
    (did d : Text) (f : DmContact → DmContact) (cs cs' : List DmContact)
    → ((c : DmContact) → c.did ≡ did → (f c).did ≡ did)
    → update_first (is_did did) f cs ≡ some cs'
    → records_of d cs' ≡ records_of d cs
unfolding update_first filter
records_of-update_first did d f [] cs' keeps e = ground arith
records_of-update_first did d f (c ∷ cs) cs' keeps e = elim (Bool-cases (is_did did c)) [
  | inl same ↦
      let is : c.did ≡ did = (text_eq_iff c.did did).0 same in
      let kept : text_eq (f c).did d ≡ text_eq c.did d =
        ap (λ s. text_eq s d) (keeps c is ∙ sym is) in
      ground (arith, e, same, kept)
  | inr other ↦ elim (Option-cases (update_first (is_did did) f cs)) [
    | inl none' ↦ ground (arith, e, other, none')
    | inr (rest, changed) ↦
        ground (arith, e, other, changed, records_of-update_first did d f cs rest keeps changed)
  ]
]

update_first-none :
    (did : Text) (f : DmContact → DmContact) (cs : List DmContact)
    → update_first (is_did did) f cs ≡ none
    → records_of did cs ≡ 0
unfolding update_first filter
update_first-none did f [] e = refl
update_first-none did f (c ∷ cs) e = ground (arith, update_first-none did f cs)

update_first-some :
    (did : Text) (f : DmContact → DmContact) (cs cs' : List DmContact)
    → update_first (is_did did) f cs ≡ some cs'
    → 1 ≤ records_of did cs
unfolding update_first filter
update_first-some did f [] cs' e = ground arith
update_first-some did f (c ∷ cs) cs' e = elim (Option-cases (update_first (is_did did) f cs)) [
  | inl none' ↦ ground (arith, e, none')
  | inr (rest, changed) ↦ ground (arith, e, changed, update_first-some did f cs rest changed)
]

append_one :
    (d : Text) (c : DmContact) (cs : List DmContact)
    → records_of d (cs ++ (c ∷ [])) ≡ records_of d cs + (if text_eq c.did d then 1 else 0)
unfolding filter
append_one d c [] = ground arith
append_one d c (e ∷ es) = ground (arith, append_one d c es)

-- Change the record of a did, or add one.
records_of-changed :
    (did d : Text) (f : DmContact → DmContact) (new : DmContact) (list : List DmContact)
    → ((c : DmContact) → c.did ≡ did → (f c).did ≡ did)
    → new.did ≡ did
    → records_of d
        (elim (update_first (is_did did) f list) [ none ↦ list ++ (new ∷ []) | some list' ↦ list' ])
      ≡ (if text_eq did d && records_of d list == 0 then 1 else records_of d list)
records_of-changed did d f new list keeps is =
    elim (Option-cases (update_first (is_did did) f list)) [
      | inl absent ↦
          let zero' = update_first-none did f list absent in
          rw absent (
            append_one d new list
            ∙ ap (λ n. records_of d list + (if text_eq n d then 1 else 0)) is
            ∙ elim (Bool-cases (text_eq did d)) [
              | inl same ↦
                  let at_did : records_of d list ≡ 0 =
                    ap (λ s. records_of s list) (sym ((text_eq_iff did d).0 same)) ∙ zero' in
                  ground (arith, same, at_did)
              | inr other ↦ ground (arith, other)
            ])
      | inr (list', changed) ↦ rw changed (
          records_of-update_first did d f list list' keeps changed
          ∙ elim (Bool-cases (text_eq did d)) [
            | inl same ↦
                let at_did : 1 ≤ records_of d list =
                  subst (λ s. 1 ≤ records_of s list) ((text_eq_iff did d).0 same)
                    (update_first-some did f list list' changed) in
                ground (arith, same, at_did)
            | inr other ↦ ground (arith, other)
          ])
    ]

-- A message from a did is noted in its record, or in a new one where there is none: the list that
-- is written is sorted, the did has a record, and every other has as many as before.
pub touch_contact_message-IsSorted :
    (stored : Option (List DmContact)) (did d preview : Text) (ts : ℤ) (inc_unread : ℕ)
    → let before = records_of d (list_contacts stored) in
      let list = touch_contact_message stored did preview ts inc_unread in
      IsSorted list × (records_of d list ≡ (if text_eq did d && before == 0 then 1 else before))
unfolding touch_contact_message v1_contact
touch_contact_message-IsSorted stored did d preview ts inc_unread = (
  sort_newest-IsSorted _,
  records_of-sort_newest d _
      ∙ records_of-changed did d _ (v1_contact did preview ts inc_unread) (list_contacts stored)
          (λ c is. is) refl,
)
