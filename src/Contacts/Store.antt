-- ===== src/Contacts/Store.antt =====
-- The stored list of contacts (capsules/hey-core/src/api/dms.rs). The list that storage gives is
-- `none` where there is none or where the read failed; an operation returns the list that it writes.
use hey_capsule.Prelude.{
  ◌%◌, ℕ, ◌+◌, ◌-◌, ◌^◌, min, Bool, true, false, Option, none, some, List, [], ◌∷◌, ◌++◌, Text,
  text_eq, find, is_empty, take, ◌==◌, if◌then◌else◌,
}
use hey_capsule.Prelude.Int.{ℤ, pos, negsuc, ltb_ℤ}
use hey_capsule.Contacts.Record.{active, regular, DmContact}

abbrev pub is_did : Text → DmContact → Bool
is_did did c = text_eq c.did did

unfoldable pub list_contacts : Option (List DmContact) → List DmContact
list_contacts none = []
list_contacts (some list) = list

unfoldable pub find_contact : Option (List DmContact) → Text → Option DmContact
find_contact stored did = find (is_did did) (list_contacts stored)

-- Change the first contact that passes; `none` where there is none.
unfoldable pub update_first :
    (DmContact → Bool) → (DmContact → DmContact) → List DmContact → Option (List DmContact)
update_first p f [] = none
update_first p f (c ∷ cs) =
    if p c
    then some (f c ∷ cs)
    else (elim (update_first p f cs) [ none ↦ none | some cs' ↦ some (c ∷ cs') ])

-- `sort_by(|a, b| b.last_ts.cmp(&a.last_ts))`: the newest first, and stable.
unfoldable pub insert_newest : DmContact → List DmContact → List DmContact
insert_newest c [] = c ∷ []
insert_newest c (d ∷ ds) = if ltb_ℤ c.last_ts d.last_ts then d ∷ insert_newest c ds else c ∷ d ∷ ds

unfoldable pub sort_newest : List DmContact → List DmContact
sort_newest [] = []
sort_newest (c ∷ cs) = insert_newest c (sort_newest cs)

abbrev pub is_zero : ℤ → Bool
is_zero (pos n) = n == 0
is_zero (negsuc n) = false

-- What an upsert keeps of the record that is there.
unfoldable pub merge_contact : DmContact → DmContact → DmContact
merge_contact existing updated = record updated {
  last_ts = if is_zero updated.last_ts then existing.last_ts else updated.last_ts;
  last_preview =
      if is_empty updated.last_preview then existing.last_preview else updated.last_preview;
  name = if is_empty updated.name then existing.name else updated.name;
}

unfoldable pub upsert_contact_record :
    Option (List DmContact) → DmContact → List DmContact × DmContact
upsert_contact_record stored contact =
    let list = list_contacts stored in
    elim (find (is_did contact.did) list) [
      | none ↦ (sort_newest (list ++ (contact ∷ [])), contact)
      | some existing ↦
          let updated = merge_contact existing contact in
          (elim (update_first (is_did contact.did) (λ _. updated) list) [
            | none ↦ (sort_newest list, updated)
            | some list' ↦ (sort_newest list', updated)
          ])
    ]

abbrev pub saturating_add : ℕ → ℕ → ℕ
saturating_add a b = min (a + b) (2 ^ 32 - 1)

unfoldable pub v1_contact : Text → Text → ℤ → ℕ → DmContact
v1_contact did preview ts inc_unread = record {
  did = did;
  name = [];
  last_ts = ts;
  last_preview = take 140 preview;
  unread = inc_unread;
  my_inbound_queue = none;
  my_recv_pseudonym = none;
  their_inbound_queue = none;
  my_send_pseudonym = none;
  peer_ticket = none;
  peer_pubkeys = none;
  status = active;
  mode = regular;
  anon_identity = none;
  ratchet_capable = false;
  key_verified = true;
  my_queue_rotated_at = 0;
  my_queue_msg_count = 0;
  retired_queues = [];
}

-- The preview is a list of characters.
unfoldable pub touch_contact_message :
    Option (List DmContact) → Text → Text → ℤ → ℕ → List DmContact
touch_contact_message stored did preview ts inc_unread =
    let list = list_contacts stored in
    let touch = λ (c : DmContact). record c {
      last_ts = ts;
      last_preview = take 140 preview;
      unread = saturating_add c.unread inc_unread;
    } in
    sort_newest (elim (update_first (is_did did) touch list) [
      | none ↦ list ++ (v1_contact did preview ts inc_unread ∷ [])
      | some list' ↦ list'
    ])

-- The list that is written, `none` where nothing is.
unfoldable pub mark_read : Option (List DmContact) → Text → Option (List DmContact)
mark_read stored did =
    update_first (is_did did) (λ (c : DmContact). record c { unread = 0 }) (list_contacts stored)

-- The sum is a `u32`, which wraps.
unfoldable pub total_unread : Option (List DmContact) → ℕ
total_unread stored = sum_unread (list_contacts stored) % 2 ^ 32
  where
    sum_unread : List DmContact → ℕ
    sum_unread [] = 0
    sum_unread (c ∷ cs) = c.unread + sum_unread cs
