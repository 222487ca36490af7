-- ===== src/Contacts/Pinned.antt =====
-- Which changes a bootstrap may make to a contact whose keys are pinned
-- (capsules/hey-core/src/api/dms.rs).
use hey_capsule.Prelude.{
  ℕ, ◌≡◌, refl, ap, ◌∙◌, sym, Bool, false, not, ◌&&◌, ◌||◌, Option, none, some, List, Text, text_eq,
  text_eq_iff, find, is_empty, modify_first, find-modify_first_other, find-append, find-some,
  Bool-cases, Option-cases, inl, inr, arith,
}
use hey_capsule.Contacts.Record.{DmContact, PeerKeys, pair_inbound_queue}
use hey_capsule.Contacts.Store.{is_did, list_contacts, find_contact}
use hey_capsule.Contacts.Bootstrap.{Minted, adopt, bootstrap_known, bootstrap_contact_from_keys}

bootstrap_known-did :
    (minted : Minted) (det : Text) (keys : PeerKeys) (ticket : Option Text) (verified : Bool)
    (c c' : DmContact)
    → bootstrap_known minted det keys ticket verified c ≡ some c'
    → c'.did ≡ c.did
unfolding bootstrap_known adopt
bootstrap_known-did minted det keys ticket verified c c' e = ground (arith, e)

-- Keys that are pinned stay, unless they were not verified and the new ones are.
bootstrap_known-pinned :
    (minted : Minted) (det : Text) (keys k : PeerKeys) (ticket : Option Text) (verified : Bool)
    (c : DmContact)
    → c.peer_pubkeys ≡ some k
    → (verified && not c.key_verified) ≡ false
    → bootstrap_known minted det keys ticket verified c ≡ none
unfolding bootstrap_known
bootstrap_known-pinned minted det keys k ticket verified c pinned kept =
    rw (pinned, bootstrap_known, kept) refl

module _ (minted : Minted) (det : Text) (keys : PeerKeys) (ticket : Option Text)
    (verified : Bool) where
  changed_other :
      (did d : Text) (c' : DmContact) (list : List DmContact)
      → c'.did ≡ did
      → text_eq did d ≡ false
      → find (is_did d) (modify_first (is_did did) (λ _. c') list) ≡ find (is_did d) list
  changed_other did d c' list is ne =
      find-modify_first_other (is_did did) (is_did d) (λ _. c') list
        (λ c e. ap (λ i. text_eq i d) ((text_eq_iff c.did did).0 e) ∙ ne)
        (λ c e. ap (λ i. text_eq i d) is ∙ ne)

  known_kept :
      (did d : Text) (c0 c1 c : DmContact) (k : PeerKeys) (list : List DmContact)
      → find (is_did did) list ≡ some c0
      → bootstrap_known minted det keys ticket verified c0 ≡ some c1
      → find (is_did d) list ≡ some c
      → c.peer_pubkeys ≡ some k
      → (verified && not c.key_verified) ≡ false
      → find (is_did d) (modify_first (is_did did) (λ _. c1) list) ≡ some c
  known_kept did d c0 c1 c k list at_did changed at_d pinned kept =
      elim (Bool-cases (text_eq did d)) [
        | inl same ↦
            let one : find (is_did d) list ≡ some c0 =
              ap (λ i. find (is_did i) list) (sym ((text_eq_iff did d).0 same)) ∙ at_did in
            let same_contact : some c ≡ some c0 = sym at_d ∙ one in
            let unchanged =
              bootstrap_known-pinned minted det keys k ticket verified c pinned kept in
            ground (arith, same_contact, unchanged, changed)
        | inr other ↦
            let is : c0.did ≡ did =
              (text_eq_iff c0.did did).0 (find-some (is_did did) list c0 at_did) in
            changed_other did d c1 list
              (bootstrap_known-did minted det keys ticket verified c0 c1 changed ∙ is) other
            ∙ at_d
      ]

-- A contact with pinned keys is left as it is by a bootstrap from other keys, its own or a
-- stranger's, unless the bootstrap is a self-assertion and the pin was not verified.
pub bootstrap_contact_from_keys-pinned :
    (sha256 : List ℕ → List ℕ) (minted : Minted) (my_did : Text) (stored : Option (List DmContact))
    (did name : Text) (keys : PeerKeys) (ticket : Option Text) (verified : Bool) (d : Text)
    (c : DmContact) (k : PeerKeys)
    → find_contact stored d ≡ some c
    → c.peer_pubkeys ≡ some k
    → (verified && not c.key_verified) ≡ false
    → find_contact
        (bootstrap_contact_from_keys sha256 minted my_did stored did name keys ticket verified).1
        d
      ≡ some c
unfolding bootstrap_contact_from_keys find_contact list_contacts
bootstrap_contact_from_keys-pinned sha256 minted my_did stored did name keys ticket verified d c k
      held pinned kept =
    let list = list_contacts stored in
    let det = pair_inbound_queue sha256 did my_did in
    elim (Bool-cases (is_empty did || text_eq did my_did)) [
      | inl refused ↦ rw (bootstrap_contact_from_keys, refused) held
      | inr taken ↦ elim (Option-cases (find (is_did did) list)) [
        | inl new ↦
            rw (bootstrap_contact_from_keys, taken, new)
              (find-append (is_did d) list _ ∙ rw held refl)
        | inr (c0, at_did) ↦
            elim (Option-cases (bootstrap_known minted det keys ticket verified c0)) [
              | inl same ↦ rw (bootstrap_contact_from_keys, taken, at_did, same) held
              | inr (c1, changed) ↦
                  rw (bootstrap_contact_from_keys, taken, at_did, changed)
                    (known_kept minted det keys ticket verified did d c0 c1 c k list at_did changed
                      held pinned kept)
            ]
      ]
    ]
