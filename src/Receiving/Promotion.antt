-- ===== src/Receiving/Promotion.antt =====
-- A pending contact becomes active, all or nothing (capsules/hey-core/src/api/dms.rs).
use hey_capsule.Prelude.{
  ◌≡◌, refl, ap, ◌∙◌, sym, subst, Bool, true, false, ◌&&◌, ◌||◌, ◌⊎◌, inl, inr, Option, none, some,
  List, [], ◌∷◌, ◌++◌, Text, codes, text_eq, text_key, insert, lookup-insert, lookup-remove,
  beq_refl, find, any, remove_first, Result-cases, arith, Result, ok, err,
}
use hey_capsule.Crypto.Kdf.{Primitives}
use hey_capsule.Crypto.Attachment.{Aead}
use hey_capsule.Ratchet.State.{RatchetState}
use hey_capsule.Contacts.Record.{DmContact}
use hey_capsule.Contacts.Store.{is_did, list_contacts, insert_newest, sort_newest}
use hey_capsule.Conversation.{Storage}
use hey_capsule.Events.Values.{Json, get}
use hey_capsule.Receiving.{
  WireError, InnerPayload, Device, Host, Draws, read_ratchet, write_ratchet, remove_ratchet,
  ratchet_path,
}
use hey_capsule.Receiving.Handshake.{
  Offer, is_invited, offer_of, promoted, bootstrap_responder_ratchet, with_promoted,
  finish_bootstrap, promote, accept_offer, on_offer, receive_handshake,
}

any-insert_newest :
    (q : DmContact → Bool) (c : DmContact) (cs : List DmContact)
    → any q (insert_newest c cs) ≡ (q c || any q cs)
unfolding any insert_newest
any-insert_newest q c [] = refl
any-insert_newest q c (d ∷ ds) = ground (arith, any-insert_newest q c ds)

any-sort_newest : (q : DmContact → Bool) (cs : List DmContact) → any q (sort_newest cs) ≡ any q cs
unfolding any sort_newest
any-sort_newest q [] = refl
any-sort_newest q (c ∷ cs) =
    any-insert_newest q c (sort_newest cs) ∙ ap (λ b. q c || b) (any-sort_newest q cs)

any-last :
    (q : DmContact → Bool) (c : DmContact) (cs : List DmContact)
    → any q cs ≡ false
    → q c ≡ false
    → any q (cs ++ (c ∷ [])) ≡ false
unfolding any
any-last q c [] h k = ground (arith, k)
any-last q c (d ∷ ds) h k = ground (arith, h, k, any-last q c ds)

pub find-none : (q : DmContact → Bool) (cs : List DmContact) → any q cs ≡ false → find q cs ≡ none
unfolding any find
find-none q [] h = refl
find-none q (c ∷ cs) h = ground (arith, h, find-none q cs)

any-last-true :
    (q : DmContact → Bool) (c : DmContact) (cs : List DmContact)
    → q c ≡ true
    → any q (cs ++ (c ∷ [])) ≡ true
unfolding any
any-last-true q c [] k = ground (arith, k)
any-last-true q c (d ∷ ds) k = ground (arith, any-last-true q c ds k)

any-remove_first-find :
    (q : DmContact → Bool) (cs : List DmContact) (last : DmContact)
    → any q (remove_first q cs) ≡ false
    → q last ≡ false
    → find q (sort_newest (remove_first q cs ++ (last ∷ []))) ≡ none
any-remove_first-find q cs last only h =
    find-none q _ (any-sort_newest q _ ∙ any-last q last (remove_first q cs) only h)

-- No pending contact of the queue is left.
abbrev pub Used : Text → Device → Type 0
Used queue d = find (is_invited queue) (list_contacts d.storage.contacts) ≡ none

module _ (p : Primitives) (cipher : Aead) (host : Host) (draws : Draws) where
  with_promoted-Used :
      (d e : Device) (queue : Text) (c : DmContact)
      → any (is_invited queue) (remove_first (is_invited queue) (list_contacts d.storage.contacts))
        ≡ false
      → e.storage ≡ d.storage
      → is_invited queue c ≡ false
      → Used queue (with_promoted p cipher host draws queue c e)
  unfolding with_promoted list_contacts
  with_promoted-Used d e queue c only same taken =
      subst
        (λ (s : Storage).
          find (is_invited queue)
            (sort_newest (remove_first (is_invited queue) (list_contacts s.contacts) ++ (c ∷ [])))
          ≡ none)
        (sym same)
        (any-remove_first-find (is_invited queue) (list_contacts d.storage.contacts) c only taken)

  finish_bootstrap-Used :
      (d : Device) (queue placeholder_did : Text) (c : DmContact)
      (r : Result WireError RatchetState)
      → any (is_invited queue) (remove_first (is_invited queue) (list_contacts d.storage.contacts))
        ≡ false
      → is_invited queue c ≡ false
      → (finish_bootstrap p cipher host draws d queue placeholder_did c r).0 ≡ ok tt
      → Used queue (finish_bootstrap p cipher host draws d queue placeholder_did c r).1
  unfolding finish_bootstrap remove_ratchet write_ratchet
  finish_bootstrap-Used d queue placeholder_did c (err e) only taken accepted = cc
  finish_bootstrap-Used d queue placeholder_did c (ok st) only taken accepted =
      with_promoted-Used d (write_ratchet c.did st d) queue (record c { ratchet_capable = true })
        only refl taken

  promote-Used :
      (d : Device) (queue : Text) (pending c : DmContact) (block : Option Json)
      → any (is_invited queue) (remove_first (is_invited queue) (list_contacts d.storage.contacts))
        ≡ false
      → is_invited queue c ≡ false
      → (promote p cipher host draws d queue pending c block).0 ≡ ok tt
      → Used queue (promote p cipher host draws d queue pending c block).1
  unfolding promote remove_ratchet
  promote-Used d queue pending c none only taken accepted =
      with_promoted-Used d (remove_ratchet pending.did d) queue
        (record c { ratchet_capable = false }) only refl taken
  promote-Used d queue pending c (some rb) only taken accepted =
      finish_bootstrap-Used d queue pending.did c _ only taken accepted

  promoted-taken :
      (inner : InnerPayload) (offer : Offer) (queue : Text) (c : DmContact)
      → is_invited queue (promoted p cipher host draws inner offer c) ≡ false
  unfolding promoted
  promoted-taken inner offer queue c = ground arith

  accept_offer-Used :
      (d : Device) (inner : InnerPayload) (queue : Text) (offer : Offer) (o : Option DmContact)
      → find (is_invited queue) (list_contacts d.storage.contacts) ≡ o
      → any (is_invited queue) (remove_first (is_invited queue) (list_contacts d.storage.contacts))
        ≡ false
      → (accept_offer p cipher host draws d inner queue offer o).0 ≡ ok tt
      → Used queue (accept_offer p cipher host draws d inner queue offer o).1
  unfolding accept_offer
  accept_offer-Used d inner queue offer none found only accepted = found
  accept_offer-Used d inner queue offer (some pending) found only accepted =
      promote-Used d queue pending _ _ only (promoted-taken inner offer queue pending) accepted

  on_offer-Used :
      (d : Device) (inner : InnerPayload) (queue : Text) (o : Result WireError Offer)
      → any (is_invited queue) (remove_first (is_invited queue) (list_contacts d.storage.contacts))
        ≡ false
      → (on_offer p cipher host draws d inner queue o).0 ≡ ok tt
      → Used queue (on_offer p cipher host draws d inner queue o).1
  unfolding on_offer
  on_offer-Used d inner queue (err e) only accepted = cc
  on_offer-Used d inner queue (ok offer) only accepted =
      accept_offer-Used d inner queue offer _ refl only accepted

  on_offer-same :
      (d : Device) (inner : InnerPayload) (queue : Text) (o : Result WireError Offer)
      → Used queue d
      → (on_offer p cipher host draws d inner queue o).1 ≡ d
  unfolding on_offer accept_offer
  on_offer-same d inner queue (err e) used = refl
  on_offer-same d inner queue (ok offer) used =
      ap (λ o. (accept_offer p cipher host draws d inner queue offer o).1) used

  pub receive_handshake-Used-same :
      (d : Device) (inner : InnerPayload) (queue : Text)
      → Used queue d
      → (receive_handshake p cipher host draws d inner queue).1 ≡ d
  unfolding receive_handshake
  receive_handshake-Used-same d inner queue used = on_offer-same d inner queue _ used

  -- An invite is used once: after a handshake that is taken on a queue with at most one pending
  -- contact, no further handshake on that queue changes anything of what is stored.
  pub receive_handshake_again :
      (d : Device) (inner again : InnerPayload) (queue : Text)
      → any (is_invited queue) (remove_first (is_invited queue) (list_contacts d.storage.contacts))
        ≡ false
      → (receive_handshake p cipher host draws d inner queue).0 ≡ ok tt
      → let d' = (receive_handshake p cipher host draws d inner queue).1 in
        (receive_handshake p cipher host draws d' again queue).1 ≡ d'
  unfolding receive_handshake
  receive_handshake_again d inner again queue only accepted =
      on_offer-same _ again queue _ (on_offer-Used d inner queue _ only accepted)

  abbrev is_capable : Text → DmContact → Bool
  is_capable did c = is_did did c && c.ratchet_capable

  -- A contact with the sender's did is marked as having a ratchet, and the one that was set up from
  -- the prekey is stored.
  pub record IsBootstrapped (d : Device) (inner : InnerPayload) (queue : Text) (rb : Json)
      (d' : Device) : Type 0 where
    pub offer : Offer
    pub pending : DmContact
    pub state : RatchetState
    pub offered : offer_of p cipher host draws inner.body ≡ ok offer
    pub was_invited : find (is_invited queue) (list_contacts d.storage.contacts) ≡ some pending
    pub started :
        bootstrap_responder_ratchet p cipher host draws d
          (promoted p cipher host draws inner offer pending)
          pending.did
          rb
        ≡ ok state
    pub capable : any (is_capable inner.sender_did) (list_contacts d'.storage.contacts) ≡ true
    pub kept : read_ratchet d' inner.sender_did ≡ some state

  read-finish :
      (d : Device) (queue placeholder_did did : Text) (c : DmContact) (st : RatchetState)
      → text_eq (ratchet_path placeholder_did) (ratchet_path did) ≡ false
      → read_ratchet
          (remove_ratchet placeholder_did
            (with_promoted p cipher host draws queue c (write_ratchet did st d)))
          did
        ≡ some st
  unfolding read_ratchet remove_ratchet with_promoted write_ratchet
  read-finish d queue placeholder_did did c st ne =
      lookup-remove (ratchet_path placeholder_did) (ratchet_path did)
        (insert (ratchet_path did) st d.ratchets)
      ∙ rw ne (
          lookup-insert (ratchet_path did) (ratchet_path did) st d.ratchets
          ∙ rw (beq_refl text_key (ratchet_path did)) refl)

  with_promoted-capable :
      (d : Device) (queue did : Text) (c : DmContact)
      → is_capable did c ≡ true
      → any
          (is_capable did)
          (list_contacts (with_promoted p cipher host draws queue c d).storage.contacts)
        ≡ true
  unfolding with_promoted list_contacts
  with_promoted-capable d queue did c h =
      any-sort_newest (is_capable did) _ ∙ any-last-true (is_capable did) c _ h

  promoted-capable :
      (inner : InnerPayload) (offer : Offer) (pending : DmContact)
      → is_capable inner.sender_did
          (record (promoted p cipher host draws inner offer pending) { ratchet_capable = true })
        ≡ true
  unfolding promoted
  promoted-capable inner offer pending = rw (beq_refl text_key inner.sender_did) refl

  finish_bootstrap-IsBootstrapped :
      (d : Device) (inner : InnerPayload) (queue : Text) (rb : Json) (offer : Offer)
      (pending : DmContact) (r : Result WireError RatchetState)
      → offer_of p cipher host draws inner.body ≡ ok offer
      → find (is_invited queue) (list_contacts d.storage.contacts) ≡ some pending
      → bootstrap_responder_ratchet p cipher host draws d
          (promoted p cipher host draws inner offer pending)
          pending.did
          rb
        ≡ r
      → text_eq (ratchet_path pending.did) (ratchet_path inner.sender_did) ≡ false
      → let d' =
          (finish_bootstrap p cipher host draws d queue pending.did
            (promoted p cipher host draws inner offer pending)
            r).1 in
        (d' ≡ d) ⊎ IsBootstrapped d inner queue rb d'
  unfolding finish_bootstrap remove_ratchet write_ratchet promoted
  finish_bootstrap-IsBootstrapped d inner queue rb offer pending (err e) offered invited h ne =
      inl refl
  finish_bootstrap-IsBootstrapped d inner queue rb offer pending (ok st) offered invited h ne =
      inr (record {
        offer = offer;
        pending = pending;
        state = st;
        offered = offered;
        was_invited = invited;
        started = h;
        capable =
            with_promoted-capable (write_ratchet inner.sender_did st d) queue inner.sender_did _
              (promoted-capable inner offer pending);
        kept = read-finish d queue pending.did inner.sender_did _ st ne;
      })

  accept_offer-IsBootstrapped :
      (d : Device) (inner : InnerPayload) (queue : Text) (rb : Json) (offer : Offer)
      (o : Option DmContact)
      → offer_of p cipher host draws inner.body ≡ ok offer
      → find (is_invited queue) (list_contacts d.storage.contacts) ≡ o
      → get (codes "ratchet") inner.body ≡ some rb
      → ((c : DmContact)
          → o ≡ some c
          → text_eq (ratchet_path c.did) (ratchet_path inner.sender_did) ≡ false)
      → let d' = (accept_offer p cipher host draws d inner queue offer o).1 in
        (d' ≡ d) ⊎ IsBootstrapped d inner queue rb d'
  unfolding accept_offer promote
  accept_offer-IsBootstrapped d inner queue rb offer none offered invited block ne = inl refl
  accept_offer-IsBootstrapped d inner queue rb offer (some pending) offered invited block ne =
      rw block (
        finish_bootstrap-IsBootstrapped d inner queue rb offer pending _ offered invited refl
          (ne pending refl))

  -- Where a handshake offers a ratchet, it changes nothing of what is stored, or all of this holds:
  -- it is an offer, a pending contact has its queue, the ratchet is set up from that contact's
  -- prekey and stored under the sender's did, and a contact of that did is marked as having it. The
  -- pending contact's ratchet is not in the sender's file.
  pub receive_handshake-IsBootstrapped :
      (d : Device) (inner : InnerPayload) (queue : Text) (rb : Json)
      → get (codes "ratchet") inner.body ≡ some rb
      → ((c : DmContact)
          → find (is_invited queue) (list_contacts d.storage.contacts) ≡ some c
          → text_eq (ratchet_path c.did) (ratchet_path inner.sender_did) ≡ false)
      → let d' = (receive_handshake p cipher host draws d inner queue).1 in
        (d' ≡ d) ⊎ IsBootstrapped d inner queue rb d'
  unfolding receive_handshake on_offer
  receive_handshake-IsBootstrapped d inner queue rb block ne =
      elim (Result-cases (offer_of p cipher host draws inner.body)) [
        | inr (e, refused) ↦ rw refused (inl refl)
        | inl (offer, read) ↦
            rw read (accept_offer-IsBootstrapped d inner queue rb offer _ read refl block ne)
      ]
