-- ===== src/Contacts/Owned.antt =====
-- Which queues a contact owns after a rotation, and which it listens on
-- (capsules/hey-core/src/api/dms.rs).
use hey_capsule.Prelude.{
  ℕ, ◌+◌, ◌-◌, ◌<◌, ◌≡◌, refl, ap, ◌∙◌, Bool, true, false, not, ◌&&◌, ◌||◌, Option, none, some,
  List, [], ◌∷◌, ◌++◌, map, Text, codes, text_eq, text_key, filter, any, length, is_empty, ltb,
  if◌then◌else◌, arith,
}
use hey_capsule.Contacts.Record.{
  queue_rotate_floor_ms, queue_grace_ms, RetiredQueue, DmContact, owns_inbound_queue, is_text,
}
use hey_capsule.Contacts.Rotation.{
  rotate_contact_queue, topic_of_queue, in_grace, prune_retired_queues, count_message, is_due,
  rotation_step, boot_of, own_topic, contact_topics, or_anonymous,
}

any-append {ℓ} :
    {A : Type ℓ} (p : A → Bool) (xs ys : List A) → any p (xs ++ ys) ≡ (any p xs || any p ys)
unfolding any
any-append p [] ys = refl
any-append p (x ∷ xs) ys = ground (arith, any-append p xs ys)

any-filter {ℓ} :
    {A : Type ℓ} (p keep : A → Bool) (xs : List A)
    → any p (filter keep xs) ≡ any (λ x. p x && keep x) xs
unfolding any filter
any-filter p keep [] = refl
any-filter p keep (x ∷ xs) = ground (arith, any-filter p keep xs)

length-map-filter :
    (f : RetiredQueue → Text) (keep : RetiredQueue → Bool) (xs : List RetiredQueue)
    → length (map f (filter (λ r. not (keep r)) xs)) + length (filter keep xs) ≡ length xs
unfolding filter
length-map-filter f keep [] = refl
length-map-filter f keep (x ∷ xs) = ground (arith, length-map-filter f keep xs)

-- The current queue, or one that was retired less than the grace window ago.
abbrev pub is_live : ℕ → DmContact → Text → Bool
is_live now c queue_id =
    is_text c.my_inbound_queue queue_id
    || any
        (λ (r : RetiredQueue). text_eq r.queue queue_id && ltb now (r.retire_at + queue_grace_ms))
        c.retired_queues

any-in_grace :
    (now : ℕ) (queue_id : Text) (rs : List RetiredQueue)
    → any (λ (r : RetiredQueue). text_eq r.queue queue_id && in_grace now r) rs
      ≡ any
          (λ (r : RetiredQueue). text_eq r.queue queue_id && ltb now (r.retire_at + queue_grace_ms))
          rs
unfolding any
any-in_grace now queue_id [] = refl
any-in_grace now queue_id (r ∷ rs) = ground (arith, any-in_grace now queue_id rs)

-- Pruning leaves exactly the live queues, and gives as many topics as queues go.
pub owns_inbound_queue-prune_retired_queues :
    (c : DmContact) (now : ℕ) (queue_id : Text)
    → let pruned = prune_retired_queues c now in
      (owns_inbound_queue pruned.1 queue_id ≡ is_live now c queue_id)
      × (length pruned.0 + length pruned.1.retired_queues ≡ length c.retired_queues)
unfolding owns_inbound_queue prune_retired_queues
owns_inbound_queue-prune_retired_queues c now queue_id = (
  ap (λ b. is_text c.my_inbound_queue queue_id || b)
      (any-filter (λ (r : RetiredQueue). text_eq r.queue queue_id) (in_grace now) c.retired_queues
        ∙ any-in_grace now queue_id c.retired_queues),
  length-map-filter (λ r. topic_of_queue r.queue) (in_grace now) c.retired_queues,
)

any-retired :
    (inbound : Option Text) (pseudonym queue_id : Text) (now : ℕ) (rs : List RetiredQueue)
    → any
        (λ (r : RetiredQueue). text_eq r.queue queue_id)
        (elim inbound [
          | none ↦ rs
          | some old ↦ rs ++ (record { queue = old; pseudonym = pseudonym; retire_at = now } ∷ [])
        ])
      ≡ (is_text inbound queue_id || any (λ (r : RetiredQueue). text_eq r.queue queue_id) rs)
unfolding any
any-retired none pseudonym queue_id now rs = refl
any-retired (some old) pseudonym queue_id now rs = ground (
  arith,
  any-append (λ (r : RetiredQueue). text_eq r.queue queue_id) rs
      (record { queue = old; pseudonym = pseudonym; retire_at = now } ∷ []),
)

owns-rotate :
    (new_queue new_pseudonym : Text) (c : DmContact) (now : ℕ) (queue_id : Text)
    → owns_inbound_queue (rotate_contact_queue new_queue new_pseudonym c now) queue_id
      ≡ (text_eq new_queue queue_id || owns_inbound_queue c queue_id)
unfolding owns_inbound_queue rotate_contact_queue
owns-rotate new_queue new_pseudonym c now queue_id =
    ap (λ b. text_eq new_queue queue_id || b)
      (any-retired c.my_inbound_queue (or_anonymous c.my_recv_pseudonym) queue_id now
        c.retired_queues)

-- After a message a contact owns, the queue of the pair aside, exactly the queues that were live, its
-- current one and those that were retired less than an hour before, and with them the new queue where
-- it was rotated.
pub owns_inbound_queue-rotation_step :
    (new_queue new_pseudonym : Text) (c : DmContact) (now : ℕ) (queue_id : Text)
    → let step = rotation_step new_queue new_pseudonym c now in
      owns_inbound_queue step.2 queue_id
      ≡ (is_live now c queue_id || (step.1 && text_eq new_queue queue_id))
unfolding rotation_step count_message
owns_inbound_queue-rotation_step new_queue new_pseudonym c now queue_id =
    let pruned = prune_retired_queues (count_message c now) now in
    let kept : owns_inbound_queue pruned.1 queue_id ≡ is_live now c queue_id =
      (owns_inbound_queue-prune_retired_queues (count_message c now) now queue_id).0 in
    ground (arith, kept, owns-rotate new_queue new_pseudonym pruned.1 now queue_id)

-- A queue that has just been rotated is not due again within the floor, however many messages it
-- gets.
pub is_due-rotate_contact_queue :
    (new_queue new_pseudonym : Text) (c : DmContact) (now later count : ℕ)
    → later < now + queue_rotate_floor_ms
    → is_due
        (record (rotate_contact_queue new_queue new_pseudonym c now) { my_queue_msg_count = count })
        later
      ≡ false
unfolding is_due rotate_contact_queue
is_due-rotate_contact_queue new_queue new_pseudonym c now later count h = ground arith

abbrev pub listens : List (Text × Text × List Text) → Text → Bool
listens topics topic = any (λ (t : Text × Text × List Text). text_eq t.0 topic) topics

retired-listens :
    (now : ℕ) (queue_id : Text) (consumer : RetiredQueue → Text) (boot : List Text)
    (rs : List RetiredQueue)
    → any
        (λ (r : RetiredQueue). text_eq r.queue queue_id && ltb now (r.retire_at + queue_grace_ms))
        rs
      ≡ true
    → listens
        (map
          (λ (r : RetiredQueue). (topic_of_queue r.queue, consumer r, boot))
          (filter (λ (r : RetiredQueue). ltb (now - r.retire_at) queue_grace_ms) rs))
        (topic_of_queue queue_id)
      ≡ true
unfolding any filter text_eq
retired-listens now queue_id consumer boot [] h = h
retired-listens now queue_id consumer boot (r ∷ rs) h =
    ground (arith, retired-listens now queue_id consumer boot rs)

own-listens :
    (inbound : Option Text) (queue_id consumer : Text) (boot : List Text)
    → is_text inbound queue_id ≡ true
    → listens (own_topic inbound consumer boot) (topic_of_queue queue_id) ≡ true
unfolding any text_eq
own-listens none queue_id consumer boot h = h
own-listens (some q) queue_id consumer boot h = ground arith

-- Every live queue of a contact is listened on.
pub contact_topics-is_live :
    (sha256 : List ℕ → List ℕ) (my_did : Text) (now : ℕ) (c : DmContact) (queue_id : Text)
    → is_live now c queue_id ≡ true
    → listens (contact_topics sha256 my_did now c) (topic_of_queue queue_id) ≡ true
unfolding contact_topics
contact_topics-is_live sha256 my_did now c queue_id live =
    let boot = boot_of c.peer_ticket in
    let consumer = or_anonymous c.my_recv_pseudonym in
    let own = own_topic c.my_inbound_queue consumer boot in
    let name =
      λ (r : RetiredQueue). if is_empty r.pseudonym then codes "anonymous" else r.pseudonym in
    let old =
      map (λ (r : RetiredQueue). (topic_of_queue r.queue, name r, boot))
        (filter (λ (r : RetiredQueue). ltb (now - r.retire_at) queue_grace_ms) c.retired_queues) in
    let test = λ (t : Text × Text × List Text). text_eq t.0 (topic_of_queue queue_id) in
    any-append test _ (own ++ old)
    ∙ ground (
      arith,
      any-append test own old,
      retired-listens now queue_id name boot c.retired_queues,
      own-listens c.my_inbound_queue queue_id consumer boot,
    )
