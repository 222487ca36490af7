-- ===== src/Contacts/Tests.antt =====
-- Contacts at a concrete history of one peer.
use hey_capsule.Prelude.{
  ◌&&◌, ◌≡◌, ◌||◌, true, text_eq, refl, some, [], ◌∷◌, codes, any, filter, length, if◌then◌else◌,
  ◌==◌,
}
use hey_capsule.Prelude.Int.{pos}
use hey_capsule.Contacts.Record.{DmContact, owns_inbound_queue}
use hey_capsule.Contacts.Store.{
  list_contacts, touch_contact_message, update_first, insert_newest, sort_newest, v1_contact,
}
use hey_capsule.Contacts.Rotation.{
  rotate_contact_queue, prune_retired_queues, count_message, is_due, rotation_step, contact_topics,
  topic_of_queue,
}
use hey_capsule.Contacts.Owned.{
  is_live, listens, owns_inbound_queue-rotation_step, contact_topics-is_live,
}
use hey_capsule.Contacts.Listing.{IsSorted, records_of, touch_contact_message-IsSorted}

program : Unit {0}
unfolding owns_inbound_queue rotate_contact_queue prune_retired_queues count_message is_due
    rotation_step list_contacts touch_contact_message update_first insert_newest sort_newest
    v1_contact any filter text_eq
program = tt

abbrev ann : DmContact
ann = record (v1_contact (codes "ann") (codes "hi") (pos 7) 1) {
  my_inbound_queue = some (codes "q1");
  my_queue_rotated_at = 100;
  my_queue_msg_count = 199;
  retired_queues = record { queue = codes "q0"; pseudonym = []; retire_at = 5000000 } ∷ [];
}

rotated :
    (rotation_step (codes "q2") (codes "p2") ann 5000100).2.my_inbound_queue ≡ some (codes "q2")
unfolding program
rotated = refl

two_retired : length (rotation_step (codes "q2") (codes "p2") ann 5000100).2.retired_queues ≡ 2
unfolding program
two_retired = refl

q1_live : is_live 5000100 ann (codes "q1") ≡ true
unfolding program
q1_live = refl

owns_inbound_queue-rotation_step_example :
    let step = rotation_step (codes "q2") (codes "p2") ann 5000100 in
    owns_inbound_queue step.2 (codes "q1")
    ≡ (is_live 5000100 ann (codes "q1") || (step.1 && text_eq (codes "q2") (codes "q1")))
owns_inbound_queue-rotation_step_example =
    owns_inbound_queue-rotation_step (codes "q2") (codes "p2") ann 5000100 (codes "q1")

contact_topics-is_live_example :
    listens (contact_topics (λ s. s) (codes "me") 5000100 ann) (topic_of_queue (codes "q1")) ≡ true
contact_topics-is_live_example =
    contact_topics-is_live (λ s. s) (codes "me") 5000100 ann (codes "q1") q1_live

touch_contact_message-IsSorted_example :
    let before = records_of (codes "bob") (list_contacts (some (ann ∷ []))) in
    let list = touch_contact_message (some (ann ∷ [])) (codes "bob") (codes "yo") (pos 9) 1 in
    IsSorted list
    × (records_of (codes "bob") list
        ≡ (if text_eq (codes "bob") (codes "bob") && before == 0 then 1 else before))
touch_contact_message-IsSorted_example =
    touch_contact_message-IsSorted (some (ann ∷ [])) (codes "bob") (codes "bob") (codes "yo")
      (pos 9) 1
