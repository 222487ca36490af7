-- ===== src/Contacts/Rotation.antt =====
-- The rotation of inbound queues and the topics that are listened on
-- (capsules/hey-core/src/api/dms.rs). What follows a write, the announcement of the new queue and
-- the forgetting of topics, is not modelled.
use hey_capsule.Prelude.{
  ℕ, ◌+◌, ◌-◌, ◌^◌, min, Bool, true, false, not, ◌&&◌, ◌||◌, Option, none, some, List, [], ◌∷◌,
  ◌++◌, map, Text, codes, filter, find, is_empty, leb, ltb, ◌==◌, if◌then◌else◌,
}
use hey_capsule.Contacts.Record.{
  queue_rotate_msgs, queue_rotate_ms, queue_rotate_floor_ms, queue_grace_ms, topic_prefix,
  RetiredQueue, DmContact, is_active, is_regular, is_legacy, pair_inbound_queue,
}
use hey_capsule.Contacts.Store.{is_did, list_contacts, update_first}

abbrev pub or_anonymous : Option Text → Text
or_anonymous none = codes "anonymous"
or_anonymous (some s) = s

abbrev pub retired_by : DmContact → ℕ → List RetiredQueue
retired_by c now = elim c.my_inbound_queue [
  | none ↦ c.retired_queues
  | some old ↦
      c.retired_queues
      ++ (record { queue = old; pseudonym = or_anonymous c.my_recv_pseudonym; retire_at = now }
          ∷ [])
]

-- The new queue and pseudonym are the random ones that are drawn.
unfoldable pub rotate_contact_queue : Text → Text → DmContact → ℕ → DmContact
rotate_contact_queue new_queue new_pseudonym c now = record c {
  retired_queues = retired_by c now;
  my_inbound_queue = some new_queue;
  my_recv_pseudonym = some new_pseudonym;
  my_queue_rotated_at = now;
  my_queue_msg_count = 0;
}

abbrev pub topic_of_queue : Text → Text
topic_of_queue queue = topic_prefix ++ (b'/' ∷ queue)

abbrev pub in_grace : ℕ → RetiredQueue → Bool
in_grace now r = not (leb queue_grace_ms (now - r.retire_at))

-- The topics of what expired, and the contact without it.
unfoldable pub prune_retired_queues : DmContact → ℕ → List Text × DmContact
prune_retired_queues c now = (
  map (λ (r : RetiredQueue). topic_of_queue r.queue)
      (filter (λ r. not (in_grace now r)) c.retired_queues),
  record c { retired_queues = filter (in_grace now) c.retired_queues },
)

-- A message has come on the current queue: it is counted, and the clock starts at the first.
unfoldable pub count_message : DmContact → ℕ → DmContact
count_message c now = record c {
  my_queue_msg_count = min (c.my_queue_msg_count + 1) (2 ^ 32 - 1);
  my_queue_rotated_at = if c.my_queue_rotated_at == 0 then now else c.my_queue_rotated_at;
}

unfoldable pub is_due : DmContact → ℕ → Bool
is_due c now =
    let since = now - c.my_queue_rotated_at in
    leb queue_rotate_floor_ms since
    && (leb queue_rotate_msgs c.my_queue_msg_count || leb queue_rotate_ms since)

-- What `maybe_rotate_inbound_queue` does to the contact: the topics to forget, whether the queue
-- was rotated, and the contact that is written.
unfoldable pub rotation_step : Text → Text → DmContact → ℕ → List Text × Bool × DmContact
rotation_step new_queue new_pseudonym c now =
    let pruned = prune_retired_queues (count_message c now) now in
    if is_due pruned.1 now
    then (pruned.0, true, rotate_contact_queue new_queue new_pseudonym pruned.1 now)
    else (pruned.0, false, pruned.1)

-- The list that is written after a message on the current queue, the topics to forget and whether
-- a new queue is to be announced; `none` where the code returns early.
unfoldable pub maybe_rotate_inbound_queue :
    Text → Text → Option (List DmContact) → Text → ℕ → Option (List DmContact)
maybe_rotate_inbound_queue new_queue new_pseudonym stored peer_did now =
    let list = list_contacts stored in
    let is_peer = λ (c : DmContact). is_did peer_did c && is_active c.status in
    elim (find is_peer list) [
      | none ↦ none
      | some c ↦
          if is_legacy c
          then none
          else update_first is_peer (λ c. (rotation_step new_queue new_pseudonym c now).2) list
    ]

abbrev pub boot_of : Option Text → List Text
boot_of none = []
boot_of (some t) = t ∷ []

abbrev pub own_topic : Option Text → Text → List Text → List (Text × Text × List Text)
own_topic none consumer boot = []
own_topic (some q) consumer boot = (topic_of_queue q, consumer, boot) ∷ []

-- The topics of one contact: the queue of the pair, its own queue and those in grace.
unfoldable pub contact_topics :
    (List ℕ → List ℕ) → Text → ℕ → DmContact → List (Text × Text × List Text)
contact_topics sha256 my_did now c =
    let boot = boot_of c.peer_ticket in
    let consumer = or_anonymous c.my_recv_pseudonym in
    (if is_regular c.mode && not (is_empty my_did)
      then (topic_of_queue (pair_inbound_queue sha256 my_did c.did), consumer, boot) ∷ []
      else [])
    ++ ((own_topic c.my_inbound_queue consumer boot)
        ++ map
            (λ (r : RetiredQueue). (
              topic_of_queue r.queue,
              (if is_empty r.pseudonym then codes "anonymous" else r.pseudonym),
              boot,
            ))
            (filter (λ (r : RetiredQueue). ltb (now - r.retire_at) queue_grace_ms)
              c.retired_queues))

unfoldable pub my_v2_topics :
    (List ℕ → List ℕ) → Text → ℕ → Option (List DmContact) → List (Text × Text × List Text)
my_v2_topics sha256 my_did now stored = topics_of (list_contacts stored)
  where
    topics_of : List DmContact → List (Text × Text × List Text)
    topics_of [] = []
    topics_of (c ∷ cs) = contact_topics sha256 my_did now c ++ topics_of cs
