-- ===== src/Outbox/Tests.antt =====
-- A world of the outbox: its stored queue, a count of the ids drawn, and whether peers answer.
use hey_capsule.Prelude.{
  ℕ, suc, ◌+◌, ◌*◌, ◌^◌, ◌≡◌, ◌%◌, length, drop, ◌==◌, if◌then◌else◌, ◌||◌, refl, min, true, false,
  Bool, Option, none, some, List, [], ◌∷◌, ◌++◌, codes, text_eq, any, filter, ltb, arith,
}
use hey_capsule.Frag.{pieces, needs_fragment}
use hey_capsule.Frag.Codec.{codec}
use hey_capsule.Outbox.{
  OutboxItem, Gossip, backoff_for, backoff_cap_ms, attempts_max, says_local_only, make_room,
  read_items, publish_all, publish_wire, enqueue, confirm, retry, is_waiting, after_failure,
  flush_loop, flush,
}
use hey_capsule.Outbox.Retry.{backoff_for_lem}
use hey_capsule.Outbox.Queue.{IsQueue}
use hey_capsule.Outbox.Fates.{ids, flush_loop_unreachable}
use hey_capsule.Outbox.Stored.{Stores, flush-IsQueue, enqueue-IsQueue}

record World : Type 0 where
  items : Option (List OutboxItem)
  drawn : ℕ

abbrev gossip : Bool → Gossip World
gossip answers = record {
  now_ms = λ w. 100;
  new_v4 = λ w. (w.drawn ∷ [], record w { drawn = suc w.drawn });
  read_json = λ w. w.items;
  write_json = λ is w. record w { items = some is };
  remove = λ w. record w { items = none };
  publish = λ topic message sender_id ts w.
      ((if answers then some (record { broadcast = none; data_broadcast = none }) else none), w);
  join_topic_with = λ topic boot w. w;
  has_topic_peer = λ topic w. (answers, w);
}

stores : (answers : Bool) → Stores (gossip answers)
stores answers = record {
  read-write = λ is w. refl;
  read-new_v4 = λ w. refl;
  read-publish = λ topic message sender_id ts w. refl;
  read-join = λ topic boot w. refl;
  read-peer = λ topic w. refl;
}

program : Unit {0}
unfolding needs_fragment pieces backoff_for says_local_only make_room read_items publish_all
    publish_wire enqueue confirm retry after_failure flush_loop flush any filter text_eq
program = tt

abbrev item : ℕ → ℕ → OutboxItem
item retries due = record {
  id = codes "i";
  topic = codes "q/a";
  sender_id = codes "me";
  ts = 1;
  wire = codes "hello";
  retries = retries;
  next_attempt_ms = due;
  boot = codes "ticket" ∷ [];
}

abbrev three_items : List OutboxItem
three_items = item 0 50 ∷ item 11 60 ∷ item 3 900 ∷ []

abbrev stored : World
stored = record { items = some three_items; drawn = 0 }

two_left :
    ids (flush_loop (gossip false) codec 100 three_items stored).0 ≡ codes "i" ∷ codes "i" ∷ []
unfolding program
two_left = refl

backoff_for_lem_example : backoff_for 3 ≡ min (5000 * 2 ^ 3) backoff_cap_ms
backoff_for_lem_example = backoff_for_lem 3

flush_loop_unreachable_example :
    ids (flush_loop (gossip false) codec 100 three_items stored).0
    ≡ ids (
        filter
          (λ (i : OutboxItem).
            is_waiting (gossip false) codec 100 i || ltb ((i.retries + 1) % 2 ^ 32) attempts_max)
          three_items)
unfolding program
flush_loop_unreachable_example =
    flush_loop_unreachable (gossip false) codec 100 three_items stored
      ((λ w. refl), ((λ w. refl), ((λ w. refl), tt)))

abbrev idle : World
idle = record { items = some (item 3 900 ∷ []); drawn = 0 }

three_items-IsQueue : IsQueue three_items
three_items-IsQueue = (omega arith, (omega arith, (omega arith, (omega arith, tt))))

flush-IsQueue_example :
    IsQueue (read_items (gossip false) codec (flush (gossip false) codec stored))
unfolding read_items
flush-IsQueue_example = flush-IsQueue (gossip false) codec (stores false) stored three_items-IsQueue

enqueue-IsQueue_example :
    let after =
      read_items
        (gossip true)
        codec
        (enqueue (gossip true) codec (codes "q/b") [] (codes "me") (codes "yo") stored) in
    let before = read_items (gossip true) codec stored in
    (after
      ≡ (if length before == 1000 then drop 1 before else before)
        ++ (record {
          id = ((gossip true).new_v4 stored).0;
          topic = codes "q/b";
          sender_id = codes "me";
          ts = 100;
          wire = codes "yo";
          retries = 0;
          next_attempt_ms = 100;
          boot = [];
        }
            ∷ []))
    × IsQueue after
unfolding read_items
enqueue-IsQueue_example =
    enqueue-IsQueue (gossip true) codec (stores true) (codes "q/b") [] (codes "me") (codes "yo")
      stored three_items-IsQueue
