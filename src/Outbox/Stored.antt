-- ===== src/Outbox/Stored.antt =====
-- The stored queue over the operations of the outbox.
use hey_capsule.Prelude.{
  ℕ, ◌≡◌, ◌≤◌, refl, ap, ◌∙◌, length, drop, ◌==◌, true, some, List, [], ◌∷◌, ◌++◌, Text, any,
  if◌then◌else◌, Bool-cases, inl, inr, arith,
}
use hey_capsule.Frag.{Json, needs_fragment, pieces}
use hey_capsule.Outbox.{
  OutboxItem, Gossip, make_room, new_item, read_items, publish_all, publish_wire, enqueue, confirm,
  retry, flush_loop, flush,
}
use hey_capsule.Outbox.Queue.{IsQueue, make_room-IsQueue, flush_loop-IsQueue}

-- What storage documents, where it does not fail: a read gives what was written last, and the
-- operations of the peer provider do not write.
pub record Stores {W : Type 0} (g : Gossip W) : Type 0 where
  pub read-write :
      (items : List OutboxItem) (w : W) → g.read_json (g.write_json items w) ≡ some items
  pub read-new_v4 : (w : W) → g.read_json (g.new_v4 w).1 ≡ g.read_json w
  pub read-publish :
      (topic message sender_id : Text) (ts : ℕ) (w : W)
      → g.read_json (g.publish topic message sender_id ts w).1 ≡ g.read_json w
  pub read-join :
      (topic : Text) (boot : List Text) (w : W)
      → g.read_json (g.join_topic_with topic boot w) ≡ g.read_json w
  pub read-peer : (topic : Text) (w : W) → g.read_json (g.has_topic_peer topic w).1 ≡ g.read_json w

module _ {W : Type 0} (g : Gossip W) (json : Json) (s : Stores g) where
  read-publish_all :
      (topic sender_id : Text) (ts : ℕ) (fs : List Text) (w : W)
      → g.read_json (publish_all g json topic sender_id ts fs w).1 ≡ g.read_json w
  unfolding publish_all
  read-publish_all topic sender_id ts [] w = refl
  read-publish_all topic sender_id ts (f ∷ fs) w =
      let res = g.publish topic f sender_id ts w in
      ground
        (arith, s.read-publish topic f sender_id ts w, read-publish_all topic sender_id ts fs res.1)

  read-publish_wire :
      (topic sender_id wire : Text) (ts : ℕ) (w : W)
      → g.read_json (publish_wire g json topic sender_id wire ts w).1 ≡ g.read_json w
  unfolding publish_wire
  read-publish_wire topic sender_id wire ts w =
      let drawn = if needs_fragment wire then g.new_v4 w else ([], w) in
      let same : g.read_json drawn.1 ≡ g.read_json w = ground (arith, s.read-new_v4 w) in
      read-publish_all topic sender_id ts (pieces json drawn.0 wire) drawn.1 ∙ same

  make_room_lem :
      (items : List OutboxItem)
      → length items ≤ 1000
      → make_room items ≡ (if length items == 1000 then drop 1 items else items)
  unfolding make_room
  make_room_lem items few = ground arith

  read-retry : (item : OutboxItem) (w : W) → g.read_json (retry g json item w).1 ≡ g.read_json w
  unfolding retry confirm
  read-retry item w =
      let joined = g.join_topic_with item.topic item.boot w in
      let sent = publish_wire g json item.topic item.sender_id item.wire item.ts joined in
      ground (
        arith,
        s.read-join item.topic item.boot w,
        read-publish_wire item.topic item.sender_id item.wire item.ts joined,
        s.read-peer item.topic sent.1,
      )

  read-flush_loop :
      (now : ℕ) (items : List OutboxItem) (w : W)
      → g.read_json (flush_loop g json now items w).2 ≡ g.read_json w
  unfolding flush_loop
  read-flush_loop now [] w = refl
  read-flush_loop now (item ∷ items) w =
      let sent = retry g json item w in
      ground
        (arith, read-flush_loop now items w, read-flush_loop now items sent.1, read-retry item w)

  -- A flush of a stored queue, at most 1000 items with attempts left, leaves such a queue in storage.
  pub flush-IsQueue :
      (w : W) → IsQueue (read_items g json w) → IsQueue (read_items g json (flush g json w))
  unfolding flush read_items
  flush-IsQueue w q =
      let items = read_items g json w in
      let out = flush_loop g json (g.now_ms w) items w in
      elim (Bool-cases (any (λ _. true) items)) [
        | inr none' ↦ rw none' q
        | inl some' ↦ elim (Bool-cases out.1) [
          | inl changed ↦
              rw (some', changed, s.read-write out.0 out.2)
                (flush_loop-IsQueue g json (g.now_ms w) items w q)
          | inr same ↦ rw (some', same, read-flush_loop (g.now_ms w) items w) q
        ]
      ]

  -- Behind the items of a stored queue, less the oldest where there were 1000, an enqueue stores the
  -- wire with its topic, peers and sender, under the id that is drawn, with no retry made and due at
  -- once; and that is a queue again.
  pub enqueue-IsQueue :
      (topic : Text) (boot : List Text) (sender_id wire : Text) (w : W)
      → IsQueue (read_items g json w)
      → let after = read_items g json (enqueue g json topic boot sender_id wire w) in
        let before = read_items g json w in
        (after
          ≡ (if length before == 1000 then drop 1 before else before)
            ++ (record {
              id = (g.new_v4 w).0;
              topic = topic;
              sender_id = sender_id;
              ts = g.now_ms (g.new_v4 w).1;
              wire = wire;
              retries = 0;
              next_attempt_ms = g.now_ms (g.new_v4 w).1;
              boot = boot;
            }
                ∷ []))
        × IsQueue after
  unfolding enqueue read_items
  enqueue-IsQueue topic boot sender_id wire w q =
      let item = new_item g json topic boot sender_id wire (g.new_v4 w) in
      let written = s.read-write (make_room (read_items g json w) ++ (item ∷ [])) (g.new_v4 w).1 in
      (
        rw written (ap (λ before. before ++ (item ∷ [])) (make_room_lem (read_items g json w) q.0)),
        rw written (make_room-IsQueue (read_items g json w) item q (omega arith)),
      )
