-- ===== src/Outbox.antt =====
-- The outbox of unconfirmed publishes (capsules/hey-core/src/api/outbox.rs). Storage, the clock and
-- the peer provider are the operations of `Gossip` on a state of the world; times are milliseconds
-- since the epoch. The warnings and traces that the code prints are left out. A wire
-- is JSON around base64, as capsules/hey-core/src/api/frag.rs says, so that cutting it does not panic:
-- it is cut into its `pieces`.
pub mod Queue
pub mod Retry
pub mod Fates
pub mod Stored
mod Tests
use hey_capsule.Prelude.{
  ℕ, ◌+◌, ◌*◌, ◌%◌, ◌^◌, ◌-◌, min, Bool, true, false, not, ◌&&◌, ◌||◌, Option, none, some, List, [],
  ◌∷◌, ◌++◌, Text, codes, text_eq, filter, any, length, drop, is_empty, leb, ltb, if◌then◌else◌,
}
use hey_capsule.Frag.{Json, needs_fragment, pieces}

abbrev pub max_items : ℕ
max_items = 1000

abbrev pub attempts_max : ℕ
attempts_max = 12

abbrev pub backoff_initial_ms : ℕ
backoff_initial_ms = 5000

abbrev pub backoff_cap_ms : ℕ
backoff_cap_ms = 60 * 60 * 1000

abbrev pub i64_max : ℕ
i64_max = 2 ^ 63 - 1

pub record OutboxItem : Type 0 where
  pub id : Text
  pub topic : Text
  pub sender_id : Text
  pub ts : ℕ
  pub wire : Text
  pub retries : ℕ
  pub next_attempt_ms : ℕ
  pub boot : List Text

-- The fields `broadcast` and `data.broadcast` of a response; a field that is no text is `some none`.
pub record Reply : Type 0 where
  pub broadcast : Option (Option Text)
  pub data_broadcast : Option (Option Text)

abbrev pub is_local : Option Text → Bool
is_local none = false
is_local (some s) = text_eq s (codes "local_only")

unfoldable pub says_local_only : Reply → Bool
says_local_only v = elim v.broadcast [
  | some b ↦ is_local b
  | none ↦ elim v.data_broadcast [ some b ↦ is_local b | none ↦ false ]
]

-- What the outbox uses of the runtime. `read_json` gives `none` where there is no list, where it
-- does not parse and where the read fails; a failed publish gives `none`.
pub record Gossip (W : Type 0) : Type 0 where
  pub now_ms : W → ℕ
  pub new_v4 : W → Text × W
  pub read_json : W → Option (List OutboxItem)
  pub write_json : List OutboxItem → W → W
  pub remove : W → W
  pub publish : Text → Text → Text → ℕ → W → Option Reply × W
  pub join_topic_with : Text → List Text → W → W
  pub has_topic_peer : Text → W → Bool × W

unfoldable pub backoff_for : ℕ → ℕ
backoff_for retries =
    let raw = min (backoff_initial_ms * min (2 ^ retries) i64_max) i64_max in min raw backoff_cap_ms

abbrev pub or_empty : Option (List OutboxItem) → List OutboxItem
or_empty none = []
or_empty (some items) = items

abbrev pub has_reached : Option Reply → Bool
has_reached none = false
has_reached (some v) = not (says_local_only v)

-- The queue without its oldest item, where it is full.
unfoldable pub make_room : List OutboxItem → List OutboxItem
make_room items = if leb max_items (length items) then drop 1 items else items

abbrev pub expects_remote : List Text → Bool
expects_remote boot = any (λ t. not (is_empty t)) boot

module _ {W : Type 0} (g : Gossip W) (json : Json) where
  unfoldable pub read_items : W → List OutboxItem
  read_items w = or_empty (g.read_json w)

  unfoldable pub publish_all : Text → Text → ℕ → List Text → W → Bool × W
  publish_all topic sender_id ts [] w = (true, w)
  publish_all topic sender_id ts (f ∷ fs) w =
      let res = g.publish topic f sender_id ts w in
      if has_reached res.0 then publish_all topic sender_id ts fs res.1 else (false, res.1)

  -- The message id is drawn where the wire is cut.
  unfoldable pub publish_wire : Text → Text → Text → ℕ → W → Bool × W
  publish_wire topic sender_id wire ts w =
      let drawn = if needs_fragment wire then g.new_v4 w else ([], w) in
      publish_all topic sender_id ts (pieces json drawn.0 wire) drawn.1

  abbrev pub new_item : Text → List Text → Text → Text → Text × W → OutboxItem
  new_item topic boot sender_id wire drawn = record {
    id = drawn.0;
    topic = topic;
    sender_id = sender_id;
    ts = g.now_ms drawn.1;
    wire = wire;
    retries = 0;
    next_attempt_ms = g.now_ms drawn.1;
    boot = boot;
  }

  unfoldable pub enqueue : Text → List Text → Text → Text → W → W
  enqueue topic boot sender_id wire w =
      let items = make_room (read_items w) in
      let drawn = g.new_v4 w in
      g.write_json (items ++ (new_item topic boot sender_id wire drawn ∷ [])) drawn.1

  -- Whether a send is confirmed: where a remote peer is expected, the topic has a neighbor.
  unfoldable pub confirm : Text → List Text → Bool × W → Bool × W
  confirm topic boot sent =
      if sent.0 then (if expects_remote boot then g.has_topic_peer topic sent.1 else sent) else sent

  unfoldable pub publish_or_enqueue : Text → List Text → Text → Text → W → Bool × W
  publish_or_enqueue topic boot sender_id wire w =
      let delivered = confirm topic boot (publish_wire topic sender_id wire (g.now_ms w) w) in
      if delivered.0 then delivered else (false, enqueue topic boot sender_id wire delivered.1)

  unfoldable pub retry : OutboxItem → W → Bool × W
  retry item w =
      let joined = g.join_topic_with item.topic item.boot w in
      confirm item.topic item.boot (publish_wire item.topic item.sender_id item.wire item.ts joined)

  abbrev pub is_waiting : ℕ → OutboxItem → Bool
  is_waiting now item = ltb now item.next_attempt_ms

  -- What a failed attempt leaves of an item. The count is a `u32`, which wraps.
  unfoldable pub after_failure : ℕ → OutboxItem → List OutboxItem
  after_failure now item =
      let retries = (item.retries + 1) % 2 ^ 32 in
      if leb attempts_max retries
      then []
      else record item { retries = retries; next_attempt_ms = now + backoff_for retries } ∷ []

  -- The loop of `flush`: what stays, whether anything changed, and the world.
  unfoldable pub flush_loop : ℕ → List OutboxItem → W → List OutboxItem × Bool × W
  flush_loop now [] w = ([], false, w)
  flush_loop now (item ∷ items) w =
      if is_waiting now item
      then (let rest = flush_loop now items w in (item ∷ rest.0, rest.1, rest.2))
      else (let sent = retry item w in
          let rest = flush_loop now items sent.1 in
          (if sent.0 then rest.0 else after_failure now item ++ rest.0, true, rest.2))

  unfoldable pub flush : W → W
  flush w =
      let items = read_items w in
      if any (λ _. true) items
      then (let out = flush_loop (g.now_ms w) items w in
          if out.1 then g.write_json out.0 out.2 else out.2)
      else w

  unfoldable pub pending_count : W → ℕ
  pending_count w = length (read_items w)

  unfoldable pub clear : W → W
  clear w = g.remove w

  unfoldable pub purge_topic : Text → W → W
  purge_topic topic w =
      g.write_json (filter (λ (i : OutboxItem). not (text_eq i.topic topic)) (read_items w)) w
