-- ===== src/Broker.antt =====
-- The durable broker of capsules/peer-provider/src/main.rs: a log of messages for each topic and a
-- cursor for each consumer. A `BTreeMap` or `HashMap` is an association list, the sequence number
-- a `u64` that wraps, and a time stamp an `i64`.
pub mod Reading
pub mod Topics
pub mod Delivery
mod Tests
use hey_capsule.Prelude.{
  ℕ, zero, suc, ◌+◌, ◌%◌, ◌^◌, ◌||◌, Bool, true, false, Option, none, some, List, [], ◌∷◌, ◌++◌,
  Text, text_eq, text_key, Map, lookup, insert, any, map, length, drop, if◌then◌else◌,
}
use hey_capsule.Prelude.Int.{ℤ}

pub record Msg : Type 0 where
  pub seq : ℕ
  pub content : Text
  pub sender_id : Text
  pub ts : ℤ
  pub signature : Text

pub record Topic : Type 0 where
  pub log : List Msg
  pub cursors : Map Text ℕ

pub record Broker : Type 0 where
  pub topics : Map Text Topic
  pub next_seq : ℕ
  pub subscriptions : Map Text (List Text)

-- `entry(name).or_default()`.
unfoldable pub topic_of : Broker → Text → Topic
topic_of b name = elim (lookup name b.topics) [
  | some t ↦ t
  | none ↦ record { log = []; cursors = [] }
]

abbrev pub with_topic : Broker → Text → Topic → Broker
with_topic b name t = record b { topics = insert name t b.topics }

unfoldable pub append : Broker → Text → Text → Text → ℤ → Text → ℕ × Broker
append b topic content sender_id ts signature =
    let seq = b.next_seq in
    let t = topic_of b topic in
    let m : Msg = record {
      seq = seq;
      content = content;
      sender_id = sender_id;
      ts = ts;
      signature = signature;
    } in
    (
      seq,
      record (with_topic b topic (record t { log = t.log ++ (m ∷ []) })) {
        next_seq = (seq + 1) % 2 ^ 64;
      },
    )

-- What `drain` gives to a consumer: the JSON object of a message.
pub record Delivered : Type 0 where
  pub content : Text
  pub message : Text
  pub sender_id : Text
  pub ts : ℤ
  pub signature : Text
  pub seq : ℕ

abbrev pub deliver : Msg → Delivered
deliver m = record {
  content = m.content;
  message = m.content;
  sender_id = m.sender_id;
  ts = m.ts;
  signature = m.signature;
  seq = m.seq;
}

abbrev pub is_skipped : Option Text → Msg → Bool
is_skipped none m = false
is_skipped (some s) m = text_eq m.sender_id s

-- The loop over what follows the cursor, with the room that is left under the limit: by how much
-- the cursor moves, and what is given out.
unfoldable pub drain_loop : ℕ → Option Text → List Msg → ℕ × List Delivered
drain_loop room skip [] = (0, [])
drain_loop zero skip (m ∷ ms) = (0, [])
drain_loop (suc room) skip (m ∷ ms) =
    if is_skipped skip m
    then (let rest = drain_loop (suc room) skip ms in (suc rest.0, rest.1))
    else (let rest = drain_loop room skip ms in (suc rest.0, deliver m ∷ rest.1))

abbrev pub cursor_of : Topic → Text → ℕ
cursor_of t consumer = elim (lookup consumer t.cursors) [ some i ↦ i | none ↦ 0 ]

unfoldable pub drain : Broker → Text → ℕ → Text → Option Text → List Delivered × Broker
drain b topic limit consumer skip =
    let t = topic_of b topic in
    let idx = cursor_of t consumer in
    let out = drain_loop limit skip (drop idx t.log) in
    (out.1, with_topic b topic (record t { cursors = insert consumer (idx + out.0) t.cursors }))

unfoldable pub senders_loop : List Text → List Msg → List Text
senders_loop seen [] = seen
senders_loop seen (m ∷ ms) =
    senders_loop (if any (text_eq m.sender_id) seen then seen else seen ++ (m.sender_id ∷ [])) ms

unfoldable pub senders : Broker → Text → List Text × Broker
senders b topic = let t = topic_of b topic in (senders_loop [] t.log, with_topic b topic t)
