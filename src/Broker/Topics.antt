-- ===== src/Broker/Topics.antt =====
-- What `append` and `drain` do to the log and the cursors of each topic.
use hey_capsule.Prelude.{
  ◌&&◌, ℕ, ◌+◌, ◌≡◌, refl, Option, List, [], ◌∷◌, ◌++◌, Text, text_eq, text_key, text_eq_iff,
  append-nil, drop, insert, lookup-insert, if◌then◌else◌, arith,
}
use hey_capsule.Prelude.Int.{ℤ}
use hey_capsule.Broker.{Msg, Topic, Broker, topic_of, append, drain_loop, cursor_of, drain}

abbrev pub log_of : Broker → Text → List Msg
log_of b topic = (topic_of b topic).log

abbrev pub position : Broker → Text → Text → ℕ
position b topic consumer = cursor_of (topic_of b topic) consumer

pub topic_of-insert :
    (b b' : Broker) (name topic : Text) (t : Topic)
    → b'.topics ≡ insert name t b.topics
    → topic_of b' topic ≡ (if text_eq name topic then t else topic_of b topic)
unfolding topic_of
topic_of-insert b b' name topic t e = ground (arith, lookup-insert name topic t b.topics)

abbrev pub new_message : Broker → Text → Text → ℤ → Text → Msg
new_message b content sender_id ts signature = record {
  seq = b.next_seq;
  content = content;
  sender_id = sender_id;
  ts = ts;
  signature = signature;
}

pub log_of-append :
    (b : Broker) (topic name content sender_id : Text) (ts : ℤ) (signature : Text)
    → log_of (append b name content sender_id ts signature).1 topic
      ≡ log_of b topic
        ++ (if text_eq name topic then new_message b content sender_id ts signature ∷ [] else [])
unfolding append
log_of-append b topic name content sender_id ts signature =
    let b' = (append b name content sender_id ts signature).1 in
    let e = topic_of-insert b b' name topic _ refl in
    ground (arith, e, text_eq_iff name topic, append-nil (log_of b topic))

pub position-append :
    (b : Broker) (topic consumer name content sender_id : Text) (ts : ℤ) (signature : Text)
    → position (append b name content sender_id ts signature).1 topic consumer
      ≡ position b topic consumer
unfolding append
position-append b topic consumer name content sender_id ts signature =
    let b' = (append b name content sender_id ts signature).1 in
    let e = topic_of-insert b b' name topic _ refl in ground (arith, e, text_eq_iff name topic)

pub log_of-drain :
    (b : Broker) (topic name : Text) (limit : ℕ) (reader : Text) (skip : Option Text)
    → log_of (drain b name limit reader skip).1 topic ≡ log_of b topic
unfolding drain
log_of-drain b topic name limit reader skip =
    let b' = (drain b name limit reader skip).1 in
    let e = topic_of-insert b b' name topic _ refl in ground (arith, e, text_eq_iff name topic)

pub position-drain :
    (b : Broker) (topic name : Text) (limit : ℕ) (reader consumer : Text) (skip : Option Text)
    → position (drain b name limit reader skip).1 topic consumer ≡ (
        if text_eq name topic && text_eq reader consumer
        then position b topic consumer
          + (drain_loop limit skip (drop (position b topic consumer) (log_of b topic))).0
        else position b topic consumer)
unfolding drain
position-drain b topic name limit reader consumer skip =
    let b' = (drain b name limit reader skip).1 in
    let e = topic_of-insert b b' name topic _ refl in
    ground (
      arith,
      e,
      text_eq_iff name topic,
      text_eq_iff reader consumer,
      lookup-insert reader consumer
          (cursor_of (topic_of b name) reader
            + (drain_loop limit skip (drop (cursor_of (topic_of b name) reader) (log_of b name))).0)
          (topic_of b name).cursors,
    )
