-- ===== src/Broker/Delivery.antt =====
-- Delivery by the broker: every consumer reads each topic's log in order and once.
use hey_capsule.Prelude.{
  take_all, take-append-drop, All, subst, beq_refl, length-drop, false, Bool-cases, ◌&&◌, inl, inr,
  ℕ, ◌+◌, ◌≤◌, ◌≡◌, refl, sym, ap, ◌∙◌, Option, List, [], ◌∷◌, ◌++◌, Text, text_eq, text_key,
  text_eq_iff, filter, append_assoc, append-nil, length, length-append, take, drop,
  take-append-drop, lookup, if◌then◌else◌, arith,
}
use hey_capsule.Prelude.Int.{ℤ}
use hey_capsule.Broker.{Broker, Delivered, topic_of, append, drain_loop, drain}
use hey_capsule.Broker.Reading.{
  view, drain_loop-view, drain_loop_le, drain_loop_all, view-append, take-append_le, take-add,
}
use hey_capsule.Broker.Topics.{
  log_of, position, log_of-append, position-append, log_of-drain, position-drain,
}

-- What happens at a broker, as far as its messages go.
pub data Event : Type 0 where
  sends : Text → Text → Text → ℤ → Text → Event
  drains : Text → ℕ → Text → Option Text → Event

-- The broker after an event, and what the event gives to a consumer of a topic.
unfoldable pub step : Text → Text → Event → Broker → List Delivered × Broker
step topic consumer (sends name content sender_id ts signature) b =
    ([], (append b name content sender_id ts signature).1)
step topic consumer (drains name limit reader skip) b =
    let out = drain b name limit reader skip in
    (if text_eq name topic && text_eq reader consumer then out.0 else [], out.1)

unfoldable pub run : Text → Text → List Event → Broker → List Delivered × Broker
run topic consumer [] b = ([], b)
run topic consumer (e ∷ es) b =
    let out = step topic consumer e b in
    let rest = run topic consumer es out.1 in (out.0 ++ rest.0, rest.1)

-- The consumer always skips the same sender on the topic.
abbrev pub Skips : Text → Text → Option Text → Event → Type 0
Skips topic consumer skip (sends _ _ _ _ _) = Unit
Skips topic consumer skip (drains name limit reader skip') =
    name ≡ topic → reader ≡ consumer → skip' ≡ skip

-- What a consumer has seen of a topic: the part of the log before its cursor.
pub record HasSeen (topic consumer : Text) (skip : Option Text) (b : Broker) (seen : List Delivered)
    : Type 0 where
  pub at : position b topic consumer ≤ length (log_of b topic)
  pub is : seen ≡ view skip (take (position b topic consumer) (log_of b topic))

append-HasSeen :
    (topic consumer : Text) (skip : Option Text) (b : Broker) (seen : List Delivered)
    (name content sender_id : Text) (ts : ℤ) (signature : Text)
    → HasSeen topic consumer skip b seen
    → HasSeen topic consumer skip (append b name content sender_id ts signature).1 seen
append-HasSeen topic consumer skip b seen name content sender_id ts signature h =
    let e = log_of-append b topic name content sender_id ts signature in
    let e' = position-append b topic consumer name content sender_id ts signature in
    record {
      at = rw (e, e') (omega (arith, h.at, length-append (log_of b topic) _));
      is = rw (e, e', take-append_le (position b topic consumer) (log_of b topic) _ h.at) h.is;
    }

-- A drain by the consumer itself.
own_drain-HasSeen :
    (topic consumer : Text) (skip : Option Text) (b : Broker) (seen : List Delivered) (limit : ℕ)
    → HasSeen topic consumer skip b seen
    → HasSeen topic consumer skip
        (drain b topic limit consumer skip).1
        (seen ++ (drain b topic limit consumer skip).0)
unfolding drain drain_loop
own_drain-HasSeen topic consumer skip b seen limit h =
    let i = position b topic consumer in
    let log = log_of b topic in
    let left = drop i log in
    let n = (drain_loop limit skip left).0 in
    let e = log_of-drain b topic topic limit consumer skip in
    let e' : position (drain b topic limit consumer skip).1 topic consumer ≡ i + n =
      position-drain b topic topic limit consumer consumer skip
      ∙ rw (beq_refl text_key topic, beq_refl text_key consumer) refl in
    record {
      at = rw (e, e') (omega (arith, h.at, drain_loop_le limit skip left, length-drop i log));
      is =
          ap (λ s. s ++ (drain_loop limit skip left).1) h.is
          ∙ ap (λ s. view skip (take i log) ++ s) (drain_loop-view limit skip left)
          ∙ sym (view-append skip (take i log) (take n left))
          ∙ ap (view skip) (sym (take-add i n log))
          ∙ rw (e, e') refl;
    }

other_drain-HasSeen :
    (topic consumer : Text) (skip : Option Text) (b : Broker) (seen : List Delivered) (name : Text)
    (limit : ℕ) (reader : Text) (skip' : Option Text)
    → text_eq name topic && text_eq reader consumer ≡ false
    → HasSeen topic consumer skip b seen
    → HasSeen topic consumer skip (drain b name limit reader skip').1 seen
other_drain-HasSeen topic consumer skip b seen name limit reader skip' other h =
    let e = log_of-drain b topic name limit reader skip' in
    let e' = position-drain b topic name limit reader consumer skip' ∙ rw other refl in
    record { at = rw (e, e') h.at; is = rw (e, e') h.is }

step-HasSeen :
    (topic consumer : Text) (skip : Option Text) (b : Broker) (seen : List Delivered) (e : Event)
    → Skips topic consumer skip e
    → HasSeen topic consumer skip b seen
    → HasSeen topic consumer skip (step topic consumer e b).1 (seen ++ (step topic consumer e b).0)
unfolding step
step-HasSeen topic consumer skip b seen (sends name content sender_id ts signature) s h =
    subst (HasSeen topic consumer skip _) (sym (append-nil seen))
      (append-HasSeen topic consumer skip b seen name content sender_id ts signature h)
step-HasSeen topic consumer skip b seen (drains name limit reader skip') s h =
    elim (Bool-cases (text_eq name topic && text_eq reader consumer)) [
      | inl both ↦
          let same_topic : name ≡ topic = ground (arith, text_eq_iff name topic) in
          let same_reader : reader ≡ consumer = ground (arith, text_eq_iff reader consumer) in
          rw (both, same_topic, same_reader, s same_topic same_reader)
            (own_drain-HasSeen topic consumer skip b seen limit h)
      | inr other ↦
          rw (other, append-nil seen)
            (other_drain-HasSeen topic consumer skip b seen name limit reader skip' other h)
    ]

-- A consumer that always skips the same sender has seen, after any events, the messages before its
-- cursor, in order and each once.
run-HasSeen :
    (topic consumer : Text) (skip : Option Text) (es : List Event) (b : Broker)
    (seen : List Delivered)
    → All (Skips topic consumer skip) es
    → HasSeen topic consumer skip b seen
    → HasSeen topic consumer skip (run topic consumer es b).1 (seen ++ (run topic consumer es b).0)
unfolding run
run-HasSeen topic consumer skip [] b seen s h =
    subst (HasSeen topic consumer skip b) (sym (append-nil seen)) h
run-HasSeen topic consumer skip (e ∷ es) b seen s h =
    let out = step topic consumer e b in
    subst (HasSeen topic consumer skip _) (append_assoc seen out.0 (run topic consumer es out.1).0)
      (run-HasSeen topic consumer skip es out.1 (seen ++ out.0) s.1
        (step-HasSeen topic consumer skip b seen e s.0 h))

abbrev pub empty_broker : Broker
empty_broker = record { topics = []; next_seq = 0; subscriptions = [] }

empty-HasSeen :
    (topic consumer : Text) (skip : Option Text) → HasSeen topic consumer skip empty_broker []
unfolding topic_of lookup filter
empty-HasSeen topic consumer skip = record { at = omega arith; is = refl }

-- In any run of sends and drains from the empty broker, by any number of senders and consumers, a
-- consumer that always skips the same sender on a topic gets the messages of the topic's log before
-- its cursor, less those of the skipped sender: in order, and each exactly once.
pub run_lem :
    (topic consumer : Text) (skip : Option Text) (es : List Event)
    → All (Skips topic consumer skip) es
    → let out = run topic consumer es empty_broker in
      out.0 ≡ view skip (take (position out.1 topic consumer) (log_of out.1 topic))
run_lem topic consumer skip es s =
    (run-HasSeen topic consumer skip es empty_broker [] s (empty-HasSeen topic consumer skip)).is

-- After any such run, one more drain whose limit is at least the length of the topic's log brings
-- the consumer up to date: it has then got the whole log, less the messages of the skipped sender.
pub drain-run :
    (topic consumer : Text) (skip : Option Text) (es : List Event) (limit : ℕ)
    → All (Skips topic consumer skip) es
    → length (log_of (run topic consumer es empty_broker).1 topic) ≤ limit
    → let out = run topic consumer es empty_broker in
      out.0 ++ (drain out.1 topic limit consumer skip).0 ≡ view skip (log_of out.1 topic)
unfolding drain
drain-run topic consumer skip es limit s le =
    let out = run topic consumer es empty_broker in
    let h =
      run-HasSeen topic consumer skip es empty_broker [] s (empty-HasSeen topic consumer skip) in
    let i = position out.1 topic consumer in
    let log = log_of out.1 topic in
    let left = drop i log in
    let all = drain_loop_all limit skip left (omega (arith, le, length-drop i log)) in
    ap (λ s. s ++ (drain_loop limit skip left).1) h.is
    ∙ ap (λ s. view skip (take i log) ++ s) (drain_loop-view limit skip left)
    ∙ sym (view-append skip (take i log) (take (drain_loop limit skip left).0 left))
    ∙ ap (view skip) (
        ap (λ k. take i log ++ take k left) all
        ∙ ap (λ s. take i log ++ s) (take_all (length left) left (omega arith))
        ∙ take-append-drop i log)
