-- ===== src/Broker/Tests.antt =====
-- The broker at a concrete history.
use hey_capsule.Prelude.{
  All, text_eq_iff, ◌≤◌, ◌≡◌, refl, ◌++◌, none, some, List, [], ◌∷◌, codes, text_eq, lookup, insert,
  any, filter, length, take, arith,
}
use hey_capsule.Prelude.Int.{pos}
use hey_capsule.Broker.{topic_of, append, drain_loop, drain, senders_loop, senders}
use hey_capsule.Broker.Reading.{view}
use hey_capsule.Broker.Topics.{log_of, position}
use hey_capsule.Broker.Delivery.{
  Skips, Event, sends, drains, step, run, empty_broker, run_lem, drain-run,
}

program : Unit {0}
unfolding topic_of append drain_loop drain senders_loop senders step run lookup insert any filter
    text_eq
program = tt

-- Bob reads topic `t` and skips his own messages.
abbrev history : List Event
history =
    sends (codes "t") (codes "hi") (codes "ann") (pos 1) []
    ∷ sends (codes "t") (codes "yo") (codes "bob") (pos 2) []
    ∷ drains (codes "t") 1 (codes "bob") (some (codes "bob"))
    ∷ sends (codes "u") (codes "no") (codes "ann") (pos 3) []
    ∷ drains (codes "t") 9 (codes "eve") none
    ∷ sends (codes "t") (codes "so") (codes "ann") (pos 4) []
    ∷ []

bob_got_one : length (run (codes "t") (codes "bob") history empty_broker).0 ≡ 1
unfolding program
bob_got_one = refl

two_senders :
    (senders (run (codes "t") (codes "bob") history empty_broker).1 (codes "t")).0
    ≡ codes "ann" ∷ codes "bob" ∷ []
unfolding program
two_senders = refl

history-Skips : All (Skips (codes "t") (codes "bob") (some (codes "bob"))) history
unfolding text_eq
history-Skips = (
  tt,
  (
    tt,
    (
      (λ e e'. refl),
      (
        tt,
        ((λ e e'. absurd (ground (arith, text_eq_iff (codes "eve") (codes "bob"), e'))), (tt, tt)),
      ),
    ),
  ),
)

run_lem_example :
    let out = run (codes "t") (codes "bob") history empty_broker in
    out.0
    ≡ view
        (some (codes "bob"))
        (take (position out.1 (codes "t") (codes "bob")) (log_of out.1 (codes "t")))
run_lem_example = run_lem (codes "t") (codes "bob") (some (codes "bob")) history history-Skips

few : length (log_of (run (codes "t") (codes "bob") history empty_broker).1 (codes "t")) ≤ 64
unfolding program
few = omega arith

drain-run_example :
    let out = run (codes "t") (codes "bob") history empty_broker in
    out.0 ++ (drain out.1 (codes "t") 64 (codes "bob") (some (codes "bob"))).0
    ≡ view (some (codes "bob")) (log_of out.1 (codes "t"))
drain-run_example =
    drain-run (codes "t") (codes "bob") (some (codes "bob")) history 64 history-Skips few
