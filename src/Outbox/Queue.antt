-- ===== src/Outbox/Queue.antt =====
-- What becomes of the items of the queue.
use hey_capsule.Prelude.{
  ℕ, ◌≤◌, ◌<◌, List, [], ◌∷◌, ◌++◌, length, length-append, length-drop, drop, leb, All, All-append,
  Bool-cases, inl, inr, arith,
}
use hey_capsule.Frag.{Json}
use hey_capsule.Outbox.{
  max_items, attempts_max, OutboxItem, Gossip, make_room, after_failure, retry, flush_loop,
}

-- Items that have attempts left.
abbrev pub HasAttempts : OutboxItem → Type 0
HasAttempts item = item.retries < attempts_max

-- Within its bound, and all items have attempts left.
abbrev pub IsQueue : List OutboxItem → Type 0
IsQueue items = (length items ≤ max_items) × All HasAttempts items

All-drop_one : (items : List OutboxItem) → All HasAttempts items → All HasAttempts (drop 1 items)
All-drop_one [] h = tt
All-drop_one (i ∷ is) h = h.1

-- A queue with room for one more, and the item, are a queue.
pub make_room-IsQueue :
    (items : List OutboxItem) (item : OutboxItem)
    → IsQueue items
    → HasAttempts item
    → IsQueue (make_room items ++ (item ∷ []))
unfolding make_room
make_room-IsQueue items item q h = elim (Bool-cases (leb max_items (length items))) [
  | inl full ↦ rw full (
    omega (arith, length-append (drop 1 items) (item ∷ []), length-drop 1 items, q.0),
    All-append HasAttempts (drop 1 items) (item ∷ []) (All-drop_one items q.1) (h, tt),
  )
  | inr room ↦
      let few : length items < max_items = ground arith in
      rw room (
        omega (arith, length-append items (item ∷ []), few),
        All-append HasAttempts items (item ∷ []) q.1 (h, tt),
      )
]

module _ {W : Type 0} (g : Gossip W) (json : Json) where
  after_failure-HasAttempts :
      (now : ℕ) (item : OutboxItem) → All HasAttempts (after_failure g json now item)
  unfolding after_failure
  after_failure-HasAttempts now item = ground arith

  length-after_failure : (now : ℕ) (item : OutboxItem) → length (after_failure g json now item) ≤ 1
  unfolding after_failure
  length-after_failure now item = ground arith

  length-flush_loop :
      (now : ℕ) (items : List OutboxItem) (w : W)
      → length (flush_loop g json now items w).0 ≤ length items
  unfolding flush_loop
  length-flush_loop now [] w = omega arith
  length-flush_loop now (item ∷ items) w =
      let sent = retry g json item w in
      ground (
        arith,
        length-flush_loop now items w,
        length-flush_loop now items sent.1,
        length-after_failure now item,
        length-append (after_failure g json now item) (flush_loop g json now items sent.1).0,
      )

  flush_loop-HasAttempts :
      (now : ℕ) (items : List OutboxItem) (w : W)
      → All HasAttempts items
      → All HasAttempts (flush_loop g json now items w).0
  unfolding flush_loop
  flush_loop-HasAttempts now [] w h = tt
  flush_loop-HasAttempts now (item ∷ items) w h =
      let sent = retry g json item w in
      ground (
        arith,
        h.0,
        flush_loop-HasAttempts now items w h.1,
        flush_loop-HasAttempts now items sent.1 h.1,
        All-append HasAttempts (after_failure g json now item)
            (flush_loop g json now items sent.1).0 (after_failure-HasAttempts now item)
            (flush_loop-HasAttempts now items sent.1 h.1),
      )

  -- What `flush` writes is a queue again: within its bound, each item with attempts left.
  pub flush_loop-IsQueue :
      (now : ℕ) (items : List OutboxItem) (w : W)
      → IsQueue items
      → IsQueue (flush_loop g json now items w).0
  flush_loop-IsQueue now items w q =
      (omega (arith, q.0, length-flush_loop now items w), flush_loop-HasAttempts now items w q.1)
