-- ===== src/Outbox/Fates.antt =====
-- Which items a flush keeps and which it lets go.
use hey_capsule.Prelude.{
  ℕ, ◌+◌, ◌%◌, ◌^◌, ◌≡◌, refl, true, false, ◌||◌, List, [], ◌∷◌, map, Text, filter, any, ltb, All,
  Bool-cases, inl, inr, arith,
}
use hey_capsule.Frag.{Json}
use hey_capsule.Outbox.{
  attempts_max, OutboxItem, Gossip, read_items, is_waiting, after_failure, retry, flush_loop, flush,
}

abbrev pub ids : List OutboxItem → List Text
ids items = map (λ (i : OutboxItem). i.id) items

module _ {W : Type 0} (g : Gossip W) (json : Json) where
  -- Where no send of an item is confirmed, a flush keeps, in order, every item that is not due and every item
  -- that has an attempt left after this one, by the count of its attempts, a `u32`.
  pub flush_loop_unreachable :
      (now : ℕ) (items : List OutboxItem) (w : W)
      → All (λ (i : OutboxItem). (w : W) → (retry g json i w).0 ≡ false) items
      → ids (flush_loop g json now items w).0
        ≡ ids (
            filter
              (λ (i : OutboxItem).
                is_waiting g json now i || ltb ((i.retries + 1) % 2 ^ 32) attempts_max)
              items)
  unfolding flush_loop after_failure filter
  flush_loop_unreachable now [] w fails = refl
  flush_loop_unreachable now (item ∷ items) w fails =
      let sent = retry g json item w in
      ground (
        arith,
        fails.0 w,
        flush_loop_unreachable now items w fails.1,
        flush_loop_unreachable now items sent.1 fails.1,
      )

  -- Where every send of an item is confirmed, a flush leaves exactly the items that are not due, unchanged.
  pub flush_loop_delivered :
      (now : ℕ) (items : List OutboxItem) (w : W)
      → All (λ (i : OutboxItem). (w : W) → (retry g json i w).0 ≡ true) items
      → (flush_loop g json now items w).0 ≡ filter (is_waiting g json now) items
  unfolding flush_loop filter
  flush_loop_delivered now [] w sends = refl
  flush_loop_delivered now (item ∷ items) w sends =
      let sent = retry g json item w in
      ground (
        arith,
        sends.0 w,
        flush_loop_delivered now items w sends.1,
        flush_loop_delivered now items sent.1 sends.1,
      )

  flush_loop_waiting :
      (now : ℕ) (items : List OutboxItem) (w : W)
      → All (λ (i : OutboxItem). is_waiting g json now i ≡ true) items
      → flush_loop g json now items w ≡ (items, false, w)
  unfolding flush_loop
  flush_loop_waiting now [] w h = refl
  flush_loop_waiting now (item ∷ items) w h = rw (h.0, flush_loop_waiting now items w h.1) refl

  -- A flush of a queue in which no item is due does nothing: no send and no write.
  pub flush_waiting :
      (w : W)
      → All (λ (i : OutboxItem). is_waiting g json (g.now_ms w) i ≡ true) (read_items g json w)
      → flush g json w ≡ w
  unfolding flush
  flush_waiting w h = elim (Bool-cases (any (λ _. true) (read_items g json w))) [
    | inl some' ↦ rw (some', flush_loop_waiting (g.now_ms w) (read_items g json w) w h) refl
    | inr none' ↦ rw none' refl
  ]
