-- ===== src/Broker/Reading.antt =====
-- What the loop of `drain` reads of a log.
use hey_capsule.Prelude.{
  ℕ, zero, suc, ◌+◌, ◌≤◌, ◌≡◌, refl, ap, ◌∙◌, Option, List, [], ◌∷◌, ◌++◌, Text, text_key, not, map,
  filter, length, take, drop, arith,
}
use native.Mathlib.Numerals.{unary_clauses}
use hey_capsule.Broker.{Msg, Delivered, deliver, is_skipped, drain_loop}

-- What a consumer is meant to see of a log.
abbrev pub view : Option Text → List Msg → List Delivered
view skip log = map deliver (filter (λ m. not (is_skipped skip m)) log)

pub drain_loop-view :
    (room : ℕ) (skip : Option Text) (ms : List Msg)
    → (drain_loop room skip ms).1 ≡ view skip (take (drain_loop room skip ms).0 ms)
unfolding drain_loop filter
drain_loop-view room skip [] = refl
drain_loop-view zero skip (m ∷ ms) = refl
drain_loop-view (suc room) skip (m ∷ ms) =
    ground (arith, drain_loop-view room skip ms, drain_loop-view (suc room) skip ms)

pub drain_loop_le :
    (room : ℕ) (skip : Option Text) (ms : List Msg) → (drain_loop room skip ms).0 ≤ length ms
unfolding drain_loop
drain_loop_le room skip [] = omega arith
drain_loop_le zero skip (m ∷ ms) = omega arith
drain_loop_le (suc room) skip (m ∷ ms) =
    ground (arith, drain_loop_le room skip ms, drain_loop_le (suc room) skip ms)

pub drain_loop_limit :
    (room : ℕ) (skip : Option Text) (ms : List Msg) → length (drain_loop room skip ms).1 ≤ room
unfolding drain_loop
drain_loop_limit room skip [] = omega arith
drain_loop_limit zero skip (m ∷ ms) = omega arith
drain_loop_limit (suc room) skip (m ∷ ms) =
    ground (arith, drain_loop_limit room skip ms, drain_loop_limit (suc room) skip ms)

pub drain_loop_all :
    (room : ℕ) (skip : Option Text) (ms : List Msg)
    → length ms ≤ room
    → (drain_loop room skip ms).0 ≡ length ms
unfolding drain_loop
drain_loop_all room skip [] le = refl
drain_loop_all zero skip (m ∷ ms) le = omega arith
drain_loop_all (suc room) skip (m ∷ ms) le =
    ground (arith, drain_loop_all room skip ms, drain_loop_all (suc room) skip ms)

pub view-append :
    (skip : Option Text) (xs ys : List Msg) → view skip (xs ++ ys) ≡ view skip xs ++ view skip ys
unfolding filter
view-append skip [] ys = refl
view-append skip (x ∷ xs) ys = ground (arith, view-append skip xs ys)

pub take-append_le : (n : ℕ) (xs ys : List Msg) → n ≤ length xs → take n (xs ++ ys) ≡ take n xs
take-append_le zero xs ys le = refl
take-append_le (suc n) [] ys le = absurd (omega arith)
take-append_le (suc n) (x ∷ xs) ys le = ap (◌∷◌ x) (take-append_le n xs ys (omega arith))

pub take-add : (i n : ℕ) (xs : List Msg) → take (i + n) xs ≡ take i xs ++ take n (drop i xs)
take-add zero n xs = ap (λ k. take k xs) (omega arith)
take-add (suc i) zero [] = simp unary_clauses refl
take-add (suc i) (suc n) [] = simp unary_clauses refl
take-add (suc i) n (x ∷ xs) =
    let e : suc i + n ≡ suc (i + n) = omega arith in
    ap (λ k. take k (x ∷ xs)) e ∙ ap (◌∷◌ x) (take-add i n xs)
