-- ===== src/Frag/Tests.antt =====
-- Runs of fragmentation, and the theorems at concrete inputs.
use hey_capsule.Prelude.{
  ℕ, zero, suc, ◌+◌, ◌/◌, ◌++◌, ◌==◌, if◌then◌else◌, length, ◌≡◌, refl, none, some, List, [], ◌∷◌,
  Text, codes, text_eq, text_key, nat_eq, lookup, insert, remove, retain, elem, replicate, arith,
}
use hey_capsule.Frag.{
  needs_fragment, chunk, fragment_at, count, fragments_from, fragments, pieces, fragment,
  cuts_character, is_fresh, entry, add_part, join_parts, complete, accept, reassemble,
}
use hey_capsule.Frag.Delivery.{Event, arrives, other, arrivals, deliver, deliver-fragment}
use hey_capsule.Frag.Chunks.{IsAscii}
use hey_capsule.Frag.Codec.{codec}

program : Unit {0}
unfolding needs_fragment chunk fragment_at count fragments_from fragments pieces fragment
    cuts_character is_fresh entry add_part join_parts complete accept reassemble text_eq lookup
    insert remove retain elem deliver
program = tt

abbrev wire : Text
wire = replicate 3001 b'A'

abbrev id : Text
id = codes "m1"

abbrev backwards : List Event
backwards = arrives 10 1 ∷ other 11 (codes "hello") ∷ arrives 12 0 ∷ []

small_passes : fragment codec id (codes "hello") ≡ some (codes "hello" ∷ [])
unfolding program
small_passes = refl

plain_passes : (reassemble codec 5 (codes "hello") []).1 ≡ some (codes "hello")
unfolding program
plain_passes = refl

early : deliver codec (pieces codec id wire) (arrives 10 1 ∷ []) [] ≡ []
unfolding program
early = refl

-- A character of two bytes lies across the end of the first slice.
cut_panics : fragment codec id (replicate 2999 b'A' ++ (195 ∷ 169 ∷ [])) ≡ none
unfolding program
cut_panics = refl

replicate-IsAscii : (n : ℕ) → IsAscii (replicate n b'A')
replicate-IsAscii zero = tt
replicate-IsAscii (suc n) = (omega arith, replicate-IsAscii n)

-- An index out of range counts towards completion, and leaves a gap.
gap : (accept 5 (record (fragment_at wire id 1 0) { i = 7 }) []).1 ≡ none
unfolding program
gap = refl

deliver-fragment_example :
    (sent : List Text) × (fragment codec id wire ≡ some sent)
    × (length sent ≡ (length wire + 2999) / 3000)
    × (deliver codec sent backwards []
        ≡ (if arrivals backwards == length sent then wire ∷ [] else []))
unfolding program
deliver-fragment_example =
    deliver-fragment codec id wire 10 backwards [] (omega arith) (replicate-IsAscii 3001)
      (omega arith) tt refl
      (
        omega arith,
        omega arith,
        omega arith,
        refl,
        (omega arith, omega arith, (λ f e. cc), (omega arith, omega arith, omega arith, refl, tt)),
      )
