-- ===== src/CidCache/Tests.antt =====
-- The cache at concrete entries.
use hey_capsule.Prelude.{
  ℕ, take, ◌≡◌, ◌≢◌, refl, none, some, [], ◌∷◌, codes, if◌then◌else◌, lookup, any, text_eq, insert,
  text_eq_iff, arith,
}
use hey_capsule.CidCache.{CidCache, get, put, make_room, drop_oldest}
use hey_capsule.CidCache.Agreement.{member}
use hey_capsule.CidCache.Bounds.{Drops, IsValid, is_refused, put-IsValid, get-put}

program : Unit {0}
unfolding get put make_room drop_oldest lookup insert any text_eq
program = tt

abbrev empty : CidCache
empty = record { map = []; order = []; total_bytes = 0 }

one_entry : get (put empty (codes "a") (1 ∷ 2 ∷ [])) (codes "a") ≡ some (1 ∷ 2 ∷ [])
unfolding program
one_entry = refl

empty-IsValid : IsValid empty
unfolding program
empty-IsValid = record {
  agrees = record { unique_keys = tt; unique = tt; keys = λ k. refl; total_is = refl };
  entries = omega arith;
  bytes = omega arith;
}

put-IsValid_example : IsValid (put empty (codes "a") (1 ∷ 2 ∷ []))
put-IsValid_example = put-IsValid empty (codes "a") (1 ∷ 2 ∷ []) empty-IsValid

other_key : codes "b" ≢ codes "a"
unfolding text_eq
other_key e = ground (arith, text_eq_iff (codes "b") (codes "a"))

get-put_example :
    let c = put empty (codes "b") (7 ∷ []) in
    (get (put c (codes "a") (1 ∷ [])) (codes "a")
      ≡ (if is_refused c (codes "a") (1 ∷ []) then get c (codes "a") else some (1 ∷ [])))
    × (n : ℕ) × Drops c (codes "a") (1 ∷ []) n
    × (get (put c (codes "a") (1 ∷ [])) (codes "b")
        ≡ (if member (codes "b") (take n c.order) then none else get c (codes "b")))
get-put_example =
    get-put (put empty (codes "b") (7 ∷ [])) (codes "a") (codes "b") (1 ∷ [])
      (put-IsValid empty (codes "b") (7 ∷ []) empty-IsValid) other_key
