-- ===== src/CidCache/Eviction.antt =====
-- What a `put` drops to make room (capsules/hey-core/src/runtime.rs).
use hey_capsule.Prelude.{
  ℕ, zero, suc, ◌+◌, ◌-◌, ◌≤◌, ◌<◌, ◌≡◌, refl, ap, ◌∙◌, sym, ◌||◌, Bool, true, false, Option, none,
  some, List, [], ◌∷◌, Text, text_eq_iff, text_key, Map, lookup, remove, any, take, drop, length,
  leb, ltb, if◌then◌else◌, lookup-remove, Bool-cases, inl, inr, subst, arith,
}
use hey_capsule.CidCache.{max_entries, max_bytes, CidCache, make_room}
use hey_capsule.CidCache.Agreement.{
  Agrees, member, oldest, drop_oldest-some, drop_oldest-Agrees, size_of-remove, empty_size,
}

abbrev pub body_size : Option (List ℕ) → ℕ
body_size none = 0
body_size (some v) = length v

-- The bytes of the bodies of some keys.
abbrev pub bytes_of : List Text → Map Text (List ℕ) → ℕ
bytes_of [] m = 0
bytes_of (k ∷ ks) m = body_size (lookup k m) + bytes_of ks m

-- With these keys there is no room for one more entry of this size.
abbrev pub is_full : ℕ → List Text → Map Text (List ℕ) → Bool
is_full size ks m = leb 512 (length ks) || ltb 8388608 (bytes_of ks m + size)

-- Dropping the `n` oldest keys makes room, and dropping fewer does not.
pub record IsLeast (size : ℕ) (order : List Text) (m : Map Text (List ℕ)) (n : ℕ) : Type 0 where
  pub room : is_full size (drop n order) m ≡ false
  pub tight : (j : ℕ) → j < n → is_full size (drop j order) m ≡ true

bytes_of-remove :
    (old : Text) (ks : List Text) (m : Map Text (List ℕ))
    → member old ks ≡ false
    → bytes_of ks (remove old m) ≡ bytes_of ks m
unfolding any
bytes_of-remove old [] m h = refl
bytes_of-remove old (k ∷ ks) m h = ground (arith, bytes_of-remove old ks m, lookup-remove old k m)

member-drop :
    (k : Text) (n : ℕ) (ks : List Text) → member k ks ≡ false → member k (drop n ks) ≡ false
unfolding any
member-drop k zero ks h = h
member-drop k (suc n) [] h = h
member-drop k (suc n) (j ∷ ks) h = member-drop k n ks (ground (arith, h))

is_full-remove :
    (size : ℕ) (old : Text) (n : ℕ) (ks : List Text) (m : Map Text (List ℕ))
    → member old ks ≡ false
    → is_full size (drop n ks) (remove old m) ≡ is_full size (drop n ks) m
is_full-remove size old n ks m h =
    ap (λ b. leb 512 (length (drop n ks)) || ltb 8388608 (b + size))
      (bytes_of-remove old (drop n ks) m (member-drop old n ks h))

-- The total is the bytes of the keys in order.
total-bytes_of :
    (order : List Text) (m : Map Text (List ℕ)) (total : ℕ)
    → Agrees m order total
    → total ≡ bytes_of order m
unfolding any
total-bytes_of [] m total a = a.total_is ∙ empty_size m (λ k. a.keys k)
total-bytes_of (old ∷ rest) m total a =
    let (v, found) = oldest old rest m total a in
    let a' : Agrees (remove old m) rest (total - length v) =
      subst (λ (c : CidCache). Agrees c.map rest c.total_bytes)
        (drop_oldest-some old rest m total v found) (drop_oldest-Agrees old rest m total a) in
    let same = total-bytes_of rest (remove old m) (total - length v) a' in
    ground (
      arith,
      found,
      same,
      bytes_of-remove old rest m a.unique.0,
      a.total_is,
      size_of-remove old v m a.unique_keys found,
    )

IsLeast-suc :
    (size : ℕ) (old : Text) (rest : List Text) (m : Map Text (List ℕ)) (n : ℕ)
    → member old rest ≡ false
    → is_full size (old ∷ rest) m ≡ true
    → IsLeast size rest (remove old m) n
    → IsLeast size (old ∷ rest) m (suc n)
IsLeast-suc size old rest m n new full least = record {
  room = sym (is_full-remove size old n rest m new) ∙ least.room;
  tight = below;
}
  where
    below : (j : ℕ) → j < suc n → is_full size (drop j (old ∷ rest)) m ≡ true
    below zero h = full
    below (suc j) h = sym (is_full-remove size old j rest m new) ∙ least.tight j (omega arith)

make_room-full :
    (size : ℕ) (old : Text) (rest : List Text) (m : Map Text (List ℕ)) (total : ℕ) (v : List ℕ)
    → lookup old m ≡ some v
    → (leb max_entries (length (old ∷ rest)) || ltb max_bytes (total + size)) ≡ true
    → make_room size (old ∷ rest) m total ≡ make_room size rest (remove old m) (total - length v)
unfolding make_room
make_room-full size old rest m total v found full =
    rw (make_room, full)
      (ap (λ (c : CidCache). make_room size rest c.map c.total_bytes)
        (drop_oldest-some old rest m total v found))

member-remove :
    (k old : Text) (ks : List Text) (m : Map Text (List ℕ))
    → (if member k ks then none else lookup k (remove old m))
      ≡ (if member k (old ∷ ks) then none else lookup k m)
unfolding any
member-remove k old ks m =
    ground (arith, lookup-remove old k m, text_eq_iff old k, text_eq_iff k old)

-- Making room drops the oldest keys, no more than it must, and keeps the bodies of all others.
pub make_room-IsLeast :
    (size : ℕ) (order : List Text) (m : Map Text (List ℕ)) (total : ℕ)
    → size ≤ max_bytes
    → Agrees m order total
    → (n : ℕ) × IsLeast size order m n
      × ((k : Text)
          → lookup k (make_room size order m total).map
            ≡ (if member k (take n order) then none else lookup k m))
unfolding make_room any
make_room-IsLeast size [] m total le a =
    (0, record { room = ground arith; tight = λ j h. absurd (omega arith) }, λ k. refl)
make_room-IsLeast size (old ∷ rest) m total le a = elim (Bool-cases (is_full size (old ∷ rest) m)) [
  | inr room ↦ (
    0,
    record { room = room; tight = λ j h. absurd (omega arith) },
    λ k. ground (arith, room, total-bytes_of (old ∷ rest) m total a),
  )
  | inl full ↦
      let (v, found) = oldest old rest m total a in
      let a' : Agrees (remove old m) rest (total - length v) =
        subst (λ (c : CidCache). Agrees c.map rest c.total_bytes)
          (drop_oldest-some old rest m total v found) (drop_oldest-Agrees old rest m total a) in
      let (n, least, kept) = make_room-IsLeast size rest (remove old m) (total - length v) le a' in
      let by_total : (leb max_entries (length (old ∷ rest)) || ltb max_bytes (total + size))
          ≡ true =
        ground (arith, full, total-bytes_of (old ∷ rest) m total a) in
      (
        suc n,
        IsLeast-suc size old rest m n a.unique.0 full least,
        λ k.
            ap (λ (c : CidCache). lookup k c.map)
              (make_room-full size old rest m total v found by_total)
            ∙ kept k
            ∙ member-remove k old (take n rest) m,
      )
]
