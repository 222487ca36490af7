-- ===== src/CidCache/Bounds.antt =====
-- The bounds of the cache, and what a lookup finds.
use hey_capsule.Prelude.{
  ◌⊎◌, ◌≢◌, beq_ne, subst, beq_refl, ℕ, ◌+◌, ◌≤◌, ◌≡◌, refl, ap, ◌∙◌, sym, ◌||◌, Bool, true, false,
  none, some, List, [], ◌∷◌, ◌++◌, Text, text_eq, text_key, Map, lookup, insert, contains_key,
  length, ltb, if◌then◌else◌, lookup-insert, lookup-remove, length-append, any, take, Bool-cases,
  Option-cases, inl, inr, arith,
}
use hey_capsule.CidCache.{
  max_entries, max_bytes, max_entry_bytes, CidCache, get, drop_oldest, make_room, put,
}
use hey_capsule.CidCache.Eviction.{IsLeast, make_room-IsLeast}
use hey_capsule.CidCache.Agreement.{member, Agrees, drop_oldest-some, make_room-Agrees, put-Agrees}

pub record IsValid (c : CidCache) : Type 0 where
  pub agrees : Agrees c.map c.order c.total_bytes
  pub entries : length c.order ≤ max_entries
  pub bytes : c.total_bytes ≤ max_bytes

drop_oldest-none :
    (old : Text) (rest : List Text) (map : Map Text (List ℕ)) (total : ℕ)
    → lookup old map ≡ none
    → drop_oldest old rest map total ≡ record { map = map; order = rest; total_bytes = total }
unfolding drop_oldest
drop_oldest-none old rest map total absent = rw (drop_oldest, absent) refl

lookup-drop_oldest :
    (k old : Text) (rest : List Text) (map : Map Text (List ℕ)) (total : ℕ)
    → (lookup k (drop_oldest old rest map total).map ≡ none)
      ⊎ (lookup k (drop_oldest old rest map total).map ≡ lookup k map)
lookup-drop_oldest k old rest map total = elim (Option-cases (lookup old map)) [
  | inl absent ↦
      inr (ap (λ (c : CidCache). lookup k c.map) (drop_oldest-none old rest map total absent))
  | inr (v, found) ↦
      let e : lookup k (drop_oldest old rest map total).map
          ≡ (if text_eq old k then none else lookup k map) =
        ap (λ (c : CidCache). lookup k c.map) (drop_oldest-some old rest map total v found)
        ∙ lookup-remove old k map in
      elim (Bool-cases (text_eq old k)) [
        | inl same ↦ inl (e ∙ rw same refl)
        | inr other ↦ inr (e ∙ rw other refl)
      ]
]

-- Making room drops bodies, and changes none.
lookup-make_room :
    (k : Text) (size : ℕ) (order : List Text) (map : Map Text (List ℕ)) (total : ℕ)
    → (lookup k (make_room size order map total).map ≡ none)
      ⊎ (lookup k (make_room size order map total).map ≡ lookup k map)
unfolding make_room
lookup-make_room k size [] map total = inr refl
lookup-make_room k size (old ∷ rest) map total =
    let c = drop_oldest old rest map total in
    ground (
      arith,
      lookup-make_room k size rest c.map c.total_bytes,
      lookup-drop_oldest k old rest map total,
    )

abbrev pub is_refused : CidCache → Text → List ℕ → Bool
is_refused c key bytes = ltb 1048576 (length bytes) || contains_key key c.map

put_refused :
    (c : CidCache) (key : Text) (bytes : List ℕ)
    → is_refused c key bytes ≡ true
    → put c key bytes ≡ c
unfolding put
put_refused c key bytes e = rw (put, e) refl

put_added :
    (c : CidCache) (key : Text) (bytes : List ℕ)
    → is_refused c key bytes ≡ false
    → let room = make_room (length bytes) c.order c.map c.total_bytes in
      put c key bytes ≡ record {
        map = insert key bytes room.map;
        order = room.order ++ (key ∷ []);
        total_bytes = room.total_bytes + length bytes;
      }
unfolding put
put_added c key bytes e = rw (put, e) refl

-- The cache stays within 512 entries and 8 MiB, with a total that is the sum of the sizes of its
-- bodies and keys that are each in the map and once in the order, whatever is put into it.
pub put-IsValid :
    (c : CidCache) (key : Text) (bytes : List ℕ) → IsValid c → IsValid (put c key bytes)
put-IsValid c key bytes v = elim (Bool-cases (is_refused c key bytes)) [
  | inl kept ↦ subst IsValid (sym (put_refused c key bytes kept)) v
  | inr added ↦
      let room = make_room (length bytes) c.order c.map c.total_bytes in
      let fits : length bytes ≤ max_entry_bytes = ground arith in
      let absent : lookup key c.map ≡ none = ground arith in
      let (a, few, small) =
        make_room-Agrees (length bytes) c.order c.map c.total_bytes (omega arith) v.agrees in
      let absent' : lookup key room.map ≡ none =
        ground (arith, lookup-make_room key (length bytes) c.order c.map c.total_bytes) in
      subst IsValid (sym (put_added c key bytes added)) (record {
        agrees = put-Agrees key bytes room absent' a;
        entries = omega (arith, few, length-append room.order (key ∷ []));
        bytes = small;
      })
]

-- The number of the oldest keys that a `put` drops: none where it is refused, else the least with
-- which the new entry fits.
pub data Drops (c : CidCache) (key : Text) (bytes : List ℕ) (n : ℕ) : Type 0 where
  refused : is_refused c key bytes ≡ true → n ≡ 0 → Drops c key bytes n
  added :
      is_refused c key bytes ≡ false → IsLeast (length bytes) c.order c.map n → Drops c key bytes n

-- What a lookup finds after a `put` into a valid cache. For the key itself: the bytes, or what it
-- found before where the key was there or the bytes are more than 1 MiB. For another key: nothing
-- where it is among the oldest keys that are dropped, and else what it found before. Keys are dropped
-- only for an entry that is added, and no more of them than make it fit within 512 entries and 8 MiB.
pub get-put :
    (c : CidCache) (key k : Text) (bytes : List ℕ)
    → IsValid c
    → k ≢ key
    → (get (put c key bytes) key ≡ (if is_refused c key bytes then get c key else some bytes))
      × (n : ℕ) × Drops c key bytes n
      × (get (put c key bytes) k ≡ (if member k (take n c.order) then none else get c k))
unfolding get any
get-put c key k bytes v other = elim (Bool-cases (is_refused c key bytes)) [
  | inl kept ↦
      let e = put_refused c key bytes kept in
      (
        ap (λ (c : CidCache). lookup key c.map) e ∙ rw kept refl,
        0,
        refused kept refl,
        ap (λ (c : CidCache). lookup k c.map) e,
      )
  | inr new ↦
      let room = make_room (length bytes) c.order c.map c.total_bytes in
      let e = put_added c key bytes new in
      let fits : length bytes ≤ max_bytes = ground (arith, new) in
      let (n, least, kept) =
        make_room-IsLeast (length bytes) c.order c.map c.total_bytes fits v.agrees in
      (
        ap (λ (c : CidCache). lookup key c.map) e
            ∙ lookup-insert key key bytes room.map
            ∙ rw (beq_refl text_key key, new) refl,
        n,
        added new least,
        ap (λ (c : CidCache). lookup k c.map) e
            ∙ lookup-insert key k bytes room.map
            ∙ rw (beq_ne text_key key k (λ s. other (sym s))) refl
            ∙ kept k,
      )
]
