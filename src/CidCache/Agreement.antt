-- ===== src/CidCache/Agreement.antt =====
-- The map, the order and the total of the cache agree, and making room keeps them so.
use hey_capsule.Prelude.{
  subst, beq_refl, ℕ, ◌+◌, ◌-◌, ◌≤◌, ◌<◌, ◌≡◌, refl, ◌∙◌, sym, ◌||◌, Bool, true, false, none, some,
  List, [], ◌∷◌, ◌++◌, Text, text_eq, text_eq_iff, text_key, Map, lookup, insert, remove,
  contains_key, any, length, IsMap, insert-IsMap, remove-IsMap, lookup-insert, lookup-remove,
  Bool-cases, Option-cases, inl, inr, arith,
}
use hey_capsule.CidCache.{max_entries, max_bytes, CidCache, drop_oldest, make_room}

abbrev pub size_of : Map Text (List ℕ) → ℕ
size_of [] = 0
size_of ((k, v) ∷ m) = length v + size_of m

abbrev pub member : Text → List Text → Bool
member k order = any (text_eq k) order

abbrev pub Unique : List Text → Type 0
Unique [] = Unit
Unique (k ∷ ks) = (member k ks ≡ false) × Unique ks

-- The map and the order hold the same keys, none twice, and the total is the map's size.
pub record Agrees (map : Map Text (List ℕ)) (order : List Text) (total : ℕ) : Type 0 where
  pub unique_keys : IsMap map
  pub unique : Unique order
  pub keys : (k : Text) → contains_key k map ≡ member k order
  pub total_is : total ≡ size_of map

pub size_of-insert :
    (k : Text) (v : List ℕ) (m : Map Text (List ℕ))
    → lookup k m ≡ none
    → size_of (insert k v m) ≡ size_of m + length v
unfolding lookup insert
size_of-insert k v [] h = omega arith
size_of-insert k v ((j, w) ∷ m) h = ground (arith, size_of-insert k v m)

size_of-remove-none :
    (k : Text) (m : Map Text (List ℕ)) → lookup k m ≡ none → size_of (remove k m) ≡ size_of m
unfolding lookup remove
size_of-remove-none k [] h = refl
size_of-remove-none k ((j, w) ∷ m) h = ground (arith, size_of-remove-none k m)

pub size_of-remove :
    (k : Text) (v : List ℕ) (m : Map Text (List ℕ))
    → IsMap m
    → lookup k m ≡ some v
    → size_of (remove k m) + length v ≡ size_of m
unfolding lookup remove
size_of-remove k v [] u h = ground arith
size_of-remove k v ((j, w) ∷ m) u h = elim (Bool-cases (text_eq j k)) [
  | inl same ↦
      let absent : lookup k m ≡ none = rw ((text_eq_iff j k).0 same) at u.0 in
      ground (arith, size_of-remove-none k m absent)
  | inr other ↦ ground (arith, size_of-remove k v m u.1)
]

member-append :
    (k j : Text) (order : List Text)
    → member k (order ++ (j ∷ [])) ≡ (member k order || text_eq k j)
unfolding any
member-append k j [] = ground arith
member-append k j (i ∷ is) = ground (arith, member-append k j is)

Unique-append :
    (k : Text) (order : List Text)
    → Unique order
    → member k order ≡ false
    → Unique (order ++ (k ∷ []))
unfolding any
Unique-append k [] u h = (refl, tt)
Unique-append k (i ∷ is) u h =
    ground
      (arith, Unique-append k is u.1, member-append i k is, text_eq_iff i k, text_eq_iff k i, u.0)

pub drop_oldest-some :
    (old : Text) (rest : List Text) (map : Map Text (List ℕ)) (total : ℕ) (v : List ℕ)
    → lookup old map ≡ some v
    → drop_oldest old rest map total
      ≡ record { map = remove old map; order = rest; total_bytes = total - length v }
unfolding drop_oldest
drop_oldest-some old rest map total v found = rw (drop_oldest, found) refl

-- The oldest key is in the map.
pub oldest :
    (old : Text) (rest : List Text) (map : Map Text (List ℕ)) (total : ℕ)
    → Agrees map (old ∷ rest) total
    → (v : List ℕ) × (lookup old map ≡ some v)
unfolding any
oldest old rest map total a =
    let here : contains_key old map ≡ true = a.keys old ∙ rw (beq_refl text_key old) refl in
    elim (Option-cases (lookup old map)) [
      | inl absent ↦ absurd (ground (arith, here))
      | inr found ↦ found
    ]

pub drop_oldest-Agrees :
    (old : Text) (rest : List Text) (map : Map Text (List ℕ)) (total : ℕ)
    → Agrees map (old ∷ rest) total
    → let c = drop_oldest old rest map total in Agrees c.map rest c.total_bytes
unfolding any
drop_oldest-Agrees old rest map total a =
    let (v, found) = oldest old rest map total a in
    subst (λ (c : CidCache). Agrees c.map rest c.total_bytes)
      (sym (drop_oldest-some old rest map total v found))
      (record {
        unique_keys = remove-IsMap old map a.unique_keys;
        unique = a.unique.1;
        keys = λ k. ground (
          arith,
          lookup-remove old k map,
          a.keys k,
          a.unique.0,
          text_eq_iff old k,
          text_eq_iff k old,
        );
        total_is = omega (arith, a.total_is, size_of-remove old v map a.unique_keys found);
      })

pub empty_size : (m : Map Text (List ℕ)) → ((k : Text) → contains_key k m ≡ false) → size_of m ≡ 0
unfolding lookup
empty_size [] h = refl
empty_size ((k, v) ∷ m) h = absurd (ground (arith, h k, beq_refl text_key k))

-- The loop leaves fewer entries than the bound, and room for `size` bytes.
pub make_room-Agrees :
    (size : ℕ) (order : List Text) (map : Map Text (List ℕ)) (total : ℕ)
    → size ≤ max_bytes
    → Agrees map order total
    → let c = make_room size order map total in
      Agrees c.map c.order c.total_bytes
      × (length c.order < max_entries)
      × (c.total_bytes + size ≤ max_bytes)
unfolding make_room any
make_room-Agrees size [] map total le a =
    (a, omega arith, omega (arith, a.total_is, empty_size map (λ k. a.keys k)))
make_room-Agrees size (old ∷ rest) map total le a =
    let c = drop_oldest old rest map total in
    ground (
      arith,
      a,
      make_room-Agrees size rest c.map c.total_bytes le (drop_oldest-Agrees old rest map total a),
    )

pub put-Agrees :
    (key : Text) (bytes : List ℕ) (c : CidCache)
    → lookup key c.map ≡ none
    → Agrees c.map c.order c.total_bytes
    → Agrees (insert key bytes c.map) (c.order ++ (key ∷ [])) (c.total_bytes + length bytes)
put-Agrees key bytes c absent a = record {
  unique_keys = insert-IsMap key bytes c.map a.unique_keys;
  unique = Unique-append key c.order a.unique (ground (arith, a.keys key, absent));
  keys = λ k. ground (
    arith,
    lookup-insert key k bytes c.map,
    a.keys k,
    member-append k key c.order,
    text_eq_iff key k,
    text_eq_iff k key,
  );
  total_is = omega (arith, a.total_is, size_of-insert key bytes c.map absent);
}
