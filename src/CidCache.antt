-- ===== src/CidCache.antt =====
-- The cache of content bodies in capsules/hey-core/src/runtime.rs: `CidCache` and `cache_key`. The
-- map is an association list, and sizes are exact.
pub mod Agreement
pub mod Eviction
pub mod Bounds
mod Tests
use hey_capsule.Prelude.{
  ℕ, ◌+◌, ◌-◌, ◌*◌, ◌||◌, Option, none, some, List, [], ◌∷◌, ◌++◌, Text, text_key, Map, lookup,
  insert, remove, contains_key, length, leb, ltb, if◌then◌else◌,
}

abbrev pub max_entries : ℕ
max_entries = 512

abbrev pub max_bytes : ℕ
max_bytes = 8 * 1024 * 1024

abbrev pub max_entry_bytes : ℕ
max_entry_bytes = 1024 * 1024

pub record CidCache : Type 0 where
  pub map : Map Text (List ℕ)
  pub order : List Text
  pub total_bytes : ℕ

unfoldable pub get : CidCache → Text → Option (List ℕ)
get c key = lookup key c.map

-- One round of the loop: the oldest key goes, with its bytes.
unfoldable pub drop_oldest : Text → List Text → Map Text (List ℕ) → ℕ → CidCache
drop_oldest old rest map total = elim (lookup old map) [
  | some v ↦ record { map = remove old map; order = rest; total_bytes = total - length v }
  | none ↦ record { map = map; order = rest; total_bytes = total }
]

-- The loop that makes room for `size` more bytes; each round shortens the order.
unfoldable pub make_room : ℕ → List Text → Map Text (List ℕ) → ℕ → CidCache
make_room size [] map total = record { map = map; order = []; total_bytes = total }
make_room size (old ∷ rest) map total =
    if leb max_entries (length (old ∷ rest)) || ltb max_bytes (total + size)
    then (let c = drop_oldest old rest map total in make_room size rest c.map c.total_bytes)
    else record { map = map; order = old ∷ rest; total_bytes = total }

unfoldable pub put : CidCache → Text → List ℕ → CidCache
put c key bytes =
    if ltb max_entry_bytes (length bytes) || contains_key key c.map
    then c
    else (let room = make_room (length bytes) c.order c.map c.total_bytes in
        record {
          map = insert key bytes room.map;
          order = room.order ++ (key ∷ []);
          total_bytes = room.total_bytes + length bytes;
        })

-- The unit separator joins the parts of a key.
unfoldable pub cache_key : Text → Option Text → Text
cache_key cid (some path) = cid ++ (31 ∷ path)
cache_key cid none = cid
