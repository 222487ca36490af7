-- ===== src/Frag.antt =====
-- Fragmentation of oversized gossip wires: capsules/hey-core/src/api/frag.rs.
-- A wire is the list of its UTF-8 bytes. `serde_json` is the parameter `Json`; the fresh uuid of a wire and the
-- clock are arguments. The thread-local map `BUF` is the buffer that `reassemble` takes and returns.
-- Times are milliseconds since the epoch, so that `-` on ℕ decides the comparison with the TTL as
-- signed subtraction does.
pub mod Chunks
pub mod Buffer
pub mod Delivery
pub mod Codec
mod Tests
use hey_capsule.Prelude.{
  ℕ, zero, suc, ◌+◌, ◌-◌, ◌*◌, ◌/◌, ◌%◌, ◌^◌, ◌≡◌, min, Bool, false, not, ◌&&◌, ◌||◌, Option, none,
  some, List, [], ◌∷◌, ◌++◌, map, Text, codes, text_eq, text_key, nat_eq, Map, lookup, insert,
  remove, retain, length, take, drop, ltb, ◌==◌, if◌then◌else◌,
}
use hey_capsule.Identity.Hex.{on_boundary}

abbrev pub chunk_bytes : ℕ
chunk_bytes = 3000

abbrev pub reassembly_ttl_ms : ℕ
reassembly_ttl_ms = 120_000

abbrev pub tag : Text
tag = codes "hcfrag1"

abbrev pub u32_mod : ℕ
u32_mod = 2 ^ 32

pub record Fragment : Type 0 where
  pub t : Text
  pub id : Text
  pub i : ℕ
  pub n : ℕ
  pub d : Text

-- `serde_json::to_string` and `from_str` at the type `Fragment`.
pub record Json : Type 0 where
  pub to_string : Fragment → Text
  pub from_str : Text → Option Fragment
  pub from_str-to_string : (f : Fragment) → from_str (to_string f) ≡ some f

unfoldable pub needs_fragment : Text → Bool
needs_fragment wire = ltb chunk_bytes (length wire)

abbrev pub div_ceil : ℕ → ℕ → ℕ
div_ceil a b = (a + b - 1) / b

abbrev pub slice : Text → ℕ → ℕ → Text
slice s start end = take (end - start) (drop start s)

-- `wire.is_char_boundary(i)`.
abbrev pub is_char_boundary : Text → ℕ → Bool
is_char_boundary wire i = on_boundary (drop i wire)

-- Whether a slice `wire[start..end]` of the loop from fragment `i` on panics, since it cuts a
-- character.
pub cuts_character : Text → ℕ → ℕ → Bool
cuts_character wire i zero = false
cuts_character wire i (suc rounds) =
    let start = i * chunk_bytes in
    let end = min (start + chunk_bytes) (length wire) in
    not (is_char_boundary wire start && is_char_boundary wire end)
    || cuts_character wire (i + 1) rounds

-- The bytes of fragment `i`, where the slice does not panic.
pub chunk : Text → ℕ → Text
chunk wire i =
    let start = i * chunk_bytes in slice wire start (min (start + chunk_bytes) (length wire))

pub fragment_at : Text → Text → ℕ → ℕ → Fragment
fragment_at wire id n i = record { t = tag; id = id; i = i; n = n; d = chunk wire i }

pub count : Text → ℕ
count wire = div_ceil (length wire) chunk_bytes % u32_mod

-- The loop `for i in i..i + rounds`.
pub fragments_from : Text → Text → ℕ → ℕ → ℕ → List Fragment
fragments_from wire id n i zero = []
fragments_from wire id n i (suc rounds) =
    fragment_at wire id n i ∷ fragments_from wire id n (i + 1) rounds

pub fragments : Text → Text → List Fragment
fragments id wire = fragments_from wire id (count wire) 0 (count wire)

-- What `fragment` gives where no slice panics.
unfoldable pub pieces : Json → Text → Text → List Text
pieces json id wire =
    if needs_fragment wire then map json.to_string (fragments id wire) else wire ∷ []

-- `none` is the panic.
unfoldable pub fragment : Json → Text → Text → Option (List Text)
fragment json id wire =
    if needs_fragment wire && cuts_character wire 0 (count wire)
    then none
    else some (pieces json id wire)

pub record Partial : Type 0 where
  pub n : ℕ
  pub parts : Map ℕ Text
  pub first_ms : ℕ

abbrev pub Buffer : Type 0
Buffer = Map Text Partial

pub is_fresh : ℕ → Partial → Bool
is_fresh now p = ltb (now - p.first_ms) reassembly_ttl_ms

-- `entry(id).or_insert_with(..)`.
pub entry : ℕ → Fragment → Buffer → Partial
entry now f m = elim (lookup f.id m) [
  | none ↦ record { n = f.n; parts = []; first_ms = now }
  | some p ↦ p
]

-- `p.parts.insert(frag.i, frag.d)`.
pub add_part : Fragment → Partial → Partial
add_part f p = record p { parts = insert f.i f.d p.parts }

-- The chunks `i..i + rounds`, in index order behind `wire`; `none` at a gap.
pub join_parts : Map ℕ Text → ℕ → ℕ → Text → Option Text
join_parts parts i zero wire = some wire
join_parts parts i (suc rounds) wire = elim (lookup i parts) [
  | none ↦ none
  | some c ↦ join_parts parts (i + 1) rounds (wire ++ c)
]

-- `p` is the entry of `id` in `m` after the insertion.
pub complete : Text → Partial → Buffer → Buffer × Option Text
complete id p m =
    if length p.parts % u32_mod == p.n
    then (elim (join_parts p.parts 0 p.n []) [
      | none ↦ (m, none)
      | some wire ↦ (remove id m, some wire)
    ])
    else (m, none)

pub accept : ℕ → Fragment → Buffer → Buffer × Option Text
accept now f buf =
    let m = retain (is_fresh now) buf in
    let p = add_part f (entry now f m) in complete f.id p (insert f.id p m)

pub reassemble : Json → ℕ → Text → Buffer → Buffer × Option Text
reassemble json now content buf = elim (json.from_str content) [
  | none ↦ (buf, some content)
  | some f ↦ if text_eq f.t tag then accept now f buf else (buf, some content)
]
