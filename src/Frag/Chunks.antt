-- ===== src/Frag/Chunks.antt =====
-- The chunks of a wire: their sizes, and that they add up to the wire.
use Prim.Native.Nat.add
use hey_capsule.Prelude.{
  ℕ, zero, suc, true, false, map, get_elem?, ◌+◌, ◌-◌, ◌*◌, ◌/◌, ◌≤◌, ◌<◌, ◌≡◌, refl, min, List, [],
  ◌∷◌, ◌++◌, leb, Bool-cases, inl, inr, append_assoc, append-nil, Text, All, Map, lookup, some,
  nat_eq, length, length-take, length-drop, drop, take-append-drop, arith, ap, sym, ◌∙◌,
}
use hey_capsule.Frag.{
  chunk_bytes, u32_mod, Fragment, Json, needs_fragment, pieces, fragment, cuts_character,
  is_char_boundary, div_ceil, chunk, fragment_at, count, fragments_from, fragments, join_parts,
}

drop_nil : (n : ℕ) → drop {A = ℕ} n [] ≡ []
drop_nil zero = refl
drop_nil (suc n) = refl

drop-drop : (a b : ℕ) (s : Text) → drop b (drop a s) ≡ drop (a + b) s
drop-drop zero b s = rw (add.zero b)
drop-drop (suc a) b [] = rw (drop_nil b, drop_nil (suc a + b))
drop-drop (suc a) b (c ∷ s) = rw (add.suc a b) (drop-drop a b s)

drop_all : (n : ℕ) (s : Text) → length s ≤ n → drop n s ≡ []
drop_all zero [] h = refl
drop_all zero (c ∷ s) h = absurd (omega arith)
drop_all (suc n) [] h = refl
drop_all (suc n) (c ∷ s) h = drop_all n s (omega arith)

pub length-chunk :
    (wire : Text) (i : ℕ) → length (chunk wire i) ≡ min chunk_bytes (length wire - i * chunk_bytes)
unfolding chunk
length-chunk wire i = omega (
  arith,
  length-take (min (i * chunk_bytes + chunk_bytes) (length wire) - i * chunk_bytes)
      (drop (i * chunk_bytes) wire),
  length-drop (i * chunk_bytes) wire,
)

rest_lem :
    (wire : Text) (i : ℕ)
    → drop
        (min (i * chunk_bytes + chunk_bytes) (length wire) - i * chunk_bytes)
        (drop (i * chunk_bytes) wire)
      ≡ drop ((i + 1) * chunk_bytes) wire
rest_lem wire i = elim (Bool-cases (leb ((i + 1) * chunk_bytes) (length wire))) [
  | inl full ↦
      let e : min (i * chunk_bytes + chunk_bytes) (length wire) - i * chunk_bytes ≡ chunk_bytes =
        ground arith in
      let e' : i * chunk_bytes + chunk_bytes ≡ (i + 1) * chunk_bytes = omega arith in
      rw e (drop-drop (i * chunk_bytes) chunk_bytes wire ∙ ap (λ n. drop n wire) e')
  | inr last ↦
      let short : length wire < (i + 1) * chunk_bytes = ground arith in
      drop_all _ (drop (i * chunk_bytes) wire) (omega (arith, length-drop (i * chunk_bytes) wire))
      ∙ sym (drop_all ((i + 1) * chunk_bytes) wire (omega arith))
]

chunk-append-drop :
    (wire : Text) (i : ℕ)
    → chunk wire i ++ drop ((i + 1) * chunk_bytes) wire ≡ drop (i * chunk_bytes) wire
unfolding chunk
chunk-append-drop wire i =
    let s = i * chunk_bytes in
    let k = min (s + chunk_bytes) (length wire) - s in
    let rest : drop k (drop s wire) ≡ drop ((i + 1) * chunk_bytes) wire = rest_lem wire i in
    rw (← rest) (take-append-drop k (drop s wire))

-- Every fragment of a list carries between one byte and `chunk_bytes` bytes.
abbrev pub Fits : Fragment → Type 0
Fits f = (0 < length f.d) × (length f.d ≤ chunk_bytes)

abbrev pub payload : List Fragment → Text
payload [] = []
payload (f ∷ fs) = f.d ++ payload fs

payload-fragments_from :
    (wire id : Text) (n i rounds : ℕ)
    → length wire ≤ (i + rounds) * chunk_bytes
    → payload (fragments_from wire id n i rounds) ≡ drop (i * chunk_bytes) wire
unfolding fragments_from fragment_at
payload-fragments_from wire id n i zero h = sym (drop_all _ wire (omega arith))
payload-fragments_from wire id n i (suc rounds) h =
    rw (payload-fragments_from wire id n (i + 1) rounds (omega arith)) (chunk-append-drop wire i)

fragments_from-Fits :
    (wire id : Text) (n i rounds : ℕ)
    → (i + rounds) * chunk_bytes < length wire + chunk_bytes
    → All Fits (fragments_from wire id n i rounds)
unfolding fragments_from fragment_at
fragments_from-Fits wire id n i zero h = tt
fragments_from-Fits wire id n i (suc rounds) h = (
  (omega (arith, length-chunk wire i), omega (arith, length-chunk wire i)),
  fragments_from-Fits wire id n (i + 1) rounds (omega arith),
)

length-fragments_from :
    (wire id : Text) (n i rounds : ℕ) → length (fragments_from wire id n i rounds) ≡ rounds
unfolding fragments_from
length-fragments_from wire id n i zero = refl
length-fragments_from wire id n i (suc rounds) =
    ap suc (length-fragments_from wire id n (i + 1) rounds)

-- The number of fragments does not wrap as long as it is a `u32`.
abbrev pub IsCountable : Text → Type 0
IsCountable wire = length wire ≤ chunk_bytes * (u32_mod - 1)

pub count_bounds :
    (wire : Text)
    → IsCountable wire
    → (length wire ≤ count wire * chunk_bytes)
      × (count wire * chunk_bytes < length wire + chunk_bytes)
      × (count wire < u32_mod)
unfolding count
count_bounds wire h = (omega arith, omega arith, omega arith)

pub count_lem : (wire : Text) → IsCountable wire → count wire ≡ (length wire + 2999) / 3000
unfolding count
count_lem wire h = omega arith

-- The fragments of a wire fit the gossip message, carry the wire in order, and are as many as the
-- header of each says: the least number of chunks that holds the wire.
pub fragments_lem :
    (id wire : Text)
    → IsCountable wire
    → All Fits (fragments id wire)
      × (payload (fragments id wire) ≡ wire)
      × (length (fragments id wire) ≡ div_ceil (length wire) chunk_bytes)
unfolding fragments count
fragments_lem id wire h =
    let (low, high, small) = count_bounds wire h in
    (
      fragments_from-Fits wire id _ 0 _ (omega (arith, count_bounds wire h)),
      payload-fragments_from wire id _ 0 _ (omega (arith, count_bounds wire h)),
      omega (arith, length-fragments_from wire id (count wire) 0 (count wire)),
    )

get_elem?-fragments_from :
    (f : Fragment → Text) (wire id : Text) (n j rounds i : ℕ)
    → i < rounds
    → get_elem? (map f (fragments_from wire id n j rounds)) i
      ≡ some (f (fragment_at wire id n (j + i)))
unfolding fragments_from
get_elem?-fragments_from f wire id n j zero i h = absurd (omega arith)
get_elem?-fragments_from f wire id n j (suc rounds) zero h =
    let e : j ≡ j + 0 = omega arith in ap (λ k. some (f (fragment_at wire id n k))) e
get_elem?-fragments_from f wire id n j (suc rounds) (suc i) h =
    let e : (j + 1) + i ≡ j + suc i = omega arith in
    get_elem?-fragments_from f wire id n (j + 1) rounds i (omega arith)
    ∙ ap (λ k. some (f (fragment_at wire id n k))) e

pub get_elem?-pieces :
    (json : Json) (wire id : Text) (i : ℕ)
    → needs_fragment wire ≡ true
    → i < count wire
    → get_elem? (pieces json id wire) i ≡ some (json.to_string (fragment_at wire id (count wire) i))
unfolding pieces fragments
get_elem?-pieces json wire id i big h =
    rw (pieces, big)
      (get_elem?-fragments_from json.to_string wire id (count wire) 0 (count wire) i h
        ∙ ap (λ k. some (json.to_string (fragment_at wire id (count wire) k))) (add.zero i))

length-map : (f : Fragment → Text) (fs : List Fragment) → length (map f fs) ≡ length fs
length-map f [] = refl
length-map f (g ∷ fs) = ap suc (length-map f fs)

pub length-pieces :
    (json : Json) (wire id : Text)
    → needs_fragment wire ≡ true
    → length (pieces json id wire) ≡ count wire
unfolding pieces fragments
length-pieces json wire id big =
    rw (pieces, big)
      (length-map json.to_string (fragments_from wire id (count wire) 0 (count wire))
        ∙ length-fragments_from wire id (count wire) 0 (count wire))

-- Text of single-byte characters.
abbrev pub IsAscii : Text → Type 0
IsAscii wire = All (λ c. c < 128) wire

is_char_boundary_ascii : (wire : Text) (i : ℕ) → IsAscii wire → is_char_boundary wire i ≡ true
is_char_boundary_ascii [] zero h = refl
is_char_boundary_ascii [] (suc i) h = refl
is_char_boundary_ascii (c ∷ wire) zero h = ground (arith, h.0)
is_char_boundary_ascii (c ∷ wire) (suc i) h = is_char_boundary_ascii wire i h.1

cuts_character_ascii :
    (wire : Text) (i rounds : ℕ) → IsAscii wire → cuts_character wire i rounds ≡ false
unfolding cuts_character
cuts_character_ascii wire i zero h = refl
cuts_character_ascii wire i (suc rounds) h =
    let start = i * chunk_bytes in
    let end = min (start + chunk_bytes) (length wire) in
    rw
      (
        is_char_boundary_ascii wire start h,
        is_char_boundary_ascii wire end h,
        cuts_character_ascii wire (i + 1) rounds h,
      )
      refl

-- ASCII text is cut without a panic.
pub fragment_ascii :
    (json : Json) (id wire : Text)
    → IsAscii wire
    → fragment json id wire ≡ some (pieces json id wire)
unfolding fragment
fragment_ascii json id wire h = elim (Bool-cases (needs_fragment wire)) [
  | inl big ↦ rw (fragment, big, cuts_character_ascii wire 0 (count wire) h) refl
  | inr small ↦ rw (fragment, small) refl
]

-- What `reassemble` joins from chunks that are all there.
pub join_parts-chunk :
    (wire acc : Text) (parts : Map ℕ Text) (i rounds : ℕ)
    → ((j : ℕ) → j < i + rounds → lookup j parts ≡ some (chunk wire j))
    → length wire ≤ (i + rounds) * chunk_bytes
    → join_parts parts i rounds acc ≡ some (acc ++ drop (i * chunk_bytes) wire)
unfolding join_parts
join_parts-chunk wire acc parts i zero h le =
    rw (drop_all (i * chunk_bytes) wire (omega arith), append-nil)
join_parts-chunk wire acc parts i (suc rounds) h le =
    rw (h i (omega arith), join_parts)
      (join_parts-chunk wire (acc ++ chunk wire i) parts (i + 1) rounds (λ j lt. h j (omega arith))
          (omega arith)
        ∙ rw (append_assoc, chunk-append-drop wire i))
