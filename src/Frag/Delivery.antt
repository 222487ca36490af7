-- ===== src/Frag/Delivery.antt =====
-- A wire that is cut into fragments arrives whole, once, whatever the order of its fragments and
-- whatever else arrives between them.
use hey_capsule.Prelude.{
  ℕ, suc, ◌+◌, ◌/◌, get_elem?, subst, sym, ◌∙◌, ◌≤◌, ◌<◌, ◌≡◌, refl, ◌⊎◌, inl, inr, true, false,
  Bool-cases, Option, none, some, List, [], ◌∷◌, Text, text_eq_iff, text_key, nat_eq, IsMap, lookup,
  insert, remove, retain, lookup-insert, lookup-remove, length-insert, lookup-retain,
  lookup-retain-none, elem, Distinct, All, elem_of_full, length-le_of_Distinct, arith, length,
  if◌then◌else◌, ◌==◌, ==_iff,
}
use hey_capsule.Frag.{
  tag, reassembly_ttl_ms, u32_mod, Json, needs_fragment, pieces, fragment, chunk, fragment_at,
  count, Partial, Buffer, is_fresh, entry, add_part, complete, accept, reassemble,
}
use hey_capsule.Frag.Chunks.{
  IsAscii, fragment_ascii, get_elem?-pieces, length-pieces, count_lem, IsCountable, count_bounds,
  join_parts-chunk,
}
use hey_capsule.Frag.Buffer.{
  IsForeign, lookup-reassemble_foreign, reassemble-IsMap, is_fresh_of_lt, accept-IsMap,
}

-- The entry `p` holds the chunks of `wire` whose indices are `done`, and nothing else.
record Holds (wire : Text) (t0 : ℕ) (done : List ℕ) (p : Partial) : Type 0 where
  total : p.n ≡ count wire
  started : t0 ≤ p.first_ms
  size : length p.parts ≡ length done
  held : (i : ℕ) → lookup i p.parts ≡ (if elem i done then some (chunk wire i) else none)

-- The buffer before, within and after the arrival of the fragments of `id`.
abbrev Progress : Text → Text → ℕ → List ℕ → Buffer → Type 0
Progress id wire t0 done buf =
    ((lookup id buf ≡ none) × ((done ≡ []) ⊎ (length done ≡ count wire)))
    ⊎ ((p : Partial) × (lookup id buf ≡ some p) × Holds wire t0 done p × (length done < count wire))

module _ (wire id : Text) (t0 : ℕ) where
  add_part-Holds :
      (i : ℕ) (done : List ℕ) (p : Partial)
      → elem i done ≡ false
      → Holds wire t0 done p
      → Holds wire t0 (i ∷ done) (add_part (fragment_at wire id (count wire) i) p)
  unfolding add_part fragment_at elem
  add_part-Holds i done p new h = record {
    total = h.total;
    started = h.started;
    size = ground (arith, length-insert i (chunk wire i) p.parts, h.held i, h.size);
    held = λ j. ground (arith, lookup-insert i j (chunk wire i) p.parts, h.held j, ==_iff i j);
  }

  entry-Holds :
      (t i : ℕ) (done : List ℕ) (buf : Buffer)
      → IsMap buf
      → t0 ≤ t
      → t < t0 + reassembly_ttl_ms
      → length done < count wire
      → Progress id wire t0 done buf
      → Holds wire t0 done (entry t (fragment_at wire id (count wire) i) (retain (is_fresh t) buf))
  unfolding entry fragment_at elem lookup
  entry-Holds t i done buf u from to short (inl (absent, inl e)) =
      rw (lookup-retain-none (is_fresh t) id buf absent, entry, e)
        (record { total = refl; started = from; size = refl; held = λ j. ground arith })
  entry-Holds t i done buf u from to short (inl (absent, inr e)) = absurd (omega arith)
  entry-Holds t i done buf u from to short (inr (p, here, h, _)) =
      let fresh : is_fresh t p ≡ true = is_fresh_of_lt t p (omega (arith, h.started)) in
      let kept : lookup id (retain (is_fresh t) buf) ≡ some p =
        ground (arith, lookup-retain (is_fresh t) id p buf u here) in
      rw (kept, entry) h

  -- The fragment that makes the set complete hands the wire on; every other is kept.
  complete-Holds :
      (done : List ℕ) (p : Partial) (m : Buffer)
      → IsCountable wire
      → Distinct done
      → All (λ i. i < count wire) done
      → Holds wire t0 done p
      → complete id p m
        ≡ (if length done == count wire then (remove id m, some wire) else (m, none))
  unfolding complete
  complete-Holds done p m c d b h = elim (Bool-cases (length done == count wire)) [
    | inl full ↦
        let joined =
          join_parts-chunk wire [] p.parts 0 (count wire)
            (λ j lt. held_all j (omega arith) (ground arith))
            (omega (arith, count_bounds wire c)) in
        ground (arith, joined, h.total, h.size, small)
    | inr part ↦ ground (arith, h.total, h.size, small)
  ]
    where
      small : length done < u32_mod
      small = omega (arith, length-le_of_Distinct (count wire) done b d, count_bounds wire c)

      held_all :
          (j : ℕ)
          → j < count wire
          → length done ≡ count wire
          → lookup j p.parts ≡ some (chunk wire j)
      held_all j lt e = ground (arith, h.held j, elem_of_full (count wire) j done b d e lt)

-- What happens at the receiver: a fragment of the wire arrives, or something else does.
pub data Event : Type 0 where
  arrives : ℕ → ℕ → Event
  other : ℕ → Text → Event

abbrev pub arrivals : List Event → ℕ
arrivals [] = 0
arrivals (arrives t i ∷ es) = suc (arrivals es)
arrivals (other t content ∷ es) = arrivals es

abbrev pub cons_some : Option Text → List Text → List Text
cons_some none ws = ws
cons_some (some w) ws = w ∷ ws

-- The wires that the messages `sent` bring forth, in order; what else arrives is only stored.
unfoldable pub deliver : Json → List Text → List Event → Buffer → List Text
deliver json sent [] buf = []
deliver json sent (arrives t i ∷ es) buf = elim (get_elem? sent i) [
  | none ↦ deliver json sent es buf
  | some content ↦
      let (buf', out) = reassemble json t content buf in cons_some out (deliver json sent es buf')
]
deliver json sent (other t content ∷ es) buf =
    deliver json sent es (reassemble json t content buf).0

-- None of the `n` fragments comes twice (`done` came before), all come within the TTL that begins at
-- `t0`, and what else comes is about other messages.
abbrev pub IsSchedule : Json → Text → ℕ → ℕ → List ℕ → List Event → Type 0
IsSchedule json id n t0 done [] = Unit
IsSchedule json id n t0 done (arrives t i ∷ es) =
    (t0 ≤ t)
    × (t < t0 + reassembly_ttl_ms)
    × (i < n)
    × (elem i done ≡ false)
    × IsSchedule json id n t0 (i ∷ done) es
IsSchedule json id n t0 done (other t content ∷ es) =
    (t0 ≤ t)
    × (t < t0 + reassembly_ttl_ms)
    × IsForeign json id content
    × IsSchedule json id n t0 done es

module _ (json : Json) (id wire : Text) where
  -- Fragments that differ are at most as many as there are.
  arrivals-le :
      (t0 : ℕ) (done : List ℕ) (es : List Event)
      → Distinct done
      → All (λ i. i < count wire) done
      → IsSchedule json id (count wire) t0 done es
      → length done + arrivals es ≤ count wire
  arrivals-le t0 done [] d b s = omega (arith, length-le_of_Distinct (count wire) done b d)
  arrivals-le t0 done (arrives t i ∷ es) d b s =
      omega (arith, arrivals-le t0 (i ∷ done) es (s.3, d) (s.2, b) s.4)
  arrivals-le t0 done (other t content ∷ es) d b s = arrivals-le t0 done es d b s.3

  -- The wire comes forth when the last of its fragments arrives, and not before.
  abbrev expected : List ℕ → List Event → List Text
  expected done es =
      if length done == count wire
      then []
      else if length done + arrivals es == count wire
      then wire ∷ []
      else []

  reassemble-fragment_at :
      (t i : ℕ) (buf : Buffer)
      → reassemble json t (json.to_string (fragment_at wire id (count wire) i)) buf
        ≡ accept t (fragment_at wire id (count wire) i) buf
  unfolding reassemble fragment_at
  reassemble-fragment_at t i buf =
      rw (json.from_str-to_string (fragment_at wire id (count wire) i), reassemble)
        (ground (arith, text_eq_iff tag tag))

  complete-Progress :
      (t0 : ℕ) (done : List ℕ) (p : Partial) (m : Buffer)
      → IsCountable wire
      → Distinct done
      → All (λ i. i < count wire) done
      → Holds wire t0 done p
      → lookup id m ≡ some p
      → Progress id wire t0 done (complete id p m).0
        × ((complete id p m).1 ≡ (if length done == count wire then some wire else none))
  complete-Progress t0 done p m c d b h here =
      let e = complete-Holds wire id t0 done p m c d b h in
      let bound = length-le_of_Distinct (count wire) done b d in
      elim (Bool-cases (length done == count wire)) [
        | inl full ↦
            rw (e, full)
              (
                inl (ground (arith, lookup-remove id id m, text_eq_iff id id), inr (ground arith)),
                refl,
              )
        | inr part ↦ rw (e, part) (inr (p, here, h, ground (arith, bound)), refl)
      ]

  foreign-Progress :
      (t0 t : ℕ) (content : Text) (done : List ℕ) (buf : Buffer)
      → IsMap buf
      → t0 ≤ t
      → t < t0 + reassembly_ttl_ms
      → IsForeign json id content
      → Progress id wire t0 done buf
      → Progress id wire t0 done (reassemble json t content buf).0
  foreign-Progress t0 t content done buf u from to foreign (inl (absent, where_)) =
      inl ((lookup-reassemble_foreign json t content id buf u foreign).0 absent, where_)
  foreign-Progress t0 t content done buf u from to foreign (inr (p, here, h, short)) = inr (
    p,
    (lookup-reassemble_foreign json t content id buf u foreign).1 p here (omega (arith, h.started)),
    h,
    short,
  )

  accept-Progress :
      (t0 t i : ℕ) (done : List ℕ) (buf : Buffer)
      → IsCountable wire
      → IsMap buf
      → t0 ≤ t
      → t < t0 + reassembly_ttl_ms
      → Distinct (i ∷ done)
      → All (λ i. i < count wire) (i ∷ done)
      → Progress id wire t0 done buf
      → let r = accept t (fragment_at wire id (count wire) i) buf in
        Progress id wire t0 (i ∷ done) r.0
        × (r.1 ≡ (if length (i ∷ done) == count wire then some wire else none))
  unfolding accept fragment_at
  accept-Progress t0 t i done buf c u from to d b s =
      let f = fragment_at wire id (count wire) i in
      let m = retain (is_fresh t) buf in
      let bound = length-le_of_Distinct (count wire) (i ∷ done) b d in
      let h =
        add_part-Holds wire id t0 i done (entry t f m) d.0
          (entry-Holds wire id t0 t i done buf u from to (omega (arith, bound)) s) in
      let p = add_part f (entry t f m) in
      complete-Progress t0 (i ∷ done) p (insert id p m) c d b h
        (ground (arith, lookup-insert id id p m, text_eq_iff id id))

  deliver_lem :
      (t0 : ℕ) (done : List ℕ) (es : List Event) (buf : Buffer)
      → needs_fragment wire ≡ true
      → IsCountable wire
      → IsMap buf
      → Distinct done
      → All (λ i. i < count wire) done
      → Progress id wire t0 done buf
      → IsSchedule json id (count wire) t0 done es
      → deliver json (pieces json id wire) es buf ≡ expected done es
  unfolding deliver
  deliver_lem t0 done [] buf big c u d b p s = ground arith
  deliver_lem t0 done (arrives t i ∷ es) buf big c u d b p s =
      let f = fragment_at wire id (count wire) i in
      let (p', out) = accept-Progress t0 t i done buf c u s.0 s.1 (s.3, d) (s.2, b) p in
      let u' = accept-IsMap t f buf u in
      let rest =
        deliver_lem t0 (i ∷ done) es (accept t f buf).0 big c u' (s.3, d) (s.2, b) p' s.4 in
      let bound = arrivals-le t0 (i ∷ done) es (s.3, d) (s.2, b) s.4 in
      rw
        (
          deliver,
          get_elem?-pieces json wire id i big s.2,
          reassemble-fragment_at t i buf,
          out,
          rest,
        )
        (ground (arith, bound))
  deliver_lem t0 done (other t content ∷ es) buf big c u d b p s =
      deliver_lem t0 done es (reassemble json t content buf).0 big c
        (reassemble-IsMap json t content buf u) d b
        (foreign-Progress t0 t content done buf u s.0 s.1 s.2 p) s.3

-- `fragment` and `reassemble` are inverse over an unreliable order. A wire of more than 3000 bytes
-- of ASCII is cut without a panic, into as few messages as hold it, and from an empty entry
-- these bring forth that wire alone, when the last of them has arrived and not before, whatever the
-- order in which they come and whatever else comes between them. The conditions: no message comes
-- twice, all come within the TTL that begins at `t0`, what comes between them is of other ids, and
-- there are fewer than 2 ^ 32 of them.
pub deliver-fragment :
    (json : Json) (id wire : Text) (t0 : ℕ) (es : List Event) (buf : Buffer)
    → 3000 < length wire
    → IsAscii wire
    → IsCountable wire
    → IsMap buf
    → lookup id buf ≡ none
    → IsSchedule json id ((length wire + 2999) / 3000) t0 [] es
    → (sent : List Text) × (fragment json id wire ≡ some sent)
      × (length sent ≡ (length wire + 2999) / 3000)
      × (deliver json sent es buf ≡ (if arrivals es == length sent then wire ∷ [] else []))
unfolding needs_fragment
deliver-fragment json id wire t0 es buf over ascii c u new s =
    let big : needs_fragment wire ≡ true = ground (arith, over) in
    let as_few : count wire ≡ (length wire + 2999) / 3000 = count_lem wire c in
    let many = length-pieces json wire id big in
    let schedule = subst (λ n. IsSchedule json id n t0 [] es) (sym as_few) s in
    let run = deliver_lem json id wire t0 [] es buf big c u tt tt (inl (new, inl refl)) schedule in
    (
      pieces json id wire,
      fragment_ascii json id wire ascii,
      many ∙ as_few,
      ground (arith, run, many, count_bounds wire c),
    )
