-- ===== src/Frag/Buffer.antt =====
-- The reassembly buffer: one entry for each id, none of them stale, and messages that do not mix.
use hey_capsule.Prelude.{
  ℕ, ◌-◌, ◌<◌, ◌≡◌, ◌∙◌, ◌≢◌, inl, inr, true, none, some, Text, text_eq_iff, text_key, IsMap,
  lookup, insert, retain, lookup-insert, lookup-remove, lookup-retain, lookup-retain-none,
  retain-IsMap, insert-IsMap, remove-IsMap, arith, Option-cases,
}
use hey_capsule.Frag.{
  reassembly_ttl_ms, Fragment, Json, Partial, Buffer, is_fresh, entry, add_part, complete, accept,
  reassemble,
}

complete-IsMap : (id : Text) (p : Partial) (m : Buffer) → IsMap m → IsMap (complete id p m).0
unfolding complete
complete-IsMap id p m u = ground (arith, remove-IsMap id m u)

pub accept-IsMap : (now : ℕ) (f : Fragment) (buf : Buffer) → IsMap buf → IsMap (accept now f buf).0
unfolding accept
accept-IsMap now f buf u =
    complete-IsMap f.id _ _ (insert-IsMap f.id _ _ (retain-IsMap (is_fresh now) buf u))

-- A buffer holds one entry for each id, whatever arrives.
pub reassemble-IsMap :
    (json : Json) (now : ℕ) (content : Text) (buf : Buffer)
    → IsMap buf
    → IsMap (reassemble json now content buf).0
unfolding reassemble
reassemble-IsMap json now content buf u = elim (Option-cases (json.from_str content)) [
  | inl plain ↦ rw (plain, reassemble) u
  | inr (f, e) ↦ rw (e, reassemble) (ground (arith, accept-IsMap now f buf u))
]

lookup-complete_ne :
    (id j : Text) (p : Partial) (m : Buffer) → id ≢ j → lookup j (complete id p m).0 ≡ lookup j m
unfolding complete
lookup-complete_ne id j p m h = ground (arith, lookup-remove id j m, text_eq_iff id j)

lookup-insert_ne :
    (id j : Text) (p : Partial) (m : Buffer) → id ≢ j → lookup j (insert id p m) ≡ lookup j m
lookup-insert_ne id j p m h = ground (arith, lookup-insert id j p m, text_eq_iff id j)

pub is_fresh_of_lt :
    (now : ℕ) (p : Partial) → now - p.first_ms < reassembly_ttl_ms → is_fresh now p ≡ true
unfolding is_fresh
is_fresh_of_lt now p h = ground arith

lookup-accept_ne :
    (now : ℕ) (f : Fragment) (buf : Buffer) (j : Text)
    → f.id ≢ j
    → lookup j (accept now f buf).0 ≡ lookup j (retain (is_fresh now) buf)
unfolding accept
lookup-accept_ne now f buf j h =
    let m = retain (is_fresh now) buf in
    let p = add_part f (entry now f m) in
    lookup-complete_ne f.id j p (insert f.id p m) h ∙ lookup-insert_ne f.id j p m h

-- What arrives is no fragment of the message `id`.
abbrev pub IsForeign : Json → Text → Text → Type 0
IsForeign json id content = (f : Fragment) → json.from_str content ≡ some f → f.id ≢ id

-- Messages do not mix: a wire or fragment of another message leaves the chunks of this one alone
-- while they are within the TTL, and starts no entry for it.
pub lookup-reassemble_foreign :
    (json : Json) (now : ℕ) (content id : Text) (buf : Buffer)
    → IsMap buf
    → IsForeign json id content
    → (lookup id buf ≡ none → lookup id (reassemble json now content buf).0 ≡ none)
      × ((p : Partial)
          → lookup id buf ≡ some p
          → now - p.first_ms < reassembly_ttl_ms
          → lookup id (reassemble json now content buf).0 ≡ some p)
unfolding reassemble
lookup-reassemble_foreign json now content id buf u foreign =
    elim (Option-cases (json.from_str content)) [
      | inl plain ↦ rw (plain, reassemble) ((λ h. h), λ p h fresh. h)
      | inr (f, e) ↦
          rw (e, reassemble)
            (
              (λ h. ground (
                arith,
                lookup-accept_ne now f buf id (foreign f e),
                lookup-retain-none (is_fresh now) id buf h,
              )),
              λ p h fresh. ground (
                arith,
                lookup-accept_ne now f buf id (foreign f e),
                lookup-retain (is_fresh now) id p buf u h,
                is_fresh_of_lt now p fresh,
              ),
            )
    ]
