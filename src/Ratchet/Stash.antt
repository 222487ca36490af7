-- ===== src/Ratchet/Stash.antt =====
-- The stash of skipped message keys: what is found in it, and what eviction takes away.
use hey_capsule.Prelude.{
  ℕ, suc, ◌+◌, ◌-◌, ◌<◌, ◌≤◌, ◌≡◌, refl, ◌≢◌, ◌||◌, List, [], ◌∷◌, ◌++◌, Text, leb, Bool-cases,
  text_eq_iff, ==_iff, none, some, is_some, All, filter, length, length-drop, arith, Option-cases,
  inl, inr,
}
use hey_capsule.Ratchet.State.{
  SkippedKey, take_key, is_key, evict_skipped, max_skipped_keys, skipped_ttl_ms,
}

-- A key that is found is the key asked for, and one of the stash.
pub take_key-All :
    (P : SkippedKey → Type 0) (dh : Text) (n : ℕ) (ks : List SkippedKey) {k : SkippedKey}
    {rest : List SkippedKey}
    → take_key dh n ks ≡ some (k, rest)
    → All P ks
    → (k.dh ≡ dh) × (k.n ≡ n) × P k × All P rest × (length ks ≡ suc (length rest))
unfolding take_key
take_key-All P dh n [] e h = cc
take_key-All P dh n (x ∷ ks) e h = elim (Bool-cases (is_key dh n x)) [
  | inl here ↦ ground (arith, text_eq_iff x.dh dh, ==_iff x.n n)
  | inr there ↦ elim (Option-cases (take_key dh n ks)) [
    | inl missing ↦ ground arith
    | inr ((k', rest'), found) ↦ ground (arith, take_key-All P dh n ks found h.1)
  ]
]

pub take_key-append :
    (dh : Text) (n : ℕ) (ks ls : List SkippedKey)
    → is_some (take_key dh n (ks ++ ls))
      ≡ (is_some (take_key dh n ks) || is_some (take_key dh n ls))
unfolding take_key
take_key-append dh n [] ls = refl
take_key-append dh n (x ∷ ks) ls = ground (arith, take_key-append dh n ks ls)

-- Taking the key of one message leaves those of the others.
pub take_key_ne :
    (dh : Text) (n m : ℕ) (ks : List SkippedKey) {k : SkippedKey} {rest : List SkippedKey}
    → take_key dh n ks ≡ some (k, rest)
    → n ≢ m
    → is_some (take_key dh m rest) ≡ is_some (take_key dh m ks)
unfolding take_key
take_key_ne dh n m [] e h = cc
take_key_ne dh n m (x ∷ ks) e h = elim (Option-cases (take_key dh n ks)) [
  | inl missing ↦ ground (arith, ==_iff x.n n, ==_iff x.n m)
  | inr ((k', rest'), found) ↦
      ground (arith, ==_iff x.n n, ==_iff x.n m, take_key_ne dh n m ks found h)
]

-- No key is stashed for a message that lies ahead.
pub take_key_above :
    (dh : Text) (n nr : ℕ) (ks : List SkippedKey)
    → All (λ k. k.n < nr) ks
    → nr ≤ n
    → take_key dh n ks ≡ none
unfolding take_key
take_key_above dh n nr [] h le = refl
take_key_above dh n nr (x ∷ ks) h le = ground (arith, take_key_above dh n nr ks h.1 le)

-- Eviction bounds the stash, and takes nothing from a young stash within the bound.
pub length-evict_skipped :
    (now : ℕ) (ks : List SkippedKey) → length (evict_skipped now ks) ≤ max_skipped_keys
unfolding evict_skipped
length-evict_skipped now ks = omega (
  arith,
  length-drop
      (length (filter (λ (k : SkippedKey). leb now (k.stored_at + skipped_ttl_ms)) ks)
        - max_skipped_keys)
      (filter (λ (k : SkippedKey). leb now (k.stored_at + skipped_ttl_ms)) ks),
)

filter_young :
    (now : ℕ) (ks : List SkippedKey)
    → All (λ k. now ≤ k.stored_at + skipped_ttl_ms) ks
    → filter (λ (k : SkippedKey). leb now (k.stored_at + skipped_ttl_ms)) ks ≡ ks
unfolding filter
filter_young now [] h = refl
filter_young now (x ∷ ks) h = ground (arith, filter_young now ks h.1)

pub evict_skipped_young :
    (now : ℕ) (ks : List SkippedKey)
    → All (λ k. now ≤ k.stored_at + skipped_ttl_ms) ks
    → length ks ≤ max_skipped_keys
    → evict_skipped now ks ≡ ks
unfolding evict_skipped
evict_skipped_young now ks h le =
    let e : length ks - max_skipped_keys ≡ 0 = omega arith in rw (filter_young now ks h, e)
