-- ===== src/Ratchet/Order.antt =====
-- The messages of one chain may arrive in any order: each opens with the key that sealed it.
use hey_capsule.Prelude.{
  ℕ, zero, suc, ◌+◌, ◌-◌, ◌<◌, ◌≤◌, ◌≡◌, refl, ap, ◌∙◌, true, false, Bool-cases, ltb, List, ◌∷◌,
  ◌++◌, Text, text_eq_iff, some, is_some, Option-cases, ok, All, All-append, All-mono, elem, length,
  length-append, inl, inr, arith, ==_iff, ◌==◌,
}
use hey_capsule.Identity.Hex.{IsKey, bytes_to_hex}
use hey_capsule.Crypto.Kdf.{Bytes, Primitives, Documented}
use hey_capsule.Ratchet.State.{
  max_skip, skipped_ttl_ms, u32_max, SkippedKey, RatchetState, evict_skipped, take_key, try_skipped,
}
use hey_capsule.Ratchet.Steps.{skip_message_keys, chain_step}
use hey_capsule.Ratchet.Chain.{
  b32-bytes_to_hex, chain_key, message_key, stash, skip_loop-stash, chain_key-IsKey,
  message_key-IsKey,
}
use hey_capsule.Ratchet.Stash.{take_key-All, take_key-append, take_key_ne, evict_skipped_young}

-- The receiver stands at message `nr` of the chain `ck` under the peer's ratchet key `dh`, and its
-- stash holds only keys of messages before.
pub record Tracks (p : Primitives) (ck : Bytes) (dh : Text) (st : RatchetState) : Type 0 where
  pub chain : st.ckr ≡ some (bytes_to_hex (chain_key p ck st.nr))
  pub epoch : st.dhr_pub ≡ some dh
  pub keys : All (λ k. k.mk ≡ bytes_to_hex (message_key p ck k.n)) st.skipped
  pub behind : All (λ k. k.n < st.nr) st.skipped

module _ (p : Primitives) (d : Documented p) where
  pub skip_message_keys_lem :
      (ck : Bytes) (dh : Text) (now n : ℕ) (st : RatchetState)
      → IsKey ck
      → st.ckr ≡ some (bytes_to_hex (chain_key p ck st.nr))
      → st.dhr_pub ≡ some dh
      → st.nr ≤ n
      → n ≤ st.nr + max_skip
      → n < u32_max
      → skip_message_keys p now st n
        ≡ ok (record st {
          nr = n;
          ckr = some (bytes_to_hex (chain_key p ck n));
          skipped = evict_skipped now (st.skipped ++ stash p now dh ck st.nr (n - st.nr));
        })
  unfolding skip_message_keys
  skip_message_keys_lem ck dh now n st k chain epoch from to lt =
      let e : st.nr + (n - st.nr) ≡ n = omega arith in
      let start = b32-bytes_to_hex (chain_key p ck st.nr) (chain_key-IsKey p d ck st.nr k) in
      let loop =
        skip_loop-stash p (n - st.nr) now dh ck st.nr st.skipped
        ∙ ap (λ m. (chain_key p ck m, st.skipped ++ stash p now dh ck st.nr (n - st.nr))) e in
      ground (arith, start, loop, e)

  chain_step_lem :
      (ck : Bytes) (dh : Text) (now n : ℕ) (st : RatchetState)
      → IsKey ck
      → st.ckr ≡ some (bytes_to_hex (chain_key p ck st.nr))
      → st.dhr_pub ≡ some dh
      → st.nr ≤ n
      → n ≤ st.nr + max_skip
      → n < u32_max
      → chain_step p now st n
        ≡ ok (
          message_key p ck n,
          record st {
            nr = suc n;
            ckr = some (bytes_to_hex (chain_key p ck (suc n)));
            skipped = evict_skipped now (st.skipped ++ stash p now dh ck st.nr (n - st.nr));
          },
        )
  unfolding chain_step chain_key message_key
  chain_step_lem ck dh now n st k chain epoch from to lt =
      rw
        (
          skip_message_keys_lem ck dh now n st k chain epoch from to lt,
          b32-bytes_to_hex (chain_key p ck n) (chain_key-IsKey p d ck n k),
        )
        (ground arith)

  stash-All :
      (P : SkippedKey → Type 0) (now : ℕ) (dh : Text) (ck : Bytes) (nr rounds : ℕ)
      → ((m : ℕ)
          → nr ≤ m
          → m < nr + rounds
          → P (record { dh = dh; n = m; mk = bytes_to_hex (message_key p ck m); stored_at = now }))
      → All P (stash p now dh ck nr rounds)
  unfolding stash
  stash-All P now dh ck nr zero h = tt
  stash-All P now dh ck nr (suc rounds) h = (
    h nr (omega arith) (omega arith),
    stash-All P now dh ck (suc nr) rounds (λ m from to. h m (omega arith) (omega arith)),
  )

  take_key-stash :
      (now : ℕ) (dh : Text) (ck : Bytes) (nr rounds m : ℕ)
      → nr ≤ m
      → m < nr + rounds
      → is_some (take_key dh m (stash p now dh ck nr rounds)) ≡ true
  unfolding stash take_key
  take_key-stash now dh ck nr zero m from to = absurd (omega arith)
  take_key-stash now dh ck nr (suc rounds) m from to = elim (Bool-cases (nr == m)) [
    | inl here ↦ ground (arith, text_eq_iff dh dh)
    | inr there ↦ ground (arith, take_key-stash now dh ck (suc nr) rounds m)
  ]

  pub length-stash :
      (now : ℕ) (dh : Text) (ck : Bytes) (nr rounds : ℕ)
      → length (stash p now dh ck nr rounds) ≡ rounds
  unfolding stash
  length-stash now dh ck nr zero = refl
  length-stash now dh ck nr (suc rounds) = ap suc (length-stash now dh ck (suc nr) rounds)

  -- Of the messages `done` of a chain that have arrived none is stashed, and of those before `nr`
  -- that have not, each is.
  pub record Ordered (ck : Bytes) (dh : Text) (t0 : ℕ) (done : List ℕ) (st : RatchetState)
      : Type 0 where
    pub tracks : Tracks p ck dh st
    pub waiting :
        (m : ℕ) → m < st.nr → elem m done ≡ false → is_some (take_key dh m st.skipped) ≡ true
    pub size : length st.skipped ≤ st.nr
    pub young : All (λ (k : SkippedKey). t0 ≤ k.stored_at) st.skipped
    pub arrived : All (λ m. m < st.nr) done
    pub bound : st.nr ≤ suc max_skip

  -- A message that lies ahead.
  pub ahead-Ordered :
      (ck : Bytes) (dh : Text) (t0 now n : ℕ) (done : List ℕ) (st : RatchetState)
      → IsKey ck
      → t0 ≤ now
      → now ≤ t0 + skipped_ttl_ms
      → n ≤ max_skip
      → st.nr ≤ n
      → Ordered ck dh t0 done st
      → (st' : RatchetState) × (chain_step p now st n ≡ ok (message_key p ck n, st'))
        × Ordered ck dh t0 (n ∷ done) st'
  unfolding elem
  ahead-Ordered ck dh t0 now n done st k from to le ge o =
      let new = stash p now dh ck st.nr (n - st.nr) in
      let all = st.skipped ++ new in
      let size : length all ≤ n =
        omega
          (arith, o.size, length-append st.skipped new, length-stash now dh ck st.nr (n - st.nr)) in
      let young : All (λ (q : SkippedKey). t0 ≤ q.stored_at) all =
        All-append (λ (q : SkippedKey). t0 ≤ q.stored_at) st.skipped new o.young
          (stash-All (λ q. t0 ≤ q.stored_at) now dh ck st.nr (n - st.nr) (λ m a b. from)) in
      let kept : evict_skipped now all ≡ all =
        evict_skipped_young now all (All-mono _ _ all (λ q h. omega arith) young) (omega arith) in
      let step =
        chain_step_lem ck dh now n st k o.tracks.chain o.tracks.epoch ge (omega arith)
          (omega arith) in
      (
        record st { nr = suc n; ckr = some (bytes_to_hex (chain_key p ck (suc n))); skipped = all },
        rw kept at step,
        record {
          tracks = record {
            chain = refl;
            epoch = o.tracks.epoch;
            keys =
                All-append (λ (q : SkippedKey). q.mk ≡ bytes_to_hex (message_key p ck q.n))
                  st.skipped new o.tracks.keys
                  (stash-All (λ q. q.mk ≡ bytes_to_hex (message_key p ck q.n)) now dh ck st.nr
                    (n - st.nr) (λ m a b. refl));
            behind =
                All-append (λ (q : SkippedKey). q.n < suc n) st.skipped new
                  (All-mono _ _ st.skipped (λ q h. omega arith) o.tracks.behind)
                  (stash-All (λ q. q.n < suc n) now dh ck st.nr (n - st.nr) (λ m a b. omega arith));
          };
          waiting = λ m lt out. still_there m lt out;
          size = omega arith;
          young = young;
          arrived = (omega arith, All-mono _ _ done (λ m h. omega arith) o.arrived);
          bound = omega arith;
        },
      )
    where
      still_there :
          (m : ℕ)
          → m < suc n
          → elem m (n ∷ done) ≡ false
          → is_some (take_key dh m (st.skipped ++ stash p now dh ck st.nr (n - st.nr))) ≡ true
      still_there m lt out =
          rw (take_key-append dh m st.skipped (stash p now dh ck st.nr (n - st.nr)))
            (elim (Bool-cases (ltb m st.nr)) [
              | inl before ↦ ground (arith, o.waiting m)
              | inr after ↦ ground (arith, take_key-stash now dh ck st.nr (n - st.nr) m, ==_iff n m)
            ])

  -- A message that was skipped.
  pub behind-Ordered :
      (ck : Bytes) (dh : Text) (t0 n : ℕ) (done : List ℕ) (st : RatchetState)
      → n < st.nr
      → elem n done ≡ false
      → Ordered ck dh t0 done st
      → (st' : RatchetState) × (try_skipped st dh n ≡ ok (some (message_key p ck n, st')))
        × Ordered ck dh t0 (n ∷ done) st'
  unfolding try_skipped elem
  behind-Ordered ck dh t0 n done st lt new o = elim (Option-cases (take_key dh n st.skipped)) [
    | inl missing ↦ absurd (ground (arith, o.waiting n lt new))
    | inr ((q, rest), found) ↦
        let (_, qn, key, keys, len) =
          take_key-All (λ (q : SkippedKey). q.mk ≡ bytes_to_hex (message_key p ck q.n)) dh n
            st.skipped found o.tracks.keys in
        let behind =
          (take_key-All (λ (q : SkippedKey). q.n < st.nr) dh n st.skipped found
            o.tracks.behind).3 in
        let young =
          (take_key-All (λ (q : SkippedKey). t0 ≤ q.stored_at) dh n st.skipped found o.young).3 in
        (
          record st { skipped = rest },
          ground (arith, b32-bytes_to_hex (message_key p ck n) (message_key-IsKey p d ck n)),
          record {
            tracks = record {
              chain = o.tracks.chain;
              epoch = o.tracks.epoch;
              keys = keys;
              behind = behind;
            };
            waiting = λ m lt' out.
                ground (arith, take_key_ne dh n m st.skipped found, o.waiting m, ==_iff n m);
            size = omega (arith, o.size);
            young = young;
            arrived = (lt, o.arrived);
            bound = o.bound;
          },
        )
  ]
