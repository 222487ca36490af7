-- ===== src/Ratchet/Exchange.antt =====
-- Sender and receiver of a chain: what is sealed with the key of message `n` is opened with it.
use hey_capsule.Prelude.{
  ℕ, zero, suc, ◌+◌, ◌<◌, ◌≤◌, ◌≡◌, refl, ap, ◌∙◌, false, Bool-cases, ltb, List, [], ◌∷◌, map, Text,
  text_eq_iff, Option, some, Result, ok, ◌>>=◌, All, elem, inl, inr, arith,
}
use hey_capsule.Identity.Hex.{IsKey, bytes_to_hex}
use hey_capsule.Crypto.Kdf.{Bytes, Primitives, Documented}
use hey_capsule.Ratchet.State.{
  max_skip, skipped_ttl_ms, u32_max, Error, RatchetHeader, SkippedKey, RatchetState, Fresh,
  try_skipped,
}
use hey_capsule.Ratchet.Steps.{chain_step, advance, ratchet_step_send, ratchet_step_recv}
use hey_capsule.Ratchet.Chain.{chain_key, message_key, ratchet_step_send_lem}
use hey_capsule.Ratchet.Stash.{take_key_above}
use hey_capsule.Ratchet.Order.{Ordered, ahead-Ordered, behind-Ordered}

-- A message of the chain as it reaches the receiver: its page number and what rides beside it.
pub record Arrival : Type 0 where
  pub now : ℕ
  pub n : ℕ
  pub pn : ℕ
  pub kem_ct : Option Text
  pub kem_pub : Option Text
  pub fresh : Fresh

module _ (p : Primitives) where
  -- `count` sends in a row: the message keys and the headers.
  pub send_all : ℕ → RatchetState → Result Error (List (Bytes × RatchetHeader))
  send_all zero st = ok []
  send_all (suc count) st = do
    (mk, header, st') ← ratchet_step_send p st
    rest ← send_all count st'
    ok ((mk, header) ∷ rest)

  -- Receive message after message, each advance committed.
  pub receive_all : Text → Bytes → RatchetState → List Arrival → Result Error (List Bytes)
  receive_all dh dh_bytes st [] = ok []
  receive_all dh dh_bytes st (a ∷ as') = do
    (mk, st') ← ratchet_step_recv p a.fresh a.now st dh dh_bytes a.pn a.n a.kem_ct a.kem_pub
    rest ← receive_all dh dh_bytes st' as'
    ok (mk ∷ rest)

  -- The headers and keys of the messages `n..n + count` of a chain.
  abbrev pub pages : Bytes → Bytes → RatchetState → ℕ → ℕ → List (Bytes × RatchetHeader)
  pages ck dhs_pub st n zero = []
  pages ck dhs_pub st n (suc count) =
      (
        message_key p ck n,
        record {
          dh = p.b64_encode dhs_pub;
          pn = st.pn;
          n = n;
          kem_ct = st.send_kem_ct;
          kem_pub = st.kem_pub;
        },
      )
      ∷ pages ck dhs_pub st (suc n) count

  -- No message comes twice, none is further than `max_skip`, and all come within the stash's TTL.
  abbrev pub IsDelivery : ℕ → List ℕ → List Arrival → Type 0
  IsDelivery t0 done [] = Unit
  IsDelivery t0 done (a ∷ as') =
      (t0 ≤ a.now)
      × (a.now ≤ t0 + skipped_ttl_ms)
      × (a.n ≤ max_skip)
      × (elem a.n done ≡ false)
      × IsDelivery t0 (a.n ∷ done) as'

  module _ (d : Documented p) where
    send_all_from :
        (ck dhs_pub : Bytes) (count : ℕ) (st : RatchetState)
        → IsKey ck
        → IsKey dhs_pub
        → st.cks ≡ some (bytes_to_hex (chain_key p ck st.ns))
        → st.dhs_pub ≡ bytes_to_hex dhs_pub
        → st.ns + count ≤ u32_max
        → send_all count st ≡ ok (pages ck dhs_pub st st.ns count)
    unfolding send_all
    send_all_from ck dhs_pub zero st k k' e e' le = refl
    send_all_from ck dhs_pub (suc count) st k k' e e' le =
        let next : RatchetState = record st {
          cks = some (bytes_to_hex (chain_key p ck (suc st.ns)));
          ns = suc st.ns;
        } in
        let rest = send_all_from ck dhs_pub count next k k' refl e' (omega arith) in
        rw (ratchet_step_send_lem p d ck dhs_pub st k k' e e' (omega arith), rest) refl

    -- From the start of a sending chain, `count` sends in a row, at most `u32_max`, all succeed:
    -- the messages carry the numbers 0, 1, 2, … and are sealed with the chain's keys of those
    -- numbers.
    pub send_all_lem :
        (ck dhs_pub : Bytes) (count : ℕ) (st : RatchetState)
        → IsKey ck
        → IsKey dhs_pub
        → st.ns ≡ 0
        → st.cks ≡ some (bytes_to_hex ck)
        → st.dhs_pub ≡ bytes_to_hex dhs_pub
        → count ≤ u32_max
        → send_all count st ≡ ok (pages ck dhs_pub st 0 count)
    unfolding chain_key
    send_all_lem ck dhs_pub count st k k' z e e' le =
        send_all_from ck dhs_pub count st k k' (rw z e) e' (omega arith)
        ∙ ap (λ n. ok (pages ck dhs_pub st n count)) z

    recv-chain_step :
        (dh : Text) (dh_bytes : Bytes) (st : RatchetState) (a : Arrival)
        → st.dhr_pub ≡ some dh
        → All (λ (k : SkippedKey). k.n < st.nr) st.skipped
        → st.nr ≤ a.n
        → a.n ≤ max_skip
        → ratchet_step_recv p a.fresh a.now st dh dh_bytes a.pn a.n a.kem_ct a.kem_pub
          ≡ chain_step p a.now st a.n
    unfolding ratchet_step_recv try_skipped advance
    recv-chain_step dh dh_bytes st a epoch behind ge le =
        ground (arith, take_key_above dh a.n st.nr st.skipped behind ge, text_eq_iff dh dh)

    ratchet_step_recv-Ordered :
        (ck : Bytes) (dh : Text) (dh_bytes : Bytes) (t0 : ℕ) (done : List ℕ) (st : RatchetState)
        (a : Arrival)
        → IsKey ck
        → t0 ≤ a.now
        → a.now ≤ t0 + skipped_ttl_ms
        → a.n ≤ max_skip
        → elem a.n done ≡ false
        → Ordered p d ck dh t0 done st
        → (st' : RatchetState) × (ratchet_step_recv p a.fresh a.now st dh dh_bytes a.pn a.n a.kem_ct
              a.kem_pub
            ≡ ok (message_key p ck a.n, st'))
          × Ordered p d ck dh t0 (a.n ∷ done) st'
    unfolding ratchet_step_recv
    ratchet_step_recv-Ordered ck dh dh_bytes t0 done st a k from to le new o =
        elim (Bool-cases (ltb a.n st.nr)) [
          | inl before ↦
              let (st', e, o') = behind-Ordered p d ck dh t0 a.n done st (ground arith) new o in
              (st', rw e refl, o')
          | inr after ↦
              let ge : st.nr ≤ a.n = ground arith in
              let (st', e, o') = ahead-Ordered p d ck dh t0 a.now a.n done st k from to le ge o in
              (st', recv-chain_step dh dh_bytes st a o.tracks.epoch o.tracks.behind ge le ∙ e, o')
        ]

    receive_all-Ordered :
        (ck : Bytes) (dh : Text) (dh_bytes : Bytes) (t0 : ℕ) (done : List ℕ) (st : RatchetState)
        (as' : List Arrival)
        → IsKey ck
        → Ordered p d ck dh t0 done st
        → IsDelivery t0 done as'
        → receive_all dh dh_bytes st as' ≡ ok (map (λ (a : Arrival). message_key p ck a.n) as')
    unfolding receive_all
    receive_all-Ordered ck dh dh_bytes t0 done st [] k o s = refl
    receive_all-Ordered ck dh dh_bytes t0 done st (a ∷ as') k o s =
        let (st', e, o') =
          ratchet_step_recv-Ordered ck dh dh_bytes t0 done st a k s.0 s.1 s.2 s.3 o in
        rw (e, receive_all-Ordered ck dh dh_bytes t0 (a.n ∷ done) st' as' k o' s.4) refl

    -- A receiver at the start of a chain whose messages arrive in any order, each at most once,
    -- with gaps for those that are late or lost, derives for each the key with which it was sealed.
    -- The conditions: no number above `max_skip`, and all within the TTL of stashed keys.
    pub receive_all_lem :
        (ck : Bytes) (dh : Text) (dh_bytes : Bytes) (t0 : ℕ) (st : RatchetState)
        (as' : List Arrival)
        → IsKey ck
        → st.nr ≡ 0
        → st.ckr ≡ some (bytes_to_hex ck)
        → st.dhr_pub ≡ some dh
        → st.skipped ≡ []
        → IsDelivery t0 [] as'
        → receive_all dh dh_bytes st as' ≡ ok (map (λ (a : Arrival). message_key p ck a.n) as')
    unfolding chain_key
    receive_all_lem ck dh dh_bytes t0 st as' k z chain epoch none' s =
        receive_all-Ordered ck dh dh_bytes t0 [] st as' k
          (record {
            tracks = record {
              chain = rw z chain;
              epoch = epoch;
              keys = rw none' tt;
              behind = rw none' tt;
            };
            waiting = λ m lt. absurd (omega arith);
            size = rw none' (omega arith);
            young = rw none' tt;
            arrived = tt;
            bound = omega arith;
          })
          s
