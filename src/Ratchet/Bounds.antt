-- ===== src/Ratchet/Bounds.antt =====
-- What one message can make the receiver do: a bound on the keys it derives and keeps.
use hey_capsule.Prelude.{
  ℕ, zero, suc, ◌+◌, ◌-◌, ◌≤◌, ◌≡◌, refl, ap, All, Bool-cases, ltb, List, [], ◌∷◌, ◌++◌, Text,
  Option, none, some, Option-cases, Result-cases, ok, ◌>>=◌, >>=-eq-ok, length, length-append,
  length-filter-le, filter, length-drop, inl, inr, arith, leb,
}
use hey_capsule.Identity.Hex.{bytes_to_hex}
use hey_capsule.Crypto.Kdf.{Bytes, Primitives, kdf_ck}
use hey_capsule.Ratchet.State.{
  max_skip, max_skipped_keys, skipped_ttl_ms, SkippedKey, RatchetState, Fresh, b32, evict_skipped,
  take_key, try_skipped, total_skip, is_new_epoch, record_kem,
}
use hey_capsule.Ratchet.Steps.{
  skip_loop, skip_message_keys, chain_step, advance, turn, turn_secret, dh_ratchet, sending_chain,
  ratchet_step_recv,
}
use hey_capsule.Ratchet.Stash.{take_key-All, length-evict_skipped}

length-evict_skipped-le :
    (now : ℕ) (ks : List SkippedKey) → length (evict_skipped now ks) ≤ length ks
unfolding evict_skipped
length-evict_skipped-le now ks =
    let live = filter (λ (k : SkippedKey). leb now (k.stored_at + skipped_ttl_ms)) ks in
    omega (
      arith,
      length-drop (length live - max_skipped_keys) live,
      length-filter-le (λ (k : SkippedKey). leb now (k.stored_at + skipped_ttl_ms)) ks,
    )

module _ (p : Primitives) where
  length-skip_loop :
      (rounds now : ℕ) (dhr : Text) (nr : ℕ) (ck : Bytes) (ks : List SkippedKey)
      → length (skip_loop p rounds now dhr nr ck ks).1 ≡ length ks + rounds
  unfolding skip_loop
  length-skip_loop zero now dhr nr ck ks = omega arith
  length-skip_loop (suc rounds) now dhr nr ck ks =
      let key : SkippedKey = record {
        dh = dhr;
        n = nr;
        mk = bytes_to_hex (kdf_ck p ck).0;
        stored_at = now;
      } in
      omega (
        arith,
        length-skip_loop rounds now dhr (suc nr) (kdf_ck p ck).1 (ks ++ (key ∷ [])),
        length-append ks (key ∷ []),
      )

  -- What a skip does to the counter and the stash.
  record Skips (st st' : RatchetState) (until : ℕ) : Type 0 where
    grown : length st'.skipped ≤ length st.skipped + (until - st.nr)
    capped : length st.skipped ≤ max_skipped_keys → length st'.skipped ≤ max_skipped_keys

  skip_message_keys-Skips :
      (now : ℕ) (st : RatchetState) (until : ℕ) {st' : RatchetState}
      → skip_message_keys p now st until ≡ ok st'
      → Skips st st' until
  unfolding skip_message_keys
  skip_message_keys-Skips now st until e = elim (Option-cases st.ckr) [
    | inl missing ↦ record { grown = ground arith; capped = λ h. ground arith }
    | inr (ckr_hex, there) ↦ elim (Result-cases (b32 ckr_hex)) [
      | inr (why, bad) ↦ record { grown = ground arith; capped = λ h. ground arith }
      | inl (ckr, good) ↦ elim (Option-cases st.dhr_pub) [
        | inl no_dhr ↦ record { grown = ground arith; capped = λ h. ground arith }
        | inr (dhr, is_dhr) ↦
            let left = (skip_loop p (until - st.nr) now dhr st.nr ckr st.skipped).1 in
            let size = length-skip_loop (until - st.nr) now dhr st.nr ckr st.skipped in
            record {
              grown = ground (arith, size, length-evict_skipped-le now left);
              capped = λ h. ground (arith, length-evict_skipped now left);
            }
      ]
    ]
  ]

  sending_chain-kept :
      (fresh : Fresh) (rk dh : Bytes) (st : RatchetState) {rk2 ck : Bytes} {st' : RatchetState}
      → sending_chain p fresh rk dh st ≡ ok (rk2, ck, st')
      → (st'.skipped ≡ st.skipped) × (st'.nr ≡ st.nr)
  unfolding sending_chain
  sending_chain-kept fresh rk dh st e = ground arith

  dh_ratchet-kept :
      (fresh : Fresh) (st : RatchetState) (dh : Bytes) (ss : Option Bytes) {st' : RatchetState}
      → dh_ratchet p fresh st dh ss ≡ ok st'
      → (st'.skipped ≡ st.skipped) × (st'.nr ≡ 0)
  unfolding dh_ratchet sending_chain
  dh_ratchet-kept fresh st dh ss e = ground arith

  record_kem-kept :
      (st : RatchetState) (kp : Option Text)
      → ((record_kem st kp).skipped ≡ st.skipped) × ((record_kem st kp).nr ≡ st.nr)
  record_kem-kept st none = (refl, refl)
  record_kem-kept st (some kp) = (refl, refl)

  turn-Skips :
      (fresh : Fresh) (now : ℕ) (st : RatchetState) (dh : Bytes) (pn : ℕ) (kc kp : Option Text)
      {st' : RatchetState}
      → turn p fresh now st dh pn kc kp ≡ ok st'
      → Skips st st' pn × (st'.nr ≡ 0)
  unfolding turn
  turn-Skips fresh now st dh pn kc kp e =
      let (ss, secret, e1) = >>=-eq-ok (turn_secret p st kc) _ e in
      let (st1, skipped, turned) = >>=-eq-ok (skip_message_keys p now (record_kem st kp) pn) _ e1 in
      let s = skip_message_keys-Skips now (record_kem st kp) pn skipped in
      let kept = dh_ratchet-kept fresh st1 dh ss turned in
      let same = record_kem-kept st kp in
      (
        record {
          grown = omega (arith, ap length kept.0, ap length same.0, same.1, s.grown);
          capped = λ h. omega (arith, ap length kept.0, s.capped (rw same.0 h));
        },
        kept.1,
      )

  chain_step-Skips :
      (now : ℕ) (st : RatchetState) (n : ℕ) {mk : Bytes} {st' : RatchetState}
      → chain_step p now st n ≡ ok (mk, st')
      → Skips st st' n
  unfolding chain_step
  chain_step-Skips now st n e =
      let (st1, skipped, rest) = >>=-eq-ok (skip_message_keys p now st n) _ e in
      let s = skip_message_keys-Skips now st n skipped in
      record { grown = ground (arith, s.grown); capped = λ h. ground (arith, s.capped h) }

  -- The growth of the stash, and its cap.
  abbrev pub IsBounded : RatchetState → RatchetState → Type 0
  IsBounded st st' =
      (length st'.skipped ≤ length st.skipped + max_skip)
      × (length st.skipped ≤ max_skipped_keys → length st'.skipped ≤ max_skipped_keys)

  take_key-size :
      (dh : Text) (n : ℕ) (ks : List SkippedKey) {k : SkippedKey} {rest : List SkippedKey}
      → take_key dh n ks ≡ some (k, rest)
      → length ks ≡ suc (length rest)
  take_key-size dh n ks e = (take_key-All (λ k. Unit {0}) dh n ks e (all ks)).4
    where
      all : (ks : List SkippedKey) → All (λ k. Unit {0}) ks
      all [] = tt
      all (k ∷ ks) = (tt, all ks)

  advance-IsBounded :
      (fresh : Fresh) (now : ℕ) (st : RatchetState) (dh_hex : Text) (dh_bytes : Bytes) (pn n : ℕ)
      (kc kp : Option Text) (mk : Bytes) (st' : RatchetState)
      → advance p fresh now st dh_hex dh_bytes pn n kc kp ≡ ok (mk, st')
      → IsBounded st st'
  unfolding advance
  advance-IsBounded fresh now st dh_hex dh_bytes pn n kc kp mk st' e =
      elim (Bool-cases (ltb max_skip (total_skip st dh_hex pn n))) [
        | inl far ↦ absurd (ground arith)
        | inr near ↦ elim (Bool-cases (is_new_epoch st dh_hex)) [
          | inl new ↦
              let e' : (turn p fresh now st dh_bytes pn kc kp >>= λ st1. chain_step p now st1 n)
                  ≡ ok (mk, st') =
                ground arith in
              let (st1, turned, rest) = >>=-eq-ok (turn p fresh now st dh_bytes pn kc kp) _ e' in
              let (s, zero_nr) = turn-Skips fresh now st dh_bytes pn kc kp turned in
              let s' = chain_step-Skips now st1 n rest in
              let few : (pn - st.nr) + n ≤ max_skip = ground arith in
              (omega (arith, s.grown, s'.grown), λ h. s'.capped (s.capped h))
          | inr old ↦
              let s = chain_step-Skips now st n {mk = mk} {st' = st'} (ground arith) in
              let few : n - st.nr ≤ max_skip = ground arith in (omega (arith, s.grown), s.capped)
        ]
      ]

  ratchet_step_recv-IsBounded :
      (fresh : Fresh) (now : ℕ) (st : RatchetState) (dh_hex : Text) (dh_bytes : Bytes) (pn n : ℕ)
      (kc kp : Option Text) (mk : Bytes) (st' : RatchetState)
      → ratchet_step_recv p fresh now st dh_hex dh_bytes pn n kc kp ≡ ok (mk, st')
      → IsBounded st st'
  unfolding ratchet_step_recv try_skipped
  ratchet_step_recv-IsBounded fresh now st dh_hex dh_bytes pn n kc kp mk st' e =
      elim (Option-cases (take_key dh_hex n st.skipped)) [
        | inl missing ↦
            advance-IsBounded fresh now st dh_hex dh_bytes pn n kc kp mk st' (ground arith)
        | inr ((k, rest), found) ↦
            let size = take_key-size dh_hex n st.skipped found in
            (ground (arith, size), λ h. ground (arith, size))
      ]

  -- One message, whatever its header claims, adds at most `max_skip` keys to the stash, over the
  -- old chain and the new one together, and a stash within its cap stays within it.
  pub length-ratchet_step_recv :
      (fresh : Fresh) (now : ℕ) (st : RatchetState) (dh_hex : Text) (dh_bytes : Bytes) (pn n : ℕ)
      (kc kp : Option Text) (mk : Bytes) (st' : RatchetState)
      → length st.skipped ≤ max_skipped_keys
      → ratchet_step_recv p fresh now st dh_hex dh_bytes pn n kc kp ≡ ok (mk, st')
      → (length st'.skipped ≤ length st.skipped + max_skip)
        × (length st'.skipped ≤ max_skipped_keys)
  length-ratchet_step_recv fresh now st dh_hex dh_bytes pn n kc kp mk st' le e =
      let b = ratchet_step_recv-IsBounded fresh now st dh_hex dh_bytes pn n kc kp mk st' e in
      (b.0, b.1 le)
