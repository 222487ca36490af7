-- ===== src/Ratchet/Chain.antt =====
-- One chain of the ratchet as a sequence of keys, and the steps that walk along it.
use native.Mathlib.Nat.{add-zero}
use hey_capsule.Prelude.{
  ℕ, zero, suc, ◌+◌, ◌<◌, ◌≡◌, ◌∙◌, List, [], ◌∷◌, ◌++◌, append_assoc, append-nil, Text, some, ok,
  arith,
}
use hey_capsule.Identity.Hex.{IsKey, bytes_to_hex, seed32-bytes_to_hex}
use hey_capsule.Crypto.Kdf.{Bytes, Primitives, Documented, kdf_ck, kdf_ck-IsKey}
use hey_capsule.Ratchet.State.{RatchetState, SkippedKey, b32, u32_max}
use hey_capsule.Ratchet.Steps.{skip_loop, ratchet_step_send}

pub b32-bytes_to_hex : (k : Bytes) → IsKey k → b32 (bytes_to_hex k) ≡ ok k
unfolding b32
b32-bytes_to_hex k h = rw (seed32-bytes_to_hex k h, b32)

module _ (p : Primitives) where
  -- The chain key after `n` messages, and the key of message `n`, of the chain that starts at `ck`.
  unfoldable pub chain_key : Bytes → ℕ → Bytes
  chain_key ck zero = ck
  chain_key ck (suc n) = (kdf_ck p (chain_key ck n)).1

  unfoldable pub message_key : Bytes → ℕ → Bytes
  message_key ck n = (kdf_ck p (chain_key ck n)).0

  -- The keys of the messages `nr..nr + rounds`.
  unfoldable pub stash : ℕ → Text → Bytes → ℕ → ℕ → List SkippedKey
  stash now dhr ck nr zero = []
  stash now dhr ck nr (suc rounds) =
      record { dh = dhr; n = nr; mk = bytes_to_hex (message_key ck nr); stored_at = now }
      ∷ stash now dhr ck (suc nr) rounds

  pub skip_loop-stash :
      (rounds now : ℕ) (dhr : Text) (ck : Bytes) (nr : ℕ) (skipped : List SkippedKey)
      → skip_loop p rounds now dhr nr (chain_key ck nr) skipped
        ≡ (chain_key ck (nr + rounds), skipped ++ stash now dhr ck nr rounds)
  unfolding skip_loop stash message_key chain_key
  skip_loop-stash zero now dhr ck nr skipped = rw (add-zero, append-nil)
  skip_loop-stash (suc rounds) now dhr ck nr skipped =
      let key : SkippedKey = record {
        dh = dhr;
        n = nr;
        mk = bytes_to_hex (message_key ck nr);
        stored_at = now;
      } in
      let e : suc nr + rounds ≡ nr + suc rounds = omega arith in
      skip_loop-stash rounds now dhr ck (suc nr) (skipped ++ (key ∷ [])) ∙ rw (e, append_assoc)

  module _ (d : Documented p) where
    pub chain_key-IsKey : (ck : Bytes) (n : ℕ) → IsKey ck → IsKey (chain_key ck n)
    unfolding chain_key
    chain_key-IsKey ck zero h = h
    chain_key-IsKey ck (suc n) h = (kdf_ck-IsKey p d (chain_key ck n)).1

    pub message_key-IsKey : (ck : Bytes) (n : ℕ) → IsKey (message_key ck n)
    unfolding message_key
    message_key-IsKey ck n = (kdf_ck-IsKey p d (chain_key ck n)).0

    -- The `ns`-th message of a sending chain is sealed with the chain's key for `ns`, its header
    -- says so, and the state moves one along, so that no key is given out twice.
    pub ratchet_step_send_lem :
        (ck dhs_pub : Bytes) (st : RatchetState)
        → IsKey ck
        → IsKey dhs_pub
        → st.cks ≡ some (bytes_to_hex (chain_key ck st.ns))
        → st.dhs_pub ≡ bytes_to_hex dhs_pub
        → st.ns < u32_max
        → ratchet_step_send p st
          ≡ ok (
            message_key ck st.ns,
            record {
              dh = p.b64_encode dhs_pub;
              pn = st.pn;
              n = st.ns;
              kem_ct = st.send_kem_ct;
              kem_pub = st.kem_pub;
            },
            record st { cks = some (bytes_to_hex (chain_key ck (suc st.ns))); ns = suc st.ns },
          )
    unfolding ratchet_step_send message_key chain_key
    ratchet_step_send_lem ck dhs_pub st k k' e e' lt =
        rw
          (
            e,
            b32-bytes_to_hex (chain_key ck st.ns) (chain_key-IsKey ck st.ns k),
            e',
            b32-bytes_to_hex dhs_pub k',
          )
          (ground arith)
