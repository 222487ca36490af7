-- ===== src/Ratchet/Steps.antt =====
-- The steps of the ratchet (capsules/hey-core/src/api/dms.rs). A step returns the new state instead
-- of changing it in place; on an error the callers discard the clone that was stepped, so an error
-- carries no state. The clock is read once for a step.
use hey_capsule.Prelude.{
  ℕ, zero, suc, ◌+◌, ◌-◌, Option, none, some, List, [], ◌∷◌, ◌++◌, Text, ltb, if◌then◌else◌, Result,
  ok, err, ◌>>=◌, ok_or, is_some,
}
use hey_capsule.Identity.Hex.{bytes_to_hex}
use hey_capsule.Crypto.Kdf.{Bytes, Primitives, kdf_rk, kdf_rk_hybrid, kdf_ck}
use hey_capsule.Ratchet.State.{
  max_skip, Error, past_max_skip, no_dhr, no_sending_chain, no_receiving_chain, bad_base64,
  kem_failed, no_rolling_kem, downgrade_refused, combined_skip, RatchetHeader, SkippedKey,
  RatchetState, Fresh, b32, saturating_add, increment, evict_skipped, try_skipped, record_kem,
  is_new_epoch, total_skip,
}

module _ (p : Primitives) where
  unfoldable pub ratchet_init_initiator : Fresh → Bytes → Bytes → RatchetState
  ratchet_init_initiator fresh sk peer_prekey_pub =
      let (rk, cks) = kdf_rk p sk (p.dh fresh.dh_priv peer_prekey_pub) in
      record {
        rk = bytes_to_hex rk;
        cks = some (bytes_to_hex cks);
        ckr = none;
        dhs_priv = bytes_to_hex fresh.dh_priv;
        dhs_pub = bytes_to_hex fresh.dh_pub;
        dhr_pub = some (bytes_to_hex peer_prekey_pub);
        ns = 0;
        nr = 0;
        pn = 0;
        skipped = [];
        kem_priv = some (p.b64_encode fresh.kem_priv);
        kem_pub = some (p.b64_encode fresh.kem_pub);
        peer_kem_pub = none;
        send_kem_ct = none;
      }

  -- The root step of a chain, hybrid where there is a KEM secret.
  abbrev pub root_step : Bytes → Bytes → Option Bytes → Bytes × Bytes
  root_step rk dh_out none = kdf_rk p rk dh_out
  root_step rk dh_out (some ss) = kdf_rk_hybrid p rk dh_out ss

  -- The sending chain of a turn: the new root and chain keys and the KEM fields of the state.
  unfoldable pub sending_chain :
      Fresh → Bytes → Bytes → RatchetState → Result Error (Bytes × Bytes × RatchetState)
  sending_chain fresh rk1 dh_send st = elim st.peer_kem_pub [
    | none ↦
        let (rk2, cks) = kdf_rk p rk1 dh_send in ok (rk2, cks, record st { send_kem_ct = none })
    | some peer_kem_b64 ↦ do
      peer_kem ← ok_or (p.b64_decode peer_kem_b64) bad_base64
      (kem_ct, kem_ss) ← ok_or (p.ml_kem_encapsulate fresh.kem_randomness peer_kem) kem_failed
      let keys = kdf_rk_hybrid p rk1 dh_send kem_ss
      ok (
        keys.0,
        keys.1,
        record st {
          kem_priv = some (p.b64_encode fresh.kem_priv);
          kem_pub = some (p.b64_encode fresh.kem_pub);
          send_kem_ct = some (p.b64_encode kem_ct);
        },
      )
  ]

  unfoldable pub dh_ratchet :
      Fresh → RatchetState → Bytes → Option Bytes → Result Error RatchetState
  dh_ratchet fresh st dh_pub recv_kem_ss = do
    dhs_priv ← b32 st.dhs_priv
    rk0 ← b32 st.rk
    let recv = root_step rk0 (p.dh dhs_priv dh_pub) recv_kem_ss
    let st1 : RatchetState = record st {
      pn = st.ns;
      ns = 0;
      nr = 0;
      dhr_pub = some (bytes_to_hex dh_pub);
      ckr = some (bytes_to_hex recv.1);
    }
    (rk2, cks, st2) ← sending_chain fresh recv.0 (p.dh fresh.dh_priv dh_pub) st1
    ok (record st2 {
      dhs_priv = bytes_to_hex fresh.dh_priv;
      dhs_pub = bytes_to_hex fresh.dh_pub;
      rk = bytes_to_hex rk2;
      cks = some (bytes_to_hex cks);
    })

  unfoldable pub ratchet_init_responder :
      Fresh → Fresh → Bytes → Bytes → Bytes → Bytes → Option Bytes → Result Error RatchetState
  ratchet_init_responder fresh turn sk prekey_priv prekey_pub peer_dh_pub peer_kem_pub =
      dh_ratchet turn
        (record {
          rk = bytes_to_hex sk;
          cks = none;
          ckr = none;
          dhs_priv = bytes_to_hex prekey_priv;
          dhs_pub = bytes_to_hex prekey_pub;
          dhr_pub = none;
          ns = 0;
          nr = 0;
          pn = 0;
          skipped = [];
          kem_priv = some (p.b64_encode fresh.kem_priv);
          kem_pub = some (p.b64_encode fresh.kem_pub);
          peer_kem_pub = elim peer_kem_pub [ none ↦ none | some k ↦ some (p.b64_encode k) ];
          send_kem_ct = none;
        })
        peer_dh_pub none

  -- The loop `while st.nr < until`, by its rounds: the chain key and the stash that it leaves.
  unfoldable pub skip_loop : ℕ → ℕ → Text → ℕ → Bytes → List SkippedKey → Bytes × List SkippedKey
  skip_loop zero now dhr nr ckr skipped = (ckr, skipped)
  skip_loop (suc rounds) now dhr nr ckr skipped =
      let (mk, ckr_next) = kdf_ck p ckr in
      let key : SkippedKey = record { dh = dhr; n = nr; mk = bytes_to_hex mk; stored_at = now } in
      skip_loop rounds now dhr (suc nr) ckr_next (skipped ++ (key ∷ []))

  unfoldable pub skip_message_keys : ℕ → RatchetState → ℕ → Result Error RatchetState
  skip_message_keys now st until =
      if ltb (saturating_add st.nr max_skip) until then err past_max_skip else (elim st.ckr [
        | none ↦ ok st
        | some ckr_hex ↦ do
          dhr ← ok_or st.dhr_pub no_dhr
          ckr ← b32 ckr_hex
          let left = skip_loop (until - st.nr) now dhr st.nr ckr st.skipped
          ok (record st {
            nr = st.nr + (until - st.nr);
            ckr = some (bytes_to_hex left.0);
            skipped = evict_skipped now left.1;
          })
      ])

  unfoldable pub ratchet_step_send :
      RatchetState → Result Error (Bytes × RatchetHeader × RatchetState)
  ratchet_step_send st = do
    cks_hex ← ok_or st.cks no_sending_chain
    cks ← b32 cks_hex
    let keys = kdf_ck p cks
    dh ← b32 st.dhs_pub
    ns ← increment st.ns
    let header : RatchetHeader = record {
      dh = p.b64_encode dh;
      pn = st.pn;
      n = st.ns;
      kem_ct = st.send_kem_ct;
      kem_pub = st.kem_pub;
    }
    ok (keys.0, header, record st { cks = some (bytes_to_hex keys.1); ns = ns })

  -- The KEM secret of a turn: a contact that has advertised a rolling key must send a ciphertext.
  unfoldable pub turn_secret : RatchetState → Option Text → Result Error (Option Bytes)
  turn_secret st (some ct_b64) = do
    our_kem_priv ← ok_or st.kem_priv no_rolling_kem
    ct ← ok_or (p.b64_decode ct_b64) bad_base64
    dk ← ok_or (p.b64_decode our_kem_priv) bad_base64
    ss ← ok_or (p.ml_kem_decapsulate ct dk) kem_failed
    ok (some ss)
  turn_secret st none = if is_some st.peer_kem_pub then err downgrade_refused else ok none

  -- Finish the old chain up to `pn`, and turn.
  unfoldable pub turn :
      Fresh → ℕ → RatchetState → Bytes → ℕ → Option Text → Option Text → Result Error RatchetState
  turn fresh now st dh_bytes pn kem_ct kem_pub = do
    ss ← turn_secret st kem_ct
    st' ← skip_message_keys now (record_kem st kem_pub) pn
    dh_ratchet fresh st' dh_bytes ss

  -- Skip within the current chain to `n`, then derive a key.
  unfoldable pub chain_step : ℕ → RatchetState → ℕ → Result Error (Bytes × RatchetState)
  chain_step now st n = do
    st' ← skip_message_keys now st n
    ckr_hex ← ok_or st'.ckr no_receiving_chain
    ckr ← b32 ckr_hex
    let keys = kdf_ck p ckr
    nr ← increment st'.nr
    ok (keys.0, record st' { ckr = some (bytes_to_hex keys.1); nr = nr })

  -- What is left when no stashed key fits.
  unfoldable pub advance :
      Fresh
      → ℕ
      → RatchetState
      → Text
      → Bytes
      → ℕ
      → ℕ
      → Option Text
      → Option Text
      → Result Error (Bytes × RatchetState)
  advance fresh now st dh_hex dh_bytes pn n kem_ct kem_pub =
      if ltb max_skip (total_skip st dh_hex pn n)
      then err combined_skip
      else if is_new_epoch st dh_hex
      then (do st' ← turn fresh now st dh_bytes pn kem_ct kem_pub; chain_step now st' n)
      else chain_step now st n

  unfoldable pub ratchet_step_recv :
      Fresh
      → ℕ
      → RatchetState
      → Text
      → Bytes
      → ℕ
      → ℕ
      → Option Text
      → Option Text
      → Result Error (Bytes × RatchetState)
  ratchet_step_recv fresh now st dh_hex dh_bytes pn n kem_ct kem_pub = do
    found ← try_skipped st dh_hex n
    (elim found [ some r ↦ ok r | none ↦ advance fresh now st dh_hex dh_bytes pn n kem_ct kem_pub ])
