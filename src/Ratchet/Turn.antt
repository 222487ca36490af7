-- ===== src/Ratchet/Turn.antt =====
-- The turns of the two sides of a conversation agree: each sending chain of the one is the
-- receiving chain of the other, turn after turn.
use hey_capsule.Prelude.{◌≡◌, refl, sym, ap, ◌∙◌, Option, some, ok, arith}
use hey_capsule.Identity.Hex.{IsKey, bytes_to_hex}
use hey_capsule.Crypto.Kdf.{
  Meets, Bytes, Primitives, Documented, kdf_rk_hybrid, kdf_rk_hybrid-IsKey,
}
use hey_capsule.Ratchet.State.{RatchetState, Fresh}
use hey_capsule.Ratchet.Steps.{root_step, sending_chain, dh_ratchet, turn_secret}
use hey_capsule.Ratchet.Chain.{b32-bytes_to_hex}

-- What a turn draws are keys.
pub record IsFresh {p : Primitives} (m : Meets p) (f : Fresh) : Type 0 where
  pub dh_pair : m.IsPair f.dh_priv f.dh_pub
  pub kem_pair : m.IsKemPair f.kem_priv f.kem_pub
  pub dh_priv_key : IsKey f.dh_priv
  pub dh_pub_key : IsKey f.dh_pub

module _ (p : Primitives) (d : Documented p) (m : Meets p) where
  -- A state that advertises a rolling KEM key of its own.
  pub record HasKem (st : RatchetState) : Type 0 where
    pub priv : Bytes
    pub pub_key : Bytes
    pub pair : m.IsKemPair priv pub_key
    pub priv_is : st.kem_priv ≡ some (p.b64_encode priv)
    pub pub_is : st.kem_pub ≡ some (p.b64_encode pub_key)

  -- `a` has turned last: what it sends under its ratchet key, `b` can follow. The two roots differ
  -- by the root step that `b` has still to make, and that step gives `a`'s sending chain.
  pub record Leads (a b : RatchetState) : Type 0 where
    pub a_priv : Bytes
    pub a_pub : Bytes
    pub b_priv : Bytes
    pub b_pub : Bytes
    pub rk_a : Bytes
    pub rk_b : Bytes
    pub ck : Bytes
    pub secret : Option Bytes
    pub a_pair : m.IsPair a_priv a_pub
    pub b_pair : m.IsPair b_priv b_pub
    pub a_priv_key : IsKey a_priv
    pub b_priv_key : IsKey b_priv
    pub rk_a_key : IsKey rk_a
    pub rk_b_key : IsKey rk_b
    pub a_priv_is : a.dhs_priv ≡ bytes_to_hex a_priv
    pub a_pub_is : a.dhs_pub ≡ bytes_to_hex a_pub
    pub b_priv_is : b.dhs_priv ≡ bytes_to_hex b_priv
    pub rk_a_is : a.rk ≡ bytes_to_hex rk_a
    pub rk_b_is : b.rk ≡ bytes_to_hex rk_b
    pub cks_is : a.cks ≡ some (bytes_to_hex ck)
    pub root : root_step p rk_b (p.dh b_priv a_pub) secret ≡ (rk_a, ck)
    pub opens : turn_secret p b a.send_kem_ct ≡ ok secret
    pub a_kem : HasKem a
    pub b_kem : HasKem b

  -- A turn of a state that knows the peer's rolling key.
  dh_ratchet_lem :
      (f : Fresh) (st : RatchetState) (priv rk dh_pub kem_pub ct ss : Bytes) (secret : Option Bytes)
      → IsKey priv
      → IsKey rk
      → st.dhs_priv ≡ bytes_to_hex priv
      → st.rk ≡ bytes_to_hex rk
      → st.peer_kem_pub ≡ some (p.b64_encode kem_pub)
      → p.ml_kem_encapsulate f.kem_randomness kem_pub ≡ some (ct, ss)
      → let recv = root_step p rk (p.dh priv dh_pub) secret in
        let send = kdf_rk_hybrid p recv.0 (p.dh f.dh_priv dh_pub) ss in
        dh_ratchet p f st dh_pub secret
        ≡ ok (record st {
          rk = bytes_to_hex send.0;
          cks = some (bytes_to_hex send.1);
          ckr = some (bytes_to_hex recv.1);
          dhs_priv = bytes_to_hex f.dh_priv;
          dhs_pub = bytes_to_hex f.dh_pub;
          dhr_pub = some (bytes_to_hex dh_pub);
          pn = st.ns;
          ns = 0;
          nr = 0;
          kem_priv = some (p.b64_encode f.kem_priv);
          kem_pub = some (p.b64_encode f.kem_pub);
          send_kem_ct = some (p.b64_encode ct);
        })
  unfolding dh_ratchet sending_chain
  dh_ratchet_lem f st priv rk dh_pub kem_pub ct ss secret k k' e e' known enc =
      ground
        (arith, b32-bytes_to_hex priv k, b32-bytes_to_hex rk k', d.b64_decode-b64_encode kem_pub)

  turn_secret-some :
      (st : RatchetState) (r priv pub_key ct ss : Bytes)
      → m.IsKemPair priv pub_key
      → st.kem_priv ≡ some (p.b64_encode priv)
      → p.ml_kem_encapsulate r pub_key ≡ some (ct, ss)
      → turn_secret p st (some (p.b64_encode ct)) ≡ ok (some ss)
  unfolding turn_secret
  turn_secret-some st r priv pub_key ct ss pair e enc =
      rw
        (
          e,
          d.b64_decode-b64_encode ct,
          d.b64_decode-b64_encode priv,
          m.ml_kem_opens r priv pub_key ct ss pair enc,
        )
        refl

  -- Where `a` has turned last and `b`, in a state with its keys, knows the rolling key of `a` and
  -- draws keys that are pairs, the turn of `b` on the ratchet key of `a` succeeds: it meets the
  -- sending chain of `a` as its receiving chain, both of its counters start at 0 and the length of its
  -- old sending chain is kept as `pn`, and the new state of `b` leads `a` in the same sense. This is
  -- by X25519 and ML-KEM as they are documented.
  pub dh_ratchet-Leads :
      (a b st : RatchetState) (f : Fresh) (l : Leads a b)
      → IsFresh m f
      → st.dhs_priv ≡ b.dhs_priv
      → st.rk ≡ b.rk
      → st.peer_kem_pub ≡ a.kem_pub
      → (b' : RatchetState) × (dh_ratchet p f st l.a_pub l.secret ≡ ok b')
        × (b'.ckr ≡ a.cks)
        × (b'.dhr_pub ≡ some a.dhs_pub)
        × (b'.nr ≡ 0)
        × (b'.pn ≡ st.ns)
        × (b'.ns ≡ 0)
        × Leads b' a
  dh_ratchet-Leads a b st f l h same_priv same_rk known =
      let (ct, ss, enc) =
        m.ml_kem_works f.kem_randomness l.a_kem.priv l.a_kem.pub_key l.a_kem.pair in
      let e =
        dh_ratchet_lem f st l.b_priv l.rk_b l.a_pub l.a_kem.pub_key ct ss l.secret l.b_priv_key
          l.rk_b_key (same_priv ∙ l.b_priv_is) (same_rk ∙ l.rk_b_is) (known ∙ l.a_kem.pub_is) enc in
      let recv = root_step p l.rk_b (p.dh l.b_priv l.a_pub) l.secret in
      let send = kdf_rk_hybrid p recv.0 (p.dh f.dh_priv l.a_pub) ss in
      (
        _,
        e,
        ap (λ (r : Bytes × Bytes). some (bytes_to_hex r.1)) l.root ∙ sym l.cks_is,
        ap some (sym l.a_pub_is),
        refl,
        refl,
        refl,
        record {
          a_priv = f.dh_priv;
          a_pub = f.dh_pub;
          b_priv = l.a_priv;
          b_pub = l.a_pub;
          rk_a = send.0;
          rk_b = l.rk_a;
          ck = send.1;
          secret = some ss;
          a_pair = h.dh_pair;
          b_pair = l.a_pair;
          a_priv_key = h.dh_priv_key;
          b_priv_key = l.a_priv_key;
          rk_a_key = (kdf_rk_hybrid-IsKey p d _ _ _).0;
          rk_b_key = l.rk_a_key;
          a_priv_is = refl;
          a_pub_is = refl;
          b_priv_is = l.a_priv_is;
          rk_a_is = refl;
          rk_b_is = l.rk_a_is;
          cks_is = refl;
          root =
              ap (λ out. kdf_rk_hybrid p l.rk_a out ss)
                (m.dh_comm l.a_priv l.a_pub f.dh_priv f.dh_pub l.a_pair h.dh_pair)
              ∙ ap (λ (r : Bytes × Bytes). kdf_rk_hybrid p r.0 (p.dh f.dh_priv l.a_pub) ss)
                  (sym l.root);
          opens =
              turn_secret-some a f.kem_randomness l.a_kem.priv l.a_kem.pub_key ct ss l.a_kem.pair
                l.a_kem.priv_is enc;
          a_kem = record {
            priv = f.kem_priv;
            pub_key = f.kem_pub;
            pair = h.kem_pair;
            priv_is = refl;
            pub_is = refl;
          };
          b_kem = l.a_kem;
        },
      )
