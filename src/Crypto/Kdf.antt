-- ===== src/Crypto/Kdf.antt =====
-- The key derivations of capsules/hey-core/src/crypto.rs over an abstract HKDF, and what the crate
-- takes from the other cryptographic libraries: X25519, ML-KEM-768 and base64 are parameters.
use hey_capsule.Prelude.{
  ℕ, zero, suc, ◌≡◌, List, [], ◌∷◌, ◌++◌, Option, none, some, Text, codes, take, drop, length, All,
  arith, length-take, length-drop,
}
use hey_capsule.Identity.Hex.{IsKey, IsByte}

abbrev pub Bytes : Type 0
Bytes = List ℕ

pub record Primitives : Type 0 where
  -- `Hkdf::<Sha256>::new(salt, ikm)` and `expand(info, out)` for `out` of that many bytes.
  pub hkdf : Option Bytes → Bytes → Bytes → ℕ → Bytes
  -- `Hkdf::from_prk(prk)` and `expand`.
  pub hkdf_prk : Bytes → Bytes → ℕ → Bytes
  -- X25519 with a private and a public key.
  pub dh : Bytes → Bytes → Bytes
  pub b64_encode : Bytes → Text
  pub b64_decode : Text → Option Bytes
  -- Encapsulation to a public key, under the randomness drawn; `none` is an error.
  pub ml_kem_encapsulate : Bytes → Bytes → Option (Bytes × Bytes)
  -- Decapsulation of a ciphertext with a secret key.
  pub ml_kem_decapsulate : Bytes → Bytes → Option Bytes

-- What HKDF and base64 document: as many bytes as asked for, and decoding what was encoded.
pub record Documented (p : Primitives) : Type 0 where
  pub hkdf_bytes :
      (salt : Option Bytes) (ikm info : Bytes) (n : ℕ) → All IsByte (p.hkdf salt ikm info n)
  pub hkdf_size :
      (salt : Option Bytes) (ikm info : Bytes) (n : ℕ) → length (p.hkdf salt ikm info n) ≡ n
  pub hkdf_prk_bytes : (prk info : Bytes) (n : ℕ) → All IsByte (p.hkdf_prk prk info n)
  pub hkdf_prk_size : (prk info : Bytes) (n : ℕ) → length (p.hkdf_prk prk info n) ≡ n
  pub b64_decode-b64_encode : (s : Bytes) → p.b64_decode (p.b64_encode s) ≡ some s

-- What X25519 and ML-KEM document: the two sides of an exchange meet, and a ciphertext opens with
-- the secret key that belongs to the public key it was made for.
pub record Meets (p : Primitives) : Type 1 where
  pub IsPair : Bytes → Bytes → Type 0
  pub dh_comm :
      (a_priv a_pub b_priv b_pub : Bytes)
      → IsPair a_priv a_pub
      → IsPair b_priv b_pub
      → p.dh a_priv b_pub ≡ p.dh b_priv a_pub
  pub IsKemPair : Bytes → Bytes → Type 0
  pub ml_kem_opens :
      (r priv pub_key ct ss : Bytes)
      → IsKemPair priv pub_key
      → p.ml_kem_encapsulate r pub_key ≡ some (ct, ss)
      → p.ml_kem_decapsulate ct priv ≡ some ss
  pub ml_kem_works :
      (r priv pub_key : Bytes)
      → IsKemPair priv pub_key
      → (ct : Bytes) × (ss : Bytes) × (p.ml_kem_encapsulate r pub_key ≡ some (ct, ss))

All-take : (P : ℕ → Type 0) (n : ℕ) (s : Bytes) → All P s → All P (take n s)
All-take P zero s h = tt
All-take P (suc n) [] h = tt
All-take P (suc n) (c ∷ s) h = (h.0, All-take P n s h.1)

All-drop : (P : ℕ → Type 0) (n : ℕ) (s : Bytes) → All P s → All P (drop n s)
All-drop P zero s h = h
All-drop P (suc n) [] h = tt
All-drop P (suc n) (c ∷ s) h = All-drop P n s h.1

module _ (p : Primitives) where
  unfoldable pub root_init : Bytes → Bytes → Bytes
  root_init x3dh kem_ss = p.hkdf none (x3dh ++ kem_ss) (codes "hey-chat/ratchet/root-init/v1") 32

  -- The new root key and the new chain key.
  unfoldable pub kdf_rk : Bytes → Bytes → Bytes × Bytes
  kdf_rk rk dh_out =
      let out = p.hkdf (some rk) dh_out (codes "hey-chat/ratchet/root/v1") 64 in
      (take 32 out, drop 32 out)

  unfoldable pub kdf_rk_hybrid : Bytes → Bytes → Bytes → Bytes × Bytes
  kdf_rk_hybrid rk dh_out kem_ss =
      let out = p.hkdf (some rk) (dh_out ++ kem_ss) (codes "hey-chat/ratchet/root-hybrid/v1") 64 in
      (take 32 out, drop 32 out)

  -- The message key and the next chain key.
  unfoldable pub kdf_ck : Bytes → Bytes × Bytes
  kdf_ck ck = (
    p.hkdf_prk ck (codes "hey-chat/ratchet/mk/v1") 32,
    p.hkdf_prk ck (codes "hey-chat/ratchet/ck/v1") 32,
  )

  module _ (d : Documented p) where
    pub kdf_ck-IsKey : (ck : Bytes) → IsKey (kdf_ck ck).0 × IsKey (kdf_ck ck).1
    unfolding kdf_ck
    kdf_ck-IsKey ck = (
      record { bytes = d.hkdf_prk_bytes _ _ _; size = d.hkdf_prk_size _ _ _ },
      record { bytes = d.hkdf_prk_bytes _ _ _; size = d.hkdf_prk_size _ _ _ },
    )

    halves-IsKey :
        (s : Bytes) → All IsByte s → length s ≡ 64 → IsKey (take 32 s) × IsKey (drop 32 s)
    halves-IsKey s b l = (
      record { bytes = All-take IsByte 32 s b; size = omega (arith, length-take 32 s) },
      record { bytes = All-drop IsByte 32 s b; size = omega (arith, length-drop 32 s) },
    )

    pub kdf_rk-IsKey : (rk dh_out : Bytes) → IsKey (kdf_rk rk dh_out).0 × IsKey (kdf_rk rk dh_out).1
    unfolding kdf_rk
    kdf_rk-IsKey rk dh_out = halves-IsKey _ (d.hkdf_bytes _ _ _ _) (d.hkdf_size _ _ _ _)

    pub kdf_rk_hybrid-IsKey :
        (rk dh_out ss : Bytes)
        → IsKey (kdf_rk_hybrid rk dh_out ss).0 × IsKey (kdf_rk_hybrid rk dh_out ss).1
    unfolding kdf_rk_hybrid
    kdf_rk_hybrid-IsKey rk dh_out ss = halves-IsKey _ (d.hkdf_bytes _ _ _ _) (d.hkdf_size _ _ _ _)
