-- ===== src/Crypto/Envelope.antt =====
-- The hybrid envelopes of capsules/hey-core/src/crypto.rs: sealing to a recipient's keys or under a
-- message key of the ratchet, and opening with the two shared secrets. A text is its UTF-8 bytes; the
-- seed, the nonce and the randomness of the encapsulation that `OsRng` draws are arguments.
use hey_capsule.Prelude.{
  ℕ, zero, suc, ◌^◌, ◌<◌, ◌≡◌, refl, Bool, true, false, ◌&&◌, ◌||◌, some, none, [], ◌∷◌, ◌++◌, Text,
  codes, text_eq, length, leb, ◌==◌, if◌then◌else◌, Result, ok, err, ◌>>=◌, ok_or,
}
use hey_capsule.Crypto.Kdf.{Bytes, Primitives, Documented, Meets}
use hey_capsule.Crypto.Padding.{PadError, pad_plaintext, unpad_plaintext}
use hey_capsule.Crypto.Padding.Roundtrip.{unpad_plaintext-pad_plaintext}
use hey_capsule.Crypto.Attachment.{Aead, Opens}

pub data EnvelopeError : Type 0 where
  kem_encapsulate kem_decapsulate encrypt_failed decrypt_failed bad_base64 : EnvelopeError
  kem_key_size panicked nonce_size eph_size unsupported_version not_utf8 : EnvelopeError
  bad_padding : PadError → EnvelopeError

pub record HpqEnvelope : Type 0 where
  pub v : Text
  pub eph : Text
  pub kem : Text
  pub n : Text
  pub ct : Text

abbrev pub envelope_version : Text
envelope_version = codes "hpq-2"

-- `String::from_utf8`: `more` bytes of a character are still to come, the next of them between
-- `low` and `high`.
unfoldable pub utf8_from : ℕ → ℕ → ℕ → Bytes → Bool
utf8_from (suc more) low high [] = false
utf8_from (suc more) low high (b ∷ s) = leb low b && leb b high && utf8_from more 128 191 s
utf8_from zero low high [] = true
utf8_from zero low high (b ∷ s) =
    if leb b 127
    then utf8_from 0 128 191 s
    else if leb 194 b && leb b 223
    then utf8_from 1 128 191 s
    else if b == 224
    then utf8_from 2 160 191 s
    else if b == 237
    then utf8_from 2 128 159 s
    else if leb 225 b && leb b 239
    then utf8_from 2 128 191 s
    else if b == 240
    then utf8_from 3 144 191 s
    else if leb 241 b && leb b 243
    then utf8_from 3 128 191 s
    else if b == 244
    then utf8_from 3 128 143 s
    else false

abbrev pub is_utf8 : Bytes → Bool
is_utf8 s = utf8_from 0 128 191 s

module _ (p : Primitives) (c : Aead) where
  unfoldable pub derive_key : Bytes → Bytes → Bytes
  derive_key x25519_secret kem_secret =
      p.hkdf none (x25519_secret ++ kem_secret) (codes "hey-messenger/hpq-1") 32

  -- The second half of both ways of sealing: `half` is the X25519 secret or the message key, and
  -- `shown` the public key that goes into the envelope.
  unfoldable pub seal :
      Bytes → Bytes → Bytes → Bytes → Bytes → Bytes → Result EnvelopeError HpqEnvelope
  seal randomness nonce plaintext half kem_pub shown = do
    (kem_ct, kem_secret) ← ok_or (p.ml_kem_encapsulate randomness kem_pub) kem_encapsulate
    let key = derive_key half kem_secret
    ct ← ok_or (c.encrypt key nonce (pad_plaintext plaintext)) encrypt_failed
    ok (record {
      v = envelope_version;
      eph = p.b64_encode shown;
      kem = p.b64_encode kem_ct;
      n = p.b64_encode nonce;
      ct = p.b64_encode ct;
    })

  -- `eph_pub` is the X25519 public key of the ephemeral private key `eph_priv` that is drawn.
  unfoldable pub encrypt_to_hybrid :
      Bytes → Bytes → Bytes → Bytes → Bytes → Bytes → Bytes → Result EnvelopeError HpqEnvelope
  encrypt_to_hybrid eph_priv eph_pub randomness nonce plaintext recipient_x25519_pub
        recipient_kem_pub =
      seal randomness nonce plaintext (p.dh eph_priv recipient_x25519_pub) recipient_kem_pub eph_pub

  unfoldable pub encrypt_with_mk :
      Bytes → Bytes → Bytes → Bytes → Bytes → Bytes → Result EnvelopeError HpqEnvelope
  encrypt_with_mk randomness nonce plaintext mk recipient_kem_pub ratchet_dh_pub =
      seal randomness nonce plaintext mk recipient_kem_pub ratchet_dh_pub

  unfoldable pub envelope_recipient_inputs : HpqEnvelope → Result EnvelopeError (Bytes × Bytes)
  envelope_recipient_inputs env = do
    eph ← ok_or (p.b64_decode env.eph) bad_base64
    kem_ct ← ok_or (p.b64_decode env.kem) bad_base64
    ok (eph, kem_ct)

  -- The body of a plaintext, which `hpq-2` pads, as text.
  unfoldable pub body_of : Bool → Bytes → Result EnvelopeError Bytes
  body_of true pt = elim (unpad_plaintext pt) [
    | ok body ↦ if is_utf8 body then ok body else err not_utf8
    | err e ↦ err (bad_padding e)
  ]
  body_of false pt = if is_utf8 pt then ok pt else err not_utf8

  unfoldable pub open_box : Bool → Bytes → Bytes → Bytes → Result EnvelopeError Bytes
  open_box padded key nonce ct = do
    pt ← ok_or (c.decrypt key nonce ct) decrypt_failed
    body_of padded pt

  unfoldable pub open_with_secrets : HpqEnvelope → Bytes → Bytes → Result EnvelopeError Bytes
  open_with_secrets env x25519_shared kem_shared =
      if text_eq env.v (codes "hpq-1") || text_eq env.v (codes "hpq-2")
      then (do
        nonce ← ok_or (p.b64_decode env.n) bad_base64
        (if length nonce == 12
            then (do
              ct ← ok_or (p.b64_decode env.ct) bad_base64
              open_box (text_eq env.v (codes "hpq-2")) (derive_key x25519_shared kem_shared) nonce
                  ct)
            else err nonce_size))
      else err unsupported_version

  -- `Ciphertext::clone_from_slice` panics on a slice of another length.
  unfoldable pub decapsulate : Bytes → Bytes → Result EnvelopeError Bytes
  decapsulate kem_ct ml_kem_secret =
      if length ml_kem_secret == 2400
      then (if length kem_ct == 1088
          then ok_or (p.ml_kem_decapsulate kem_ct ml_kem_secret) kem_decapsulate
          else err panicked)
      else err kem_key_size

  unfoldable pub decrypt_hybrid : HpqEnvelope → Bytes → Bytes → Result EnvelopeError Bytes
  decrypt_hybrid env x25519_priv ml_kem_secret = do
    (eph, kem_ct) ← envelope_recipient_inputs env
    (if length eph == 32
        then (do
          kem_shared ← decapsulate kem_ct ml_kem_secret
          open_with_secrets env (p.dh x25519_priv eph) kem_shared)
        else err eph_size)

  module _ (d : Documented p) (o : Opens c) where
    -- What `seal` makes opens with the same half and the secret of its encapsulation.
    open_with_secrets-seal :
        (nonce plaintext half kem_ss ct eph kem : Bytes)
        → length nonce ≡ 12
        → length plaintext < 2 ^ 32
        → is_utf8 plaintext ≡ true
        → c.encrypt (derive_key half kem_ss) nonce (pad_plaintext plaintext) ≡ some ct
        → open_with_secrets
            (record {
              v = envelope_version;
              eph = eph;
              kem = kem;
              n = p.b64_encode nonce;
              ct = p.b64_encode ct;
            })
            half
            kem_ss
          ≡ ok plaintext
    unfolding open_with_secrets open_box body_of text_eq
    open_with_secrets-seal nonce plaintext half kem_ss ct eph kem n lt utf8 e =
        rw
          (
            d.b64_decode-b64_encode nonce,
            n,
            d.b64_decode-b64_encode ct,
            o.decrypt-encrypt (derive_key half kem_ss) nonce (pad_plaintext plaintext) ct e,
            body_of,
            unpad_plaintext-pad_plaintext plaintext lt,
            utf8,
          )
          refl

    -- A text of less than 2 ^ 32 bytes that is sealed under a message key, with a nonce of 12 bytes,
    -- opens with that key and the secret of its encapsulation to the text that it was.
    pub open_with_secrets-encrypt_with_mk :
        (randomness nonce plaintext mk kem_pub dh_pub kem_ct kem_ss ct : Bytes)
        → length nonce ≡ 12
        → length plaintext < 2 ^ 32
        → is_utf8 plaintext ≡ true
        → p.ml_kem_encapsulate randomness kem_pub ≡ some (kem_ct, kem_ss)
        → c.encrypt (derive_key mk kem_ss) nonce (pad_plaintext plaintext) ≡ some ct
        → (encrypt_with_mk randomness nonce plaintext mk kem_pub dh_pub >>= λ env.
            open_with_secrets env mk kem_ss)
          ≡ ok plaintext
    unfolding encrypt_with_mk seal
    open_with_secrets-encrypt_with_mk randomness nonce plaintext mk kem_pub dh_pub kem_ct kem_ss ct
          n lt utf8 e e' =
        rw (e, e')
          (open_with_secrets-seal nonce plaintext mk kem_ss ct (p.b64_encode dh_pub)
            (p.b64_encode kem_ct) n lt utf8 e')

    -- A text of less than 2 ^ 32 bytes that is encrypted to the X25519 and ML-KEM public keys of a
    -- recipient, under an ephemeral pair and a nonce of 12 bytes, decrypts with the recipient's
    -- private keys to the text that it was, by X25519 and ML-KEM as they are documented.
    pub decrypt_hybrid-encrypt_to_hybrid :
        (m : Meets p)
        (eph_priv eph_pub randomness nonce plaintext x_priv x_pub kem_secret kem_pub kem_ct kem_ss
          ct : Bytes)
        → m.IsPair eph_priv eph_pub
        → m.IsPair x_priv x_pub
        → m.IsKemPair kem_secret kem_pub
        → length eph_pub ≡ 32
        → length kem_secret ≡ 2400
        → length kem_ct ≡ 1088
        → length nonce ≡ 12
        → length plaintext < 2 ^ 32
        → is_utf8 plaintext ≡ true
        → p.ml_kem_encapsulate randomness kem_pub ≡ some (kem_ct, kem_ss)
        → c.encrypt (derive_key (p.dh eph_priv x_pub) kem_ss) nonce (pad_plaintext plaintext)
          ≡ some ct
        → (encrypt_to_hybrid eph_priv eph_pub randomness nonce plaintext x_pub kem_pub >>= λ env.
            decrypt_hybrid env x_priv kem_secret)
          ≡ ok plaintext
    unfolding encrypt_to_hybrid seal decrypt_hybrid envelope_recipient_inputs decapsulate
    decrypt_hybrid-encrypt_to_hybrid m eph_priv eph_pub randomness nonce plaintext x_priv x_pub
          kem_secret kem_pub kem_ct kem_ss ct pair own kem_pair size size' size'' n lt utf8 e e' =
        let same : p.dh x_priv eph_pub ≡ p.dh eph_priv x_pub =
          m.dh_comm x_priv x_pub eph_priv eph_pub own pair in
        rw
          (
            e,
            e',
            d.b64_decode-b64_encode eph_pub,
            d.b64_decode-b64_encode kem_ct,
            size,
            size',
            size'',
            m.ml_kem_opens randomness kem_secret kem_pub kem_ct kem_ss kem_pair e,
            same,
          )
          (open_with_secrets-seal nonce plaintext (p.dh eph_priv x_pub) kem_ss ct
            (p.b64_encode eph_pub) (p.b64_encode kem_ct) n lt utf8 e')
