-- ===== src/Crypto/Attachment.antt =====
-- The encryption of attachments in capsules/hey-core/src/crypto.rs: `encrypt_attachment` and
-- `decrypt_attachment`. ChaCha20-Poly1305 and base64 are parameters, and the key and the nonce that
-- `OsRng` draws are arguments.
use hey_capsule.Prelude.{
  ◌+◌, ◌^◌, ◌<◌, ◌≡◌, refl, Bool, true, false, ◌&&◌, Option, some, ◌++◌, Text, codes, text_eq,
  text_eq_iff, length, take, drop, leb, ltb, ◌==◌, if◌then◌else◌, Result, ok, err, ◌>>=◌, ok_or,
  length-append, arith,
}
use hey_capsule.Crypto.Kdf.{Bytes}
use hey_capsule.Crypto.Padding.{PadError, pad_attachment, unpad_attachment}
use hey_capsule.Crypto.Padding.Roundtrip.{unpad_attachment-pad_attachment, take-prefix, drop-prefix}

-- `encrypt key nonce plaintext` and `decrypt key nonce ciphertext`; `none` is a failure.
pub record Aead : Type 0 where
  pub encrypt : Bytes → Bytes → Bytes → Option Bytes
  pub decrypt : Bytes → Bytes → Bytes → Option Bytes
  pub b64_encode : Bytes → Text
  pub b64_decode : Text → Option Bytes

-- What they document: a sealed text opens under its key and nonce and is 16 bytes longer, and
-- decoding gives back what was encoded.
pub record Opens (c : Aead) : Type 0 where
  pub decrypt-encrypt :
      (key nonce plaintext sealed : Bytes)
      → c.encrypt key nonce plaintext ≡ some sealed
      → c.decrypt key nonce sealed ≡ some plaintext
  pub length-encrypt :
      (key nonce plaintext sealed : Bytes)
      → c.encrypt key nonce plaintext ≡ some sealed
      → length sealed ≡ length plaintext + 16
  pub b64_decode-b64_encode : (s : Bytes) → c.b64_decode (c.b64_encode s) ≡ some s

pub data Error : Type 0 where
  encrypt_failed key_base64 key_size too_short auth_fail : Error
  padding : PadError → Error

abbrev pub att_pad_magic : Bytes
att_pad_magic = codes "HPA1"

module _ (c : Aead) where
  unfoldable pub encrypt_attachment : Bytes → Bytes → Bytes → Result Error (Bytes × Text)
  encrypt_attachment key nonce plaintext = do
    ct ← ok_or (c.encrypt key nonce (pad_attachment plaintext)) encrypt_failed
    ok (att_pad_magic ++ (nonce ++ ct), c.b64_encode key)

  abbrev pub padded_format : Bytes → Bool
  padded_format blob =
      leb (length att_pad_magic) (length blob)
      && text_eq (take (length att_pad_magic) blob) att_pad_magic

  abbrev pub sealed_body : Bytes → Bytes
  sealed_body blob = if padded_format blob then drop (length att_pad_magic) blob else blob

  -- The plaintext of a blob: padded or, in the legacy format, as it is.
  unfoldable pub plaintext_of : Bool → Bytes → Result Error Bytes
  plaintext_of true pt = elim (unpad_attachment pt) [ ok s ↦ ok s | err e ↦ err (padding e) ]
  plaintext_of false pt = ok pt

  unfoldable pub open_body : Bool → Bytes → Bytes → Result Error Bytes
  open_body padded key body = if ltb (length body) (12 + 16) then err too_short else (do
    pt ← ok_or (c.decrypt key (take 12 body) (drop 12 body)) auth_fail
    plaintext_of padded pt)

  unfoldable pub decrypt_attachment : Bytes → Text → Result Error Bytes
  decrypt_attachment blob key_b64 = do
    key ← ok_or (c.b64_decode key_b64) key_base64
    (if length key == 32
        then open_body (padded_format blob) key (sealed_body blob)
        else err key_size)

  module _ (o : Opens c) where
    open_body-encrypt :
        (key nonce plaintext ct : Bytes) (padded : Bool)
        → length nonce ≡ 12
        → c.encrypt key nonce plaintext ≡ some ct
        → open_body padded key (nonce ++ ct) ≡ plaintext_of padded plaintext
    unfolding open_body
    open_body-encrypt key nonce plaintext ct padded n e =
        rw
          (
            take-prefix nonce ct 12 n,
            drop-prefix nonce ct 12 n,
            o.decrypt-encrypt key nonce plaintext ct e,
          )
          (ground (arith, length-append nonce ct, o.length-encrypt key nonce plaintext ct e))

    padded_format-magic : (s : Bytes) → padded_format (att_pad_magic ++ s) ≡ true
    padded_format-magic s = ground (arith, text_eq_iff att_pad_magic att_pad_magic)

    -- An attachment, of less than 2 ^ 64 bytes with its length prefix of eight, that is encrypted
    -- under a key of 32 bytes and a nonce of 12 decrypts, by the key text that goes with it, to what it was.
    pub decrypt_attachment-encrypt_attachment :
        (key nonce plaintext ct : Bytes)
        → length key ≡ 32
        → length nonce ≡ 12
        → 8 + length plaintext < 2 ^ 64
        → c.encrypt key nonce (pad_attachment plaintext) ≡ some ct
        → (encrypt_attachment key nonce plaintext >>= λ r. decrypt_attachment r.0 r.1)
          ≡ ok plaintext
    unfolding encrypt_attachment decrypt_attachment plaintext_of
    decrypt_attachment-encrypt_attachment key nonce plaintext ct k n lt e =
        rw
          (
            e,
            o.b64_decode-b64_encode key,
            k,
            padded_format-magic (nonce ++ ct),
            open_body-encrypt key nonce (pad_attachment plaintext) ct true n e,
            plaintext_of,
            unpad_attachment-pad_attachment plaintext lt,
          )
          refl

    -- A blob of the legacy format, `nonce || ct`, decrypts to the plaintext that was sealed, unless
    -- the nonce happens to begin with the magic.
    pub decrypt_attachment_legacy :
        (key nonce plaintext ct : Bytes)
        → length key ≡ 32
        → length nonce ≡ 12
        → padded_format (nonce ++ ct) ≡ false
        → c.encrypt key nonce plaintext ≡ some ct
        → decrypt_attachment (nonce ++ ct) (c.b64_encode key) ≡ ok plaintext
    unfolding decrypt_attachment plaintext_of
    decrypt_attachment_legacy key nonce plaintext ct k n legacy e =
        rw
          (
            o.b64_decode-b64_encode key,
            k,
            legacy,
            open_body-encrypt key nonce plaintext ct false n e,
          )
          refl
