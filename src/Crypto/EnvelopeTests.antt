-- ===== src/Crypto/EnvelopeTests.antt =====
-- Envelopes at concrete inputs, under toy primitives: constant keys, and an encapsulation whose
-- ciphertext is its secret.
use hey_capsule.Prelude.{
  ℕ, zero, suc, ◌≡◌, refl, some, true, false, [], ◌∷◌, ◌++◌, ok, ◌>>=◌, ap, sym, ◌∙◌, ◌+◌, ◌-◌,
  length, take, replicate, length-replicate, length-append, All, arith,
}
use hey_capsule.Identity.Hex.{IsByte}
use hey_capsule.Crypto.Kdf.{Bytes, Primitives, Documented, Meets}
use hey_capsule.Crypto.Padding.{pad_plaintext}
use hey_capsule.Crypto.Padding.Roundtrip.{take-prefix}
use hey_capsule.Crypto.Attachment.{Aead, Opens}
use hey_capsule.Crypto.Envelope.{
  is_utf8, utf8_from, encrypt_with_mk, encrypt_to_hybrid, open_with_secrets, decrypt_hybrid,
  open_with_secrets-encrypt_with_mk, decrypt_hybrid-encrypt_to_hybrid,
}

abbrev sevens : ℕ → Bytes
sevens n = replicate n 7

All-sevens : (n : ℕ) → All IsByte (sevens n)
All-sevens zero = tt
All-sevens (suc n) = (omega arith, All-sevens n)

length-sevens : (n : ℕ) → length (sevens n) ≡ n
length-sevens n = length-replicate {A = ℕ} n _

abbrev toy : Primitives
toy = record {
  hkdf = λ salt ikm info n. sevens n;
  hkdf_prk = λ prk info n. sevens n;
  dh = λ priv pub_key. sevens 32;
  b64_encode = λ s. s;
  b64_decode = λ s. some s;
  ml_kem_encapsulate = λ r pub_key. some (r, r);
  ml_kem_decapsulate = λ ct priv. some ct;
}

abbrev toy_documented : Documented toy
toy_documented = record {
  hkdf_bytes = λ salt ikm info n. All-sevens n;
  hkdf_size = λ salt ikm info n. length-sevens n;
  hkdf_prk_bytes = λ prk info n. All-sevens n;
  hkdf_prk_size = λ prk info n. length-sevens n;
  b64_decode-b64_encode = λ s. refl;
}

met :
    (r priv pub_key ct ss : Bytes)
    → priv ≡ pub_key
    → toy.ml_kem_encapsulate r pub_key ≡ some (ct, ss)
    → toy.ml_kem_decapsulate ct priv ≡ some ss
met r priv pub_key ct ss pair e = cc

abbrev toy_meets : Meets toy
toy_meets = record {
  IsPair = λ priv pub_key. priv ≡ pub_key;
  dh_comm = λ a_priv a_pub b_priv b_pub a b. refl;
  IsKemPair = λ priv pub_key. priv ≡ pub_key;
  ml_kem_opens = λ r priv pub_key ct ss pair e. met r priv pub_key ct ss pair e;
  ml_kem_works = λ r priv pub_key pair. (_, _, refl);
}

abbrev tag : Bytes
tag = replicate 16 0

abbrev cipher : Aead
cipher = record {
  encrypt = λ key nonce plaintext. some (plaintext ++ tag);
  decrypt = λ key nonce s. some (take (length s - 16) s);
  b64_encode = λ s. s;
  b64_decode = λ s. some s;
}

opened :
    (key nonce plaintext sealed : Bytes)
    → cipher.encrypt key nonce plaintext ≡ some sealed
    → cipher.decrypt key nonce sealed ≡ some plaintext
opened key nonce plaintext sealed e =
    let is : plaintext ++ tag ≡ sealed = cc in
    let size : length plaintext ≡ length (plaintext ++ tag) - 16 =
      omega (arith, length-append plaintext tag) in
    ap (λ s. some (take (length s - 16) s)) (sym is)
    ∙ ap some (take-prefix plaintext tag (length (plaintext ++ tag) - 16) size)

longer :
    (key nonce plaintext sealed : Bytes)
    → cipher.encrypt key nonce plaintext ≡ some sealed
    → length sealed ≡ length plaintext + 16
longer key nonce plaintext sealed e =
    let is : plaintext ++ tag ≡ sealed = cc in ap length (sym is) ∙ length-append plaintext tag

abbrev cipher_opens : Opens cipher
cipher_opens = record {
  decrypt-encrypt = opened;
  length-encrypt = longer;
  b64_decode-b64_encode = λ s. refl;
}

-- "hé" as UTF-8.
abbrev greeting : Bytes
greeting = 104 ∷ 195 ∷ 169 ∷ []

greeting_utf8 : is_utf8 greeting ≡ true
unfolding utf8_from
greeting_utf8 = refl

cut_character : is_utf8 (104 ∷ 195 ∷ []) ≡ false
unfolding utf8_from
cut_character = refl

open_with_secrets-encrypt_with_mk_example :
    (encrypt_with_mk toy cipher
        (sevens 1088)
        (sevens 12)
        greeting
        (sevens 32)
        (sevens 1184)
        (sevens 32)
      >>= λ env. open_with_secrets toy cipher env (sevens 32) (sevens 1088))
    ≡ ok greeting
open_with_secrets-encrypt_with_mk_example =
    open_with_secrets-encrypt_with_mk toy cipher toy_documented cipher_opens (sevens 1088)
      (sevens 12) greeting (sevens 32) (sevens 1184) (sevens 32) (sevens 1088) (sevens 1088)
      (pad_plaintext greeting ++ tag) refl (omega arith) greeting_utf8 refl refl

decrypt_hybrid-encrypt_to_hybrid_example :
    (encrypt_to_hybrid toy cipher
        (sevens 32)
        (sevens 32)
        (sevens 1088)
        (sevens 12)
        greeting
        (sevens 32)
        (sevens 2400)
      >>= λ env. decrypt_hybrid toy cipher env (sevens 32) (sevens 2400))
    ≡ ok greeting
decrypt_hybrid-encrypt_to_hybrid_example =
    decrypt_hybrid-encrypt_to_hybrid toy cipher toy_documented cipher_opens toy_meets (sevens 32)
      (sevens 32) (sevens 1088) (sevens 12) greeting (sevens 32) (sevens 32) (sevens 2400)
      (sevens 2400) (sevens 1088) (sevens 1088) (pad_plaintext greeting ++ tag) refl refl refl
      (length-sevens 32) (length-sevens 2400) (length-sevens 1088) (length-sevens 12) (omega arith)
      greeting_utf8 refl refl
