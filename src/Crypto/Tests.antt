-- ===== src/Crypto/Tests.antt =====
-- Padding and attachments at concrete inputs, with a toy cipher that appends a tag of 16 bytes.
use hey_capsule.Prelude.{
  ◌+◌, ◌-◌, ◌≡◌, refl, ◌∙◌, ap, sym, some, ◌++◌, codes, ok, ◌>>=◌, length, take, replicate,
  length-append, find, arith,
}
use hey_capsule.Crypto.Kdf.{Bytes}
use hey_capsule.Crypto.Padding.{
  to_be_bytes, from_be_bytes, resize, bucket, pad_target, pad_plaintext, unpad, unpad_plaintext,
  leading_one, round_up, padme_bucket, att_bucket, pad_attachment, unpad_attachment,
}
use hey_capsule.Crypto.Padding.Roundtrip.{take-prefix, unpad_plaintext-pad_plaintext}
use hey_capsule.Crypto.Attachment.{
  Aead, Opens, encrypt_attachment, decrypt_attachment, decrypt_attachment-encrypt_attachment,
}

abbrev hello : Bytes
hello = codes "hello"

program : Unit {0}
unfolding to_be_bytes from_be_bytes resize bucket pad_target pad_plaintext unpad unpad_plaintext
    leading_one round_up padme_bucket att_bucket pad_attachment unpad_attachment find
program = tt

first_bucket : length (pad_plaintext hello) ≡ 256
unfolding program
first_bucket = refl

padme_of_100000 : padme_bucket 100000 ≡ 100352
unfolding program
padme_of_100000 = refl

unpad_plaintext-pad_plaintext_example : unpad_plaintext (pad_plaintext hello) ≡ ok hello
unpad_plaintext-pad_plaintext_example = unpad_plaintext-pad_plaintext hello (omega arith)

abbrev tag : Bytes
tag = replicate 16 0

abbrev toy : Aead
toy = record {
  encrypt = λ key nonce plaintext. some (plaintext ++ tag);
  decrypt = λ key nonce s. some (take (length s - 16) s);
  b64_encode = λ s. s;
  b64_decode = λ s. some s;
}

opened :
    (key nonce plaintext sealed : Bytes)
    → toy.encrypt key nonce plaintext ≡ some sealed
    → toy.decrypt key nonce sealed ≡ some plaintext
opened key nonce plaintext sealed e =
    let is : plaintext ++ tag ≡ sealed = cc in
    let size : length plaintext ≡ length (plaintext ++ tag) - 16 =
      omega (arith, length-append plaintext tag) in
    ap (λ s. some (take (length s - 16) s)) (sym is)
    ∙ ap some (take-prefix plaintext tag (length (plaintext ++ tag) - 16) size)

longer :
    (key nonce plaintext sealed : Bytes)
    → toy.encrypt key nonce plaintext ≡ some sealed
    → length sealed ≡ length plaintext + 16
longer key nonce plaintext sealed e =
    let is : plaintext ++ tag ≡ sealed = cc in ap length (sym is) ∙ length-append plaintext tag

abbrev toy_opens : Opens toy
toy_opens = record {
  decrypt-encrypt = opened;
  length-encrypt = longer;
  b64_decode-b64_encode = λ s. refl;
}

abbrev key : Bytes
key = replicate 32 5

abbrev nonce : Bytes
nonce = replicate 12 6

decrypt_attachment-encrypt_attachment_example :
    (encrypt_attachment toy key nonce hello >>= λ r. decrypt_attachment toy r.0 r.1) ≡ ok hello
decrypt_attachment-encrypt_attachment_example =
    decrypt_attachment-encrypt_attachment toy toy_opens key nonce hello
      (pad_attachment hello ++ tag) refl refl (omega arith) refl
