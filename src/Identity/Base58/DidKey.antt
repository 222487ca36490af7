-- ===== src/Identity/Base58/DidKey.antt =====
-- The round trips of base58 and of did:key.
use hey_capsule.Prelude.{
  ℕ, zero, suc, ◌+◌, ◌-◌, ◌*◌, ◌≤◌, ◌<◌, ◌≡◌, refl, ap, ◌∙◌, sym, false, some, List, [], ◌∷◌, ◌++◌,
  append-nil, append_assoc, All, Text, length, length-append, length-replicate, replicate, leb,
  strip_prefix-append, option_map, ◌==◌, ok, Bool-cases, inl, inr, arith, All-append,
}
use hey_capsule.Identity.Hex.{IsByte, IsKey}
use hey_capsule.Identity.Base58.{
  base58_char, chars, reverse, leading, digit_of, index_of, mul_add, push_carry, decode_step,
  decode_loop, base58_encode, base58_decode, did_prefix, public_key_to_did_key, key_of,
  did_key_to_public_key,
}
use hey_capsule.Identity.Base58.Digits.{number, number-le, IsStripped}
use hey_capsule.Identity.Base58.Encoding.{number58, IsCanonical, encode_loop-ends}
use hey_capsule.Identity.Base58.Decoding.{Stands, decode_loop-chars, digit_of-base58_char}

number-injective :
    (a b : ℕ) (xs ys : List ℕ)
    → length xs ≡ length ys
    → All IsByte xs
    → All IsByte ys
    → number a xs ≡ number b ys
    → (a ≡ b) × (xs ≡ ys)
unfolding number
number-injective a b [] [] l hx hy e = (e, refl)
number-injective a b [] (y ∷ ys) l hx hy e = absurd (omega (arith, l))
number-injective a b (x ∷ xs) [] l hx hy e = absurd (omega (arith, l))
number-injective a b (x ∷ xs) (y ∷ ys) l hx hy e =
    let (heads, tails) =
      number-injective (a * 256 + x) (b * 256 + y) xs ys (omega (arith, l)) hx.1 hy.1 e in
    let same : x ≡ y = omega (arith, heads, hx.0, hy.0) in
    (omega (arith, heads, hx.0, hy.0), ap (λ d. d ∷ xs) same ∙ ap (λ ds. y ∷ ds) tails)

number-zeros : (k : ℕ) (xs : List ℕ) → number 0 (replicate k 0 ++ xs) ≡ number 0 xs
unfolding number
number-zeros zero xs = refl
number-zeros (suc k) xs = number-zeros k xs

All-zeros : (k : ℕ) → All IsByte (replicate k 0)
All-zeros zero = tt
All-zeros (suc k) = (omega arith, All-zeros k)

-- A shorter number without leading zeros is another.
not_longer :
    (xs ys : List ℕ)
    → All IsByte xs
    → All IsByte ys
    → IsStripped ys
    → number 0 xs ≡ number 0 ys
    → length ys ≤ length xs
not_longer xs [] hx hy s e = omega arith
not_longer xs (y ∷ ys) hx hy s e = elim (Bool-cases (leb (suc (length ys)) (length xs))) [
  | inl fits ↦ ground (arith, fits)
  | inr short ↦
      let k = length ys - length xs in
      let short' : length xs ≤ length ys = ground (arith, short) in
      let as_long : suc (length (replicate k 0 ++ xs)) ≡ suc (length ys) =
        omega (arith, length-append (replicate k 0) xs, length-replicate {A = ℕ} k 0, short') in
      let same =
        number-injective 0 0 (replicate (suc k) 0 ++ xs) (y ∷ ys) as_long
          (All-append IsByte (replicate (suc k) 0) xs (All-zeros (suc k)) hx) hy
          (number-zeros (suc k) xs ∙ e) in
      ground (arith, same.1, s)
]

pub Stands-unique : (n : ℕ) (xs ys : List ℕ) → Stands n xs → Stands n ys → xs ≡ ys
Stands-unique n xs ys hx hy =
    let same = hx.value ∙ sym hy.value in
    let le = not_longer xs ys hx.bytes hy.bytes hy.stripped same in
    let ge = not_longer ys xs hy.bytes hx.bytes hx.stripped (sym same) in
    (number-injective 0 0 xs ys (omega (arith, le, ge)) hx.bytes hy.bytes same).1

reverse-append : (xs ys : List ℕ) → reverse (xs ++ ys) ≡ reverse ys ++ reverse xs
unfolding reverse
reverse-append [] ys = sym (append-nil (reverse ys))
reverse-append (x ∷ xs) ys =
    ap (λ zs. zs ++ (x ∷ [])) (reverse-append xs ys)
    ∙ append_assoc (reverse ys) (reverse xs) (x ∷ [])

replicate-last : (k c : ℕ) → replicate k c ++ (c ∷ []) ≡ c ∷ replicate k c
replicate-last zero c = refl
replicate-last (suc k) c = ap (λ s. c ∷ s) (replicate-last k c)

reverse-replicate : (k c : ℕ) → reverse (replicate k c) ≡ replicate k c
unfolding reverse
reverse-replicate zero c = refl
reverse-replicate (suc k) c = ap (λ s. s ++ (c ∷ [])) (reverse-replicate k c) ∙ replicate-last k c

leading-replicate : (k c : ℕ) (s : List ℕ) → leading c s ≡ 0 → leading c (replicate k c ++ s) ≡ k
unfolding leading
leading-replicate zero c s e = e
leading-replicate (suc k) c s e = ground (arith, leading-replicate k c s e)

-- A digit that is not zero is not written `1`.
not_one : (d : ℕ) → 1 ≤ d → d < 58 → (base58_char d == b'1') ≡ false
unfolding digit_of index_of
not_one d h lt = elim (Bool-cases (base58_char d == b'1')) [
  | inr other ↦ other
  | inl one ↦
      let e : base58_char d ≡ b'1' = ground (arith, one) in
      let zero_digit : some d ≡ some 0 = sym (digit_of-base58_char d lt) ∙ ap digit_of e in
      ground (arith, zero_digit, h)
]

leading-append : (c : ℕ) (s t : List ℕ) → 1 ≤ length s → leading c s ≡ 0 → leading c (s ++ t) ≡ 0
unfolding leading
leading-append c [] t l e = absurd (omega (arith, l))
leading-append c (x ∷ s) t l e = ground (arith, e)

leading-chars :
    (out : List ℕ)
    → IsCanonical out
    → All (λ d. d < 58) out
    → leading b'1' (reverse (chars out)) ≡ 0
unfolding leading reverse chars
leading-chars [] c h = refl
leading-chars (d ∷ []) c h = rw (not_one d c h.0) refl
leading-chars (d ∷ e ∷ out) c h =
    let rest = reverse (chars out) ++ (base58_char e ∷ []) in
    let some_digit : 1 ≤ length rest =
      omega (arith, length-append (reverse (chars out)) (base58_char e ∷ [])) in
    leading-append b'1' rest (base58_char d ∷ []) some_digit (leading-chars (e ∷ out) c h.1)

-- Zeros at the start are skipped by the decoding loop, which begins with nothing.
decode_loop-ones : (k : ℕ) (s : Text) → decode_loop [] (replicate k b'1' ++ s) ≡ decode_loop [] s
unfolding decode_loop decode_step mul_add push_carry digit_of index_of
decode_loop-ones zero s = refl
decode_loop-ones (suc k) s = decode_loop-ones k s

number_positive : (k d : ℕ) (ds : List ℕ) → 1 ≤ d → 1 ≤ number 0 (replicate k 0 ++ (d ∷ ds))
unfolding number
number_positive k d ds h =
    rw (number-zeros k (d ∷ ds)) (omega (arith, h, number-le (0 * 256 + d) ds))

-- The decoder gives back every list of bytes that does not consist of zeros alone.
pub base58_decode-base58_encode :
    (k d : ℕ) (ds : List ℕ)
    → 1 ≤ d
    → All IsByte (d ∷ ds)
    → (t : Text) × (base58_encode (replicate k 0 ++ (d ∷ ds)) ≡ some t)
      × (base58_decode t ≡ ok (replicate k 0 ++ (d ∷ ds)))
unfolding base58_encode base58_decode leading number
base58_decode-base58_encode k d ds h b =
    let buf = replicate k 0 ++ (d ∷ ds) in
    let (out, e, encodes) =
      encode_loop-ends buf (All-append IsByte (replicate k 0) (d ∷ ds) (All-zeros k) b) in
    let enc = encodes (number_positive k d ds h) in
    let (bs, decoded, stands) = decode_loop-chars out enc.digits in
    let is : Stands (number58 out) (d ∷ ds) = record {
      value = sym (number-zeros k (d ∷ ds)) ∙ sym enc.value;
      stripped = h;
      bytes = b;
    } in
    let zeros : leading 0 buf ≡ k = leading-replicate k 0 (d ∷ ds) (ground (arith, h)) in
    let shape : reverse (chars out ++ replicate (leading 0 buf) b'1')
        ≡ replicate k b'1' ++ reverse (chars out) =
      ap (λ n. reverse (chars out ++ replicate n b'1')) zeros
      ∙ reverse-append (chars out) (replicate k b'1')
      ∙ ap (λ s. s ++ reverse (chars out)) (reverse-replicate k b'1') in
    let ones =
      leading-replicate k b'1' (reverse (chars out)) (leading-chars out enc.canonical enc.digits) in
    (
      replicate k b'1' ++ reverse (chars out),
      ap (option_map (λ o. reverse (chars o ++ replicate (leading 0 buf) b'1'))) e ∙ ap some shape,
      rw (decode_loop-ones k (reverse (chars out)), decoded, ones)
          (ap (λ r. ok (replicate k 0 ++ r)) (Stands-unique (number58 out) bs (d ∷ ds) stands is)),
    )

-- A public key of 32 bytes comes back from its did:key.
pub did_key_to_public_key-public_key_to_did_key :
    (pk : List ℕ)
    → IsKey pk
    → (did : Text) × (public_key_to_did_key pk ≡ some did) × (did_key_to_public_key did ≡ ok pk)
unfolding public_key_to_did_key did_key_to_public_key key_of
did_key_to_public_key-public_key_to_did_key pk is_key =
    let (t, encoded, decoded) =
      base58_decode-base58_encode 0 237 (1 ∷ pk) (omega arith)
        (omega arith, (omega arith, is_key.bytes)) in
    (
      did_prefix ++ t,
      ap (option_map (λ s. did_prefix ++ s)) encoded,
      rw (strip_prefix-append did_prefix t, decoded) (ground (arith, is_key.size)),
    )
