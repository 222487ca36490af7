-- ===== src/Identity/Base58/Decoding.antt =====
-- The base58 decoder, on the digits of a number.
use hey_capsule.Prelude.{
  ℕ, zero, suc, ◌+◌, ◌*◌, ◌<◌, ◌≡◌, refl, ap, ◌∙◌, sym, Bool, true, false, ◌&&◌, none, some, List,
  [], ◌∷◌, ◌++◌, All, Text, ◌==◌, if◌then◌else◌, ok, ◌>>=◌, Bool-cases, Option-cases, inl, inr,
  arith,
}
use hey_capsule.Identity.Hex.{IsByte}
use hey_capsule.Identity.Base58.{
  base58_char, chars, reverse, index_of, digit_of, mul_add, push_carry, decode_step, decode_loop,
}
use hey_capsule.Identity.Base58.Digits.{number, IsStripped, number-mul_add, mul_add-lt}
use hey_capsule.Identity.Base58.Encoding.{number58}

-- A number and the bytes that stand for it, with no zero at the start.
pub record Stands (n : ℕ) (bs : List ℕ) : Type 0 where
  pub value : number 0 bs ≡ n
  pub stripped : IsStripped bs
  pub bytes : All IsByte bs

push_carry-digit :
    (carry : ℕ) (acc : List ℕ)
    → carry < 58
    → push_carry 4 carry acc ≡ (if carry == 0 then acc else carry ∷ acc)
unfolding push_carry
push_carry-digit carry acc h = ground (arith, h)

mul_add-bytes : (carry : ℕ) (ds : List ℕ) → All IsByte (mul_add ds carry).0
unfolding mul_add
mul_add-bytes carry [] = tt
mul_add-bytes carry (d ∷ ds) = (omega arith, mul_add-bytes carry ds)

decode_step-IsStripped :
    (acc : List ℕ) (digit : ℕ)
    → IsStripped acc
    → (mul_add acc digit).1 ≡ 0
    → IsStripped (mul_add acc digit).0
unfolding mul_add
decode_step-IsStripped [] digit s e = tt
decode_step-IsStripped (d ∷ ds) digit s e = omega (arith, s, e)

decode_step-Stands :
    (acc : List ℕ) (digit n : ℕ)
    → digit < 58
    → Stands n acc
    → Stands (n * 58 + digit) (decode_step acc digit)
unfolding decode_step number
decode_step-Stands acc digit n h st =
    let r = mul_add acc digit in
    let small = mul_add-lt digit acc h st.bytes in
    let plus : r.1 ≡ 0 * 58 + r.1 = omega arith in
    let shifted : r.1 ≡ 0 * 256 + r.1 = omega arith in
    let value : number r.1 r.0 ≡ n * 58 + digit =
      ap (λ c. number c r.0) plus
      ∙ number-mul_add 0 digit acc
      ∙ ap (λ m. m * 58 + digit) st.value in
    rw (push_carry-digit r.1 r.0 small) (elim (Bool-cases (r.1 == 0)) [
      | inl e ↦
          let e' : r.1 ≡ 0 = ground (arith, e) in
          rw e (record {
            value = ap (λ c. number c r.0) (sym e') ∙ value;
            stripped = decode_step-IsStripped acc digit st.stripped e';
            bytes = mul_add-bytes digit acc;
          })
      | inr e ↦ rw e (record {
        value = ap (λ c. number c r.0) (sym shifted) ∙ value;
        stripped = ground (arith, e);
        bytes = (omega (arith, small), mul_add-bytes digit acc);
      })
    ])

pub decode_loop-append :
    (acc : List ℕ) (s t : Text)
    → decode_loop acc (s ++ t) ≡ (decode_loop acc s >>= λ b. decode_loop b t)
unfolding decode_loop
decode_loop-append acc [] t = refl
decode_loop-append acc (c ∷ s) t = elim (Option-cases (digit_of c)) [
  | inl bad ↦ rw bad refl
  | inr (digit, e) ↦ rw e (decode_loop-append (decode_step acc digit) s t)
]

-- The test of the first `n` digits.
unfoldable is_known : ℕ → Bool
is_known n = elim (digit_of (base58_char n)) [ none ↦ false | some d ↦ d == n ]

unfoldable all_known : ℕ → Bool
all_known zero = true
all_known (suc n) = is_known n && all_known n

is_known_lem : (n : ℕ) → is_known n ≡ true → digit_of (base58_char n) ≡ some n
unfolding is_known
is_known_lem n e = elim (Option-cases (digit_of (base58_char n))) [
  | inl bad ↦ ground (arith, e, bad)
  | inr (d, found) ↦ ground (arith, e, found)
]

all_known_lem : (n d : ℕ) → d < n → all_known n ≡ true → is_known d ≡ true
unfolding all_known
all_known_lem zero d h all = absurd (omega (arith, h))
all_known_lem (suc n) d h all = ground (arith, all_known_lem n d, all, h)

pub digit_of-base58_char : (d : ℕ) → d < 58 → digit_of (base58_char d) ≡ some d
unfolding all_known is_known digit_of index_of
digit_of-base58_char d h = is_known_lem d (all_known_lem 58 d h refl)

-- The digits of a number, the highest first, are decoded to bytes that stand for it.
pub decode_loop-chars :
    (out : List ℕ)
    → All (λ d. d < 58) out
    → (bs : List ℕ) × (decode_loop [] (reverse (chars out)) ≡ ok bs) × Stands (number58 out) bs
unfolding decode_loop reverse chars number58 number
decode_loop-chars [] h = ([], refl, record { value = refl; stripped = tt; bytes = tt })
decode_loop-chars (d ∷ out) h =
    let (bs, e, st) = decode_loop-chars out h.1 in
    (
      decode_step bs d,
      decode_loop-append [] (reverse (chars out)) (base58_char d ∷ [])
          ∙ rw (e, digit_of-base58_char d h.0) refl,
      decode_step-Stands bs d (number58 out) h.0 st,
    )
