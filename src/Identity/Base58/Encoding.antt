-- ===== src/Identity/Base58/Encoding.antt =====
-- The base58 encoder: it ends, and its digits are those of the number that the bytes stand for.
use native.Mathlib.Nat.{pow-suc}
use hey_capsule.Prelude.{
  Text, ℕ, zero, suc, ◌+◌, ◌*◌, ◌^◌, ◌≤◌, ◌<◌, ◌≡◌, refl, ap, ◌∙◌, sym, subst, some, List, [], ◌∷◌,
  ◌++◌, All, length, replicate, option_map, arith,
}
use hey_capsule.Identity.Hex.{IsByte}
use hey_capsule.Identity.Base58.{
  divide, strip_zeros, encode_loop, base58_encode, chars, reverse, leading,
}
use hey_capsule.Identity.Base58.Digits.{
  number, IsStripped, number-le, number-divide, divide-lt, strip_zeros-IsStripped,
  number-strip_zeros,
}

-- Digits in base 58, the lowest first.
unfoldable pub number58 : List ℕ → ℕ
number58 [] = 0
number58 (d ∷ ds) = number58 ds * 58 + d

-- The highest digit is not zero.
abbrev pub IsCanonical : List ℕ → Type 0
IsCanonical [] = Unit
IsCanonical (d ∷ []) = 1 ≤ d
IsCanonical (d ∷ e ∷ ds) = IsCanonical (e ∷ ds)

pub record Encodes (n : ℕ) (out : List ℕ) : Type 0 where
  pub value : number58 out ≡ n
  pub canonical : IsCanonical out
  pub digits : All (λ d. d < 58) out

number-lt :
    (k acc : ℕ) (ds : List ℕ)
    → All IsByte ds
    → acc < 58 ^ k
    → number acc ds < 58 ^ (k + length ds + length ds)
unfolding number
number-lt k acc [] b h = let same : k ≡ k + 0 + 0 = omega arith in subst (λ e. acc < 58 ^ e) same h
number-lt k acc (d ∷ ds) b h =
    let wider : acc * 256 + d < 58 ^ suc (suc k) = rw (pow-suc, pow-suc) (omega (arith, b.0, h)) in
    let same : suc (suc k) + length ds + length ds ≡ k + suc (length ds) + suc (length ds) =
      omega arith in
    subst (λ e. number (acc * 256 + d) ds < 58 ^ e) same
      (number-lt (suc (suc k)) (acc * 256 + d) ds b.1 wider)

-- What is left to encode after a round.
abbrev pub quotient : List ℕ → List ℕ
quotient ds = strip_zeros (divide 0 ds).0

number-quotient : (ds : List ℕ) → number 0 ds ≡ number 0 (quotient ds) * 58 + (divide 0 ds).1
number-quotient ds =
    number-divide 0 0 ds
    ∙ ap (λ n. n * 58 + (divide 0 ds).1) (sym (number-strip_zeros (divide 0 ds).0))

quotient-lt : (k : ℕ) (ds : List ℕ) → number 0 ds < 58 ^ suc k → number 0 (quotient ds) < 58 ^ k
quotient-lt k ds h =
    let h' : number 0 ds < 58 ^ k * 58 = rw (← pow-suc) h in omega (arith, number-quotient ds, h')

Encodes-round :
    (ds out : List ℕ)
    → 1 ≤ number 0 ds
    → Encodes (number 0 (quotient ds)) out
    → Encodes (number 0 ds) ((divide 0 ds).1 ∷ out)
unfolding number58
Encodes-round ds [] positive e = record {
  value = omega (arith, e.value, number-quotient ds);
  canonical = omega (arith, e.value, number-quotient ds, positive);
  digits = (divide-lt 0 ds (omega arith), tt);
}
Encodes-round ds (d ∷ out) positive e = record {
  value = omega (arith, e.value, number-quotient ds);
  canonical = e.canonical;
  digits = (divide-lt 0 ds (omega arith), e.digits);
}

encode_loop-suc :
    (k d : ℕ) (ds out : List ℕ)
    → encode_loop k (quotient (d ∷ ds)) ≡ some out
    → encode_loop (suc k) (d ∷ ds) ≡ some ((divide 0 (d ∷ ds)).1 ∷ out)
unfolding encode_loop
encode_loop-suc k d ds out e = ap (option_map (λ out. (divide 0 (d ∷ ds)).1 ∷ out)) e

-- As many rounds as the number has digits in base 58 are enough.
pub encode_loop_lem :
    (k : ℕ) (ds : List ℕ)
    → IsStripped ds
    → number 0 ds < 58 ^ k
    → (out : List ℕ) × (encode_loop k ds ≡ some out) × Encodes (number 0 ds) out
unfolding encode_loop number number58
encode_loop_lem k [] s h = ([], refl, record { value = refl; canonical = tt; digits = tt })
encode_loop_lem zero (d ∷ ds) s h = absurd (omega (arith, number-le (0 * 256 + d) ds, s, h))
encode_loop_lem (suc k) (d ∷ ds) s h =
    let (out, e, enc) =
      encode_loop_lem k (quotient (d ∷ ds)) (strip_zeros-IsStripped (divide 0 (d ∷ ds)).0)
        (quotient-lt k (d ∷ ds) h) in
    (
      (divide 0 (d ∷ ds)).1 ∷ out,
      encode_loop-suc k d ds out e,
      Encodes-round (d ∷ ds) out (omega (arith, number-le (0 * 256 + d) ds, s)) enc,
    )

pub encode_loop-ends :
    (ds : List ℕ)
    → All IsByte ds
    → (out : List ℕ) × (encode_loop (length ds + length ds) ds ≡ some out)
      × (1 ≤ number 0 ds → Encodes (number 0 ds) out)
unfolding encode_loop number number58
encode_loop-ends [] b = ([], refl, λ _. record { value = refl; canonical = tt; digits = tt })
encode_loop-ends (d ∷ ds) b =
    let rounds = length ds + suc (length ds) in
    let same : 0 + suc (length ds) + suc (length ds) ≡ suc rounds = omega arith in
    let fits : number 0 (d ∷ ds) < 58 ^ suc rounds =
      subst (λ e. number 0 (d ∷ ds) < 58 ^ e) same (number-lt 0 0 (d ∷ ds) b (omega arith)) in
    let (out, e, enc) =
      encode_loop_lem rounds (quotient (d ∷ ds)) (strip_zeros-IsStripped (divide 0 (d ∷ ds)).0)
        (quotient-lt rounds (d ∷ ds) fits) in
    let same_rounds : suc (length ds) + suc (length ds) ≡ suc rounds = omega arith in
    (
      (divide 0 (d ∷ ds)).1 ∷ out,
      ap (λ n. encode_loop n (d ∷ ds)) same_rounds ∙ encode_loop-suc rounds d ds out e,
      λ positive. Encodes-round (d ∷ ds) out positive enc,
    )

-- The encoder ends on every list of bytes, within two rounds for each.
pub base58_encode-ends : (buf : List ℕ) → All IsByte buf → (t : Text) × (base58_encode buf ≡ some t)
unfolding base58_encode
base58_encode-ends buf b =
    let (out, e, _) = encode_loop-ends buf b in
    (
      reverse (chars out ++ replicate (leading 0 buf) b'1'),
      ap (option_map (λ out. reverse (chars out ++ replicate (leading 0 buf) b'1'))) e,
    )
