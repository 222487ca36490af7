-- ===== src/Identity/Base58/Digits.antt =====
-- The numbers that digits stand for, the first digit the highest (base 256) or the lowest (base 58).
use hey_capsule.Prelude.{
  ℕ, ◌+◌, ◌*◌, ◌/◌, ◌%◌, ◌≤◌, ◌<◌, ◌≡◌, refl, ap, ◌∙◌, List, [], ◌∷◌, All, arith,
}
use hey_capsule.Identity.Hex.{IsByte}
use hey_capsule.Identity.Base58.{divide, strip_zeros, mul_add}

-- `acc` followed by the digits, in base 256.
unfoldable pub number : ℕ → List ℕ → ℕ
number acc [] = acc
number acc (d ∷ ds) = number (acc * 256 + d) ds

-- No zero at the start.
abbrev pub IsStripped : List ℕ → Type 0
IsStripped [] = Unit
IsStripped (d ∷ ds) = 1 ≤ d

pub number-le : (acc : ℕ) (ds : List ℕ) → acc ≤ number acc ds
unfolding number
number-le acc [] = omega arith
number-le acc (d ∷ ds) = omega (arith, number-le (acc * 256 + d) ds)

pub number-divide :
    (q rem : ℕ) (ds : List ℕ)
    → number (q * 58 + rem) ds ≡ number q (divide rem ds).0 * 58 + (divide rem ds).1
unfolding number divide
number-divide q rem [] = refl
number-divide q rem (d ∷ ds) =
    let cur = rem * 256 + d in
    let same : (q * 58 + rem) * 256 + d ≡ (q * 256 + cur / 58) * 58 + cur % 58 = omega arith in
    ap (λ n. number n ds) same ∙ number-divide (q * 256 + cur / 58) (cur % 58) ds

pub divide-lt : (rem : ℕ) (ds : List ℕ) → rem < 58 → (divide rem ds).1 < 58
unfolding divide
divide-lt rem [] h = h
divide-lt rem (d ∷ ds) h = divide-lt ((rem * 256 + d) % 58) ds (omega arith)

pub divide-bytes : (rem : ℕ) (ds : List ℕ) → rem < 58 → All IsByte ds → All IsByte (divide rem ds).0
unfolding divide
divide-bytes rem [] h b = tt
divide-bytes rem (d ∷ ds) h b =
    (omega (arith, b.0), divide-bytes ((rem * 256 + d) % 58) ds (omega arith) b.1)

pub strip_zeros-IsStripped : (ds : List ℕ) → IsStripped (strip_zeros ds)
unfolding strip_zeros
strip_zeros-IsStripped [] = tt
strip_zeros-IsStripped (d ∷ ds) = ground (arith, strip_zeros-IsStripped ds)

pub number-strip_zeros : (ds : List ℕ) → number 0 (strip_zeros ds) ≡ number 0 ds
unfolding number strip_zeros
number-strip_zeros [] = refl
number-strip_zeros (d ∷ ds) = ground (arith, number-strip_zeros ds)

pub number-mul_add :
    (q carry : ℕ) (ds : List ℕ)
    → number (q * 58 + (mul_add ds carry).1) (mul_add ds carry).0 ≡ number q ds * 58 + carry
unfolding number mul_add
number-mul_add q carry [] = refl
number-mul_add q carry (d ∷ ds) =
    let r = mul_add ds carry in
    let v = d * 58 + r.1 in
    let same : (q * 58 + v / 256) * 256 + v % 256 ≡ (q * 256 + d) * 58 + r.1 = omega arith in
    ap (λ n. number n r.0) same ∙ number-mul_add (q * 256 + d) carry ds

pub mul_add-lt : (carry : ℕ) (ds : List ℕ) → carry < 58 → All IsByte ds → (mul_add ds carry).1 < 58
unfolding mul_add
mul_add-lt carry [] h b = h
mul_add-lt carry (d ∷ ds) h b = omega (arith, b.0, mul_add-lt carry ds h b.1)
