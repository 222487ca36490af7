-- ===== src/Prelude/Pigeonhole.antt =====
-- Lists of numbers without repetition, by a Boolean membership test, and the pigeonhole principle.
use Prim.Native.Nat.{ℕ, zero, suc, ◌≤◌, ◌<◌}
use mathlib.Core.Path.{◌≡◌, refl}
use mathlib.Core.Logic.{inl, inr}
use mathlib.Core.Bool.{Bool, true, false, ◌||◌}
use mathlib.Core.List.{List, [], ◌∷◌}
use native.Mathlib.Omega.{arith}
use hey_capsule.Prelude.Tests.{◌==◌, ltb, Bool-cases}
use hey_capsule.Prelude.Lists.{length}
use hey_capsule.Prelude.Filters.{All, filter}

unfoldable pub elem : ℕ → List ℕ → Bool
elem i [] = false
elem i (x ∷ xs) = x == i || elem i xs

abbrev pub Distinct : List ℕ → Type 0
Distinct [] = Unit
Distinct (x ∷ xs) = (elem x xs ≡ false) × Distinct xs

abbrev Below : ℕ → List ℕ → Type 0
Below n = All (λ i. i < n)

length-filter_same :
    (n : ℕ) (xs : List ℕ)
    → Below (suc n) xs
    → elem n xs ≡ false
    → length (filter (λ i. ltb i n) xs) ≡ length xs
unfolding filter elem
length-filter_same n [] h k = refl
length-filter_same n (x ∷ xs) h k = ground (arith, length-filter_same n xs h.1)

length-filter_lt :
    (n : ℕ) (xs : List ℕ)
    → Below (suc n) xs
    → Distinct xs
    → length xs ≤ suc (length (filter (λ i. ltb i n) xs))
unfolding filter
length-filter_lt n [] h d = omega arith
length-filter_lt n (x ∷ xs) h d = elim (Bool-cases (ltb x n)) [
  | inl lt ↦ ground (arith, length-filter_lt n xs h.1 d.1)
  | inr ge ↦
      let e : x ≡ n = ground arith in ground (arith, length-filter_same n xs h.1 (rw e at d.0))
]

elem-filter :
    (p : ℕ → Bool) (i : ℕ) (xs : List ℕ) → elem i xs ≡ false → elem i (filter p xs) ≡ false
unfolding filter elem
elem-filter p i [] h = refl
elem-filter p i (x ∷ xs) h = ground (arith, elem-filter p i xs)

filter-Distinct : (p : ℕ → Bool) (xs : List ℕ) → Distinct xs → Distinct (filter p xs)
unfolding filter
filter-Distinct p [] d = tt
filter-Distinct p (x ∷ xs) d = ground (arith, filter-Distinct p xs d.1, elem-filter p x xs d.0)

filter-Below : (n : ℕ) (xs : List ℕ) → Below n (filter (λ i. ltb i n) xs)
unfolding filter
filter-Below n [] = tt
filter-Below n (x ∷ xs) = ground (arith, filter-Below n xs)

-- At most `n` different numbers lie below `n`.
pub length-le_of_Distinct : (n : ℕ) (xs : List ℕ) → Below n xs → Distinct xs → length xs ≤ n
length-le_of_Distinct zero [] h d = omega arith
length-le_of_Distinct zero (x ∷ xs) h d = absurd (omega arith)
length-le_of_Distinct (suc n) xs h d = omega (
  arith,
  length-filter_lt n xs h d,
  length-le_of_Distinct n (filter (λ i. ltb i n) xs) (filter-Below n xs)
      (filter-Distinct (λ i. ltb i n) xs d),
)

-- So `n` different numbers below `n` are all of them.
pub elem_of_full :
    (n i : ℕ) (xs : List ℕ) → Below n xs → Distinct xs → length xs ≡ n → i < n → elem i xs ≡ true
elem_of_full n i xs h d e lt = elim (Bool-cases (elem i xs)) [
  | inl here ↦ here
  | inr missing ↦ absurd (omega (arith, length-le_of_Distinct n (i ∷ xs) (lt, h) (missing, d)))
]
