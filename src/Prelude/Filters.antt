-- ===== src/Prelude/Filters.antt =====
-- `Vec::retain`, `iter().any`, `find` and `position` over Boolean tests, and `All`.
use Prim.Native.Nat.{◌≤◌}
use mathlib.Core.Path.{◌≡◌, refl, sym, ap, ◌∙◌}
use mathlib.Core.Logic.{inl, inr}
use mathlib.Core.Bool.{Bool, true, false, ◌||◌}
use mathlib.Core.List.{List, [], ◌∷◌, ◌++◌}
use mathlib.Core.Option.{Option, none, some}
use native.Mathlib.Omega.{arith}
use hey_capsule.Prelude.Tests.{if◌then◌else◌, Bool-cases}
use hey_capsule.Prelude.Lists.{length}

abbrev pub option_map {ℓ κ} : {A : Type ℓ} {B : Type κ} → (A → B) → Option A → Option B
option_map f none = none
option_map f (some a) = some (f a)

module _ {ℓ} {A : Type ℓ} where
  unfoldable pub filter : (A → Bool) → List A → List A
  filter p [] = []
  filter p (x ∷ xs) = if p x then x ∷ filter p xs else filter p xs

  unfoldable pub any : (A → Bool) → List A → Bool
  any p [] = false
  any p (x ∷ xs) = p x || any p xs

  unfoldable pub find : (A → Bool) → List A → Option A
  find p [] = none
  find p (x ∷ xs) = if p x then some x else find p xs

  -- `if let Some(x) = iter_mut().find(p)`: change the first element that passes.
  unfoldable pub modify_first : (A → Bool) → (A → A) → List A → List A
  modify_first p f [] = []
  modify_first p f (x ∷ xs) = if p x then f x ∷ xs else x ∷ modify_first p f xs

  -- `remove(position(p))`, where there is one.
  unfoldable pub remove_first : (A → Bool) → List A → List A
  remove_first p [] = []
  remove_first p (x ∷ xs) = if p x then xs else x ∷ remove_first p xs

  abbrev pub All {κ} : (A → Type κ) → List A → Type κ
  All P [] = Unit
  All P (x ∷ xs) = P x × All P xs

  pub length-filter-le : (p : A → Bool) (xs : List A) → length (filter p xs) ≤ length xs
  unfolding filter
  length-filter-le p [] = omega arith
  length-filter-le p (x ∷ xs) = ground (arith, length-filter-le p xs)

  pub filter-append :
      (p : A → Bool) (xs ys : List A) → filter p (xs ++ ys) ≡ filter p xs ++ filter p ys
  unfolding filter
  filter-append p [] ys = refl
  filter-append p (x ∷ xs) ys = ground (arith, filter-append p xs ys)

  pub All-append {κ} : (P : A → Type κ) (xs ys : List A) → All P xs → All P ys → All P (xs ++ ys)
  All-append P [] ys h k = k
  All-append P (x ∷ xs) ys h k = (h.0, All-append P xs ys h.1 k)

  pub All-filter {κ} :
      (P : A → Type κ) (p : A → Bool) (xs : List A) → All P xs → All P (filter p xs)
  unfolding filter
  All-filter P p [] h = h
  All-filter P p (x ∷ xs) h = ground (arith, All-filter P p xs h.1, h.0)

  pub All-mono {κ μ} :
      (P : A → Type κ) (Q : A → Type μ) (xs : List A) → ((x : A) → P x → Q x) → All P xs → All Q xs
  All-mono P Q [] f h = tt
  All-mono P Q (x ∷ xs) f h = (f x h.0, All-mono P Q xs f h.1)

  pub find-modify_first :
      (p : A → Bool) (f : A → A) (xs : List A)
      → ((x : A) → p x ≡ true → p (f x) ≡ true)
      → find p (modify_first p f xs) ≡ option_map f (find p xs)
  unfolding find modify_first
  find-modify_first p f [] keeps = refl
  find-modify_first p f (x ∷ xs) keeps = elim (Bool-cases (p x)) [
    | inl here ↦ rw (here, keeps x here) refl
    | inr there ↦ rw (there, there) (find-modify_first p f xs keeps)
  ]

  -- Another element is found as before, where a change keeps what is asked.
  pub find-modify_first_other :
      (p q : A → Bool) (f : A → A) (xs : List A)
      → ((x : A) → p x ≡ true → q x ≡ false)
      → ((x : A) → p x ≡ true → q (f x) ≡ false)
      → find q (modify_first p f xs) ≡ find q xs
  unfolding find modify_first
  find-modify_first_other p q f [] before after = refl
  find-modify_first_other p q f (x ∷ xs) before after = elim (Bool-cases (p x)) [
    | inl here ↦ rw (here, before x here, after x here) refl
    | inr there ↦
        rw there
          (ap (λ o. if q x then some x else o) (find-modify_first_other p q f xs before after))
  ]

  pub find-append :
      (p : A → Bool) (xs ys : List A)
      → find p (xs ++ ys) ≡ (elim (find p xs) [ none ↦ find p ys | some x ↦ some x ])
  unfolding find
  find-append p [] ys = refl
  find-append p (x ∷ xs) ys = elim (Bool-cases (p x)) [
    | inl here ↦ rw here refl
    | inr there ↦ rw there (find-append p xs ys)
  ]

  pub find-some : (p : A → Bool) (xs : List A) (x : A) → find p xs ≡ some x → p x ≡ true
  unfolding find
  find-some p [] x e = ground arith
  find-some p (y ∷ ys) x e = elim (Bool-cases (p y)) [
    | inl here ↦ let same : some y ≡ some x = sym (rw here refl) ∙ e in ground (arith, same, here)
    | inr there ↦ ground (arith, there, find-some p ys x)
  ]

  pub find-filter-none :
      (p q : A → Bool) (xs : List A)
      → ((x : A) → q x ≡ true → p x ≡ false)
      → find q (filter p xs) ≡ none
  unfolding find filter
  find-filter-none p q [] h = refl
  find-filter-none p q (x ∷ xs) h = elim (Bool-cases (q x)) [
    | inl here ↦ rw (h x here) (find-filter-none p q xs h)
    | inr there ↦ ground (arith, there, find-filter-none p q xs h)
  ]
