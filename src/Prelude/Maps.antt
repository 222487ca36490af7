-- ===== src/Prelude/Maps.antt =====
-- Maps (`HashMap`, `BTreeMap`) as association lists, over keys with a Boolean equality. The order
-- of the entries is an accident of the representation; `size` is the map's `len`.
use Prim.Native.Nat.{suc, ◌≤◌}
use mathlib.Core.Path.{◌≡◌, refl, subst}
use mathlib.Core.Logic.{inl, inr}
use mathlib.Core.Bool.{Bool, true, false}
use mathlib.Core.List.{List, [], ◌∷◌}
use mathlib.Core.Option.{Option, none, some}
use native.Mathlib.Omega.{arith}
use hey_capsule.Prelude.Tests.{if◌then◌else◌, Bool-cases}
use hey_capsule.Prelude.Lists.{length}
use hey_capsule.Prelude.Classes.{Eq}

abbrev pub Map {ℓ κ} : Type ℓ → Type κ → Type (ℓ ⊔ κ)
Map K V = List (K × V)

abbrev pub is_some {ℓ} : {A : Type ℓ} → Option A → Bool
is_some none = false
is_some (some a) = true

module _ {ℓ κ} {K : Type ℓ} {V : Type κ} ⦃e : Eq K⦄ where
  unfoldable pub lookup : K → Map K V → Option V
  lookup k [] = none
  lookup k ((j, v) ∷ m) = if e.beq j k then some v else lookup k m

  -- Replaces the value of a key that is there, and adds the key otherwise.
  unfoldable pub insert : K → V → Map K V → Map K V
  insert k v [] = (k, v) ∷ []
  insert k v ((j, w) ∷ m) = if e.beq j k then (j, v) ∷ m else (j, w) ∷ insert k v m

  unfoldable pub remove : K → Map K V → Map K V
  remove k [] = []
  remove k ((j, w) ∷ m) = if e.beq j k then remove k m else (j, w) ∷ remove k m

  -- `retain`: the entries whose value passes.
  unfoldable pub retain : (V → Bool) → Map K V → Map K V
  retain keep [] = []
  retain keep ((j, w) ∷ m) = if keep w then (j, w) ∷ retain keep m else retain keep m

  abbrev pub contains_key : K → Map K V → Bool
  contains_key k m = is_some (lookup k m)

  pub lookup-insert :
      (k j : K) (v : V) (m : Map K V)
      → lookup j (insert k v m) ≡ (if e.beq k j then some v else lookup j m)
  unfolding lookup insert
  lookup-insert k j v [] = refl
  lookup-insert k j v ((i, w) ∷ m) =
      ground (arith, e.beq_iff k j, e.beq_iff i k, e.beq_iff i j, lookup-insert k j v m)

  pub lookup-remove :
      (k j : K) (m : Map K V) → lookup j (remove k m) ≡ (if e.beq k j then none else lookup j m)
  unfolding lookup remove
  lookup-remove k j [] = ground arith
  lookup-remove k j ((i, w) ∷ m) =
      ground (arith, e.beq_iff k j, e.beq_iff i k, e.beq_iff i j, lookup-remove k j m)

  pub length-insert :
      (k : K) (v : V) (m : Map K V)
      → length (insert k v m) ≡ (if is_some (lookup k m) then length m else suc (length m))
  unfolding lookup insert
  length-insert k v [] = refl
  length-insert k v ((i, w) ∷ m) = ground (arith, length-insert k v m)

  pub length-retain-le : (keep : V → Bool) (m : Map K V) → length (retain keep m) ≤ length m
  unfolding retain
  length-retain-le keep [] = omega arith
  length-retain-le keep ((i, w) ∷ m) = ground (arith, length-retain-le keep m)

  -- No key twice.
  abbrev pub IsMap : Map K V → Type (ℓ ⊔ κ)
  IsMap [] = Unit
  IsMap ((k, v) ∷ m) = (lookup k m ≡ none) × IsMap m

  pub lookup-retain-none :
      (keep : V → Bool) (k : K) (m : Map K V) → lookup k m ≡ none → lookup k (retain keep m) ≡ none
  unfolding lookup retain
  lookup-retain-none keep k [] h = refl
  lookup-retain-none keep k ((i, w) ∷ m) h = ground (arith, lookup-retain-none keep k m)

  pub lookup-retain :
      (keep : V → Bool) (k : K) (v : V) (m : Map K V)
      → IsMap m
      → lookup k m ≡ some v
      → lookup k (retain keep m) ≡ (if keep v then some v else none)
  unfolding lookup retain
  lookup-retain keep k v [] u h = cc
  lookup-retain keep k v ((i, w) ∷ m) u h = elim (Bool-cases (e.beq i k)) [
    | inl same ↦
        let absent : lookup k m ≡ none =
          subst (λ j. lookup j m ≡ none) ((e.beq_iff i k).0 same) u.0 in
        ground (arith, lookup-retain-none keep k m absent)
    | inr other ↦ ground (arith, lookup-retain keep k v m u.1)
  ]

  pub retain-IsMap : (keep : V → Bool) (m : Map K V) → IsMap m → IsMap (retain keep m)
  unfolding retain
  retain-IsMap keep [] u = tt
  retain-IsMap keep ((i, w) ∷ m) u =
      ground (arith, retain-IsMap keep m u.1, lookup-retain-none keep i m u.0)

  pub insert-IsMap : (k : K) (v : V) (m : Map K V) → IsMap m → IsMap (insert k v m)
  unfolding insert lookup
  insert-IsMap k v [] u = (refl, tt)
  insert-IsMap k v ((i, w) ∷ m) u =
      ground (arith, insert-IsMap k v m u.1, lookup-insert k i v m, e.beq_iff k i, e.beq_iff i k)

  pub remove-IsMap : (k : K) (m : Map K V) → IsMap m → IsMap (remove k m)
  unfolding remove lookup
  remove-IsMap k [] u = tt
  remove-IsMap k ((i, w) ∷ m) u =
      ground (arith, remove-IsMap k m u.1, lookup-remove k i m, e.beq_iff k i)
