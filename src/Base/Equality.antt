-- ===== src/Base/Equality.antt =====
-- Equality of keys as an interface, for Go's `==` on strings, numbers and structs of these.
use Prim.Native.Nat.{ℕ}
use Prim.Native.String.{String}
use text.Mathlib.Text.{◌==◌ as str_eq}
use text.Mathlib.TextEquality.{eq_iff}
use mathlib.Core.Path.{◌≡◌, refl}
use mathlib.Core.Logic.{◌↔◌}
use mathlib.Core.Bool.{Bool, true, false, ◌&&◌}
use mathlib.Core.List.{List, [], ◌∷◌}
use native.Mathlib.Omega.{arith}
use kapprofiler.Base.Tests.{eqb, eqb_iff}
use kapprofiler.Base.Lists.{any}

-- Go's constraint `comparable`: a test that holds of equal values only.
pub record Comparable {ℓ} (K : Type ℓ) : Type ℓ where
  pub equal : K → K → Bool
  pub equal_iff : (x y : K) → (equal x y ≡ true) ↔ (x ≡ y)

instance abbrev pub nat_comparable : Comparable ℕ
nat_comparable = record { equal = eqb; equal_iff = eqb_iff }

instance abbrev pub string_comparable : Comparable String
string_comparable = record { equal = str_eq; equal_iff = eq_iff }

module _ {ℓ} {K : Type ℓ} ⦃c : Comparable K⦄ where
  infix 50 ◌==◌
  abbrev pub ◌==◌ : K → K → Bool
  x == y = c.equal x y

  pub ==→≡ : (x y : K) → (x == y) ≡ true → x ≡ y
  ==→≡ x y = (c.equal_iff x y).0

  pub ==_refl : (x : K) → (x == x) ≡ true
  ==_refl x = (c.equal_iff x x).1 refl

  -- `slices.Equal`
  unfoldable pub slices_equal : List K → List K → Bool
  slices_equal [] [] = true
  slices_equal [] (y ∷ ys) = false
  slices_equal (x ∷ xs) [] = false
  slices_equal (x ∷ xs) (y ∷ ys) = x == y && slices_equal xs ys

  -- `slices.Contains`
  unfoldable pub slices_contains : List K → K → Bool
  unfolding any
  slices_contains s v = any (λ x. x == v) s

  pub slices_equal→≡ : (xs ys : List K) → slices_equal xs ys ≡ true → xs ≡ ys
  unfolding slices_equal
  slices_equal→≡ [] [] h = refl
  slices_equal→≡ [] (y ∷ ys) h = cc
  slices_equal→≡ (x ∷ xs) [] h = cc
  slices_equal→≡ (x ∷ xs) (y ∷ ys) h = ground (arith, c.equal_iff x y, slices_equal→≡ xs ys)

  pub slices_equal_refl : (xs : List K) → slices_equal xs xs ≡ true
  unfolding slices_equal
  slices_equal_refl [] = refl
  slices_equal_refl (x ∷ xs) = ground (arith, ==_refl x, slices_equal_refl xs)
