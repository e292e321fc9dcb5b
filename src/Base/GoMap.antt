-- ===== src/Base/GoMap.antt =====
-- A Go map as an association list. A write drops the entries of its key first, so that a key has
-- one entry.
use mathlib.Core.Path.{◌≡◌}
use mathlib.Core.Option.{Option, none, some}
use mathlib.Core.List.{List, [], ◌∷◌}
use native.Mathlib.Omega.{arith}
use kapprofiler.Base.Tests.{if◌then◌else◌}
use kapprofiler.Base.Equality.{Comparable, ◌==◌, ==_refl}

module _ {ℓ κ} {K : Type ℓ} {V : Type κ} ⦃c : Comparable K⦄ where
  -- `v, ok := m[key]`
  unfoldable pub lookup : K → List (K × V) → Option V
  lookup key [] = none
  lookup key (entry ∷ m) = if key == entry.0 then some entry.1 else lookup key m

  -- `delete(m, key)`
  unfoldable pub delete : K → List (K × V) → List (K × V)
  delete key [] = []
  delete key (entry ∷ m) = if key == entry.0 then delete key m else entry ∷ delete key m

  -- `m[key] = value`
  unfoldable pub insert : K → V → List (K × V) → List (K × V)
  unfolding delete
  insert key value m = (key, value) ∷ delete key m

module _ {ℓ κ} {K : Type ℓ} {V : Type κ} ⦃c : Comparable K⦄ where
  pub lookup-delete :
      (key other : K) (m : List (K × V))
      → lookup other (delete key m) ≡ (if key == other then none else lookup other m)
  unfolding lookup delete
  lookup-delete key other [] = ground arith
  lookup-delete key other (entry ∷ m) = ground (
    arith,
    lookup-delete key other m,
    c.equal_iff key other,
    c.equal_iff key entry.0,
    c.equal_iff other entry.0,
  )

  pub lookup-insert :
      (key other : K) (value : V) (m : List (K × V))
      → lookup other (insert key value m) ≡ (if key == other then some value else lookup other m)
  unfolding lookup insert
  lookup-insert key other value m =
      ground (arith, lookup-delete key other m, c.equal_iff key other, c.equal_iff other key)

  pub lookup-insert_self : (k : K) (v : V) (m : List (K × V)) → lookup k (insert k v m) ≡ some v
  lookup-insert_self k v m = simp (lookup-insert, ==_refl)

  pub lookup-delete_self : (k : K) (m : List (K × V)) → lookup k (delete k m) ≡ none
  lookup-delete_self k m = simp (lookup-delete, ==_refl)
