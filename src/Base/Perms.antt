-- ===== src/Base/Perms.antt =====
-- What a list in another order keeps.
use mathlib.Core.List.{List, [], ◌∷◌, Perm, foldr}
use mathlib.Core.List.Perm
use mathlib.Core.Bool.{Bool, false, ◌||◌, Bool-set}
use mathlib.Core.Path.{◌≡◌, refl, ap, sym, ◌∙◌}
use native.Mathlib.Omega.{arith}
use kapprofiler.Base.Lists.{any}

abbrev or_of {ℓ} : {A : Type ℓ} → (A → Bool) → A → Bool → Bool
or_of p a b = p a || b

any-foldr {ℓ} : {A : Type ℓ} (p : A → Bool) (xs : List A) → any p xs ≡ foldr (or_of p) false xs
unfolding any
any-foldr p [] = refl
any-foldr p (x ∷ xs) = ap (λ b. p x || b) (any-foldr p xs)

or_of_comm {ℓ} :
    {A : Type ℓ} (p : A → Bool) (a b : A) (x : Bool)
    → or_of p a (or_of p b x) ≡ or_of p b (or_of p a x)
or_of_comm p a b x = ground arith

-- A list in another order has the same elements.
pub any-perm {ℓ} : {A : Type ℓ} (p : A → Bool) {xs ys : List A} → Perm xs ys → any p xs ≡ any p ys
any-perm p {xs} {ys} h =
    any-foldr p xs ∙ Perm.foldr-eq Bool-set (or_of p) (or_of_comm p) h false ∙ sym (any-foldr p ys)
