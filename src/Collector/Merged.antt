-- ===== src/Collector/Merged.antt =====
-- Merging the elements that a list does not have, and merging them again.

use kapprofiler.Base.{
  every, ◌≡◌, refl, Bool, true, false, not, ◌&&◌, List, [], ◌∷◌, ◌++◌, string_comparable, arith,
  ◌∙◌, append_assoc, append-nil, ap, sym, subst, Bool-cases, inl, inr,
}
use kapprofiler.Collector.Merge.{filtered}

filtered-every {ℓ} :
    {A : Type ℓ} (t : A → Bool) (xs : List A)
    → every t xs ≡ true
    → filtered (λ x. not (t x)) xs ≡ []
unfolding filtered every
filtered-every t [] h = refl
filtered-every t (x ∷ xs) h = ground (arith, filtered-every t xs (ground arith))

pub filtered-same {ℓ} :
    {A : Type ℓ} (p q : A → Bool) (xs : List A)
    → ((x : A) → p x ≡ q x)
    → filtered p xs ≡ filtered q xs
unfolding filtered
filtered-same p q [] h = refl
filtered-same p q (x ∷ xs) h = ground (arith, h x, filtered-same p q xs h)

pub and_true : {a b : Bool} → a ≡ true → b ≡ true → (a && b) ≡ true
and_true h k = rw h k

-- A test whether a list has an element, which appending keeps true.
module _ {ℓ} {A : Type ℓ} (test : List A → A → Bool)
    (keeps : (a b : List A) (x : A) → test a x ≡ true → test (a ++ b) x ≡ true)
    (own : (a b : List A) (x : A) → test (a ++ x ∷ b) x ≡ true) where
  unfoldable pub merge_new : List A → List A → List A
  unfolding filtered
  merge_new a b = a ++ filtered (λ x. not (test a x)) b

  abbrev new_of : List A → List A → List A
  new_of a xs = filtered (λ x. not (test a x)) xs

  new_of-old : (a xs : List A) (x : A) → test a x ≡ true → new_of a (x ∷ xs) ≡ new_of a xs
  unfolding filtered
  new_of-old a xs x h = rw h

  new_of-new : (a xs : List A) (x : A) → test a x ≡ false → new_of a (x ∷ xs) ≡ x ∷ new_of a xs
  unfolding filtered
  new_of-new a xs x h = rw h

  every-new_of : (a before xs : List A) → every (test (a ++ (before ++ new_of a xs))) xs ≡ true
  unfolding every filtered
  every-new_of a before [] = refl
  every-new_of a before (x ∷ xs) =
      let with_tail = λ (l : List A). every (test (a ++ (before ++ l))) (x ∷ xs) ≡ true in
      elim (Bool-cases (test a x)) [
        | inl old ↦
            subst with_tail (sym (new_of-old a xs x old))
              (and_true (keeps a (before ++ new_of a xs) x old) (every-new_of a before xs))
        | inr new ↦ subst with_tail (sym (new_of-new a xs x new)) (
            and_true
              (subst (λ l. test l x ≡ true) (append_assoc a before (x ∷ new_of a xs))
                (own (a ++ before) (new_of a xs) x))
              (subst (λ l. every (test (a ++ l)) xs ≡ true)
                (append_assoc before (x ∷ []) (new_of a xs))
                (every-new_of a (before ++ x ∷ []) xs)))
      ]

  pub merge_new-again : (a b : List A) → merge_new (merge_new a b) b ≡ merge_new a b
  unfolding merge_new
  merge_new-again a b =
      ap (λ c. merge_new a b ++ c) (filtered-every (test (merge_new a b)) b (every-new_of a [] b))
      ∙ append-nil (merge_new a b)
