-- ===== src/Layout/Within.antt =====
-- Every member that is found lies within its record.
use kapprofiler.Base.{
  subst, eqb_iff, ℕ, ◌+◌, ◌-◌, ◌*◌, ◌/◌, ◌≤◌, ◌<◌, max, ◌≡◌, Bool, true, false, String, Option,
  none, some, List, [], ◌∷◌, arith, if◌then◌else◌, string_comparable, Option-cases, inl, inr,
}
use native.Mathlib.Nat.{div-add-mod', mod-lt, div-zero}
use kapprofiler.Layout.{
  CType, scalar, enum, ptr, array, struct, union, Member, field, anon, bits, pad, Members, end, ◌▸◌,
  round_up, place_bits, align_of, align_members, size_of, width, place, end_of, widest, find,
  find_member, find_struct, find_union, find_path, or_else, shift,
}

le-round_up : (n a : ℕ) → 0 < a → n ≤ round_up n a
unfolding round_up
le-round_up n a h = omega (arith, div-add-mod' (n + (a - 1)) a, mod-lt (n + (a - 1)) h)

whole_bytes : (k : ℕ) → 8 * (8 * k / 8) ≡ 8 * k
whole_bytes k = omega arith

eight_first : (q a : ℕ) → q * (8 * a) ≡ 8 * (q * a)
eight_first q a = grind arith

round_up-bytes : (n a : ℕ) → 8 * (round_up n (8 * a) / 8) ≡ round_up n (8 * a)
unfolding round_up
round_up-bytes n a =
    let q = (n + (8 * a - 1)) / (8 * a) in rw (eight_first q a) (whole_bytes (q * a))

mutual
  unfolding align_of

  align_of-pos : (t : CType) → 0 < align_of t
  align_of-pos (scalar n) = omega arith
  align_of-pos (enum cs) = omega arith
  align_of-pos (ptr t) = omega arith
  align_of-pos (array t n) = align_of-pos t
  align_of-pos (struct ms) = align_members-pos ms
  align_of-pos (union ms) = align_members-pos ms

  align_members-pos : (ms : Members) → 0 < align_members ms
  align_members-pos end = omega arith
  align_members-pos (m ▸ ms) = omega (arith, align_members-pos ms)

le-place_bits : (pos u w : ℕ) → pos ≤ place_bits pos u w
unfolding place_bits
le-place_bits pos u w =
    ground (arith, le-round_up pos u, div-zero pos, div-zero (pos + w - 1), eqb_iff u 0)

le-size : (n a : ℕ) → 0 < a → n ≤ 8 * (round_up n (8 * a) / 8)
le-size n a h = rw (round_up-bytes n a) (le-round_up n (8 * a) (omega arith))

mutual
  unfolding place end_of

  le-place : (pos : ℕ) (m : Member) → pos ≤ place pos m
  le-place pos (field f t) = le-round_up pos (8 * align_of t) (omega (arith, align_of-pos t))
  le-place pos (anon t) = le-round_up pos (8 * align_of t) (omega (arith, align_of-pos t))
  le-place pos (bits f t w) = le-place_bits pos (8 * size_of t) w
  le-place pos (pad t w) = le-place_bits pos (8 * size_of t) w

  le-end_of : (pos : ℕ) (ms : Members) → pos ≤ end_of pos ms
  le-end_of pos end = omega arith
  le-end_of pos (m ▸ ms) = omega (arith, le-place pos m, le-end_of (place pos m + width m) ms)

-- A member that is found at `start` with a type, if any, ends by a position.
abbrev pub EndsBy : ℕ → Option (ℕ × CType) → Type 0
EndsBy limit none = Unit
EndsBy limit (some (start, u)) = start + 8 * size_of u ≤ limit

EndsBy-or_else :
    (n : ℕ) (a b : Option (ℕ × CType)) → EndsBy n a → EndsBy n b → EndsBy n (or_else a b)
EndsBy-or_else n none b h k = k
EndsBy-or_else n (some a) b h k = h

EndsBy-le : (m n : ℕ) (a : Option (ℕ × CType)) → m ≤ n → EndsBy m a → EndsBy n a
EndsBy-le m n none h k = tt
EndsBy-le m n (some (start, u)) h k = omega arith

EndsBy-shift :
    (n start : ℕ) (a : Option (ℕ × CType)) → EndsBy n a → EndsBy (start + n) (shift start a)
EndsBy-shift n start none h = tt
EndsBy-shift n start (some (s, u)) h = omega arith

EndsBy-if :
    (n : ℕ) (b : Bool) (a : Option (ℕ × CType)) → EndsBy n a → EndsBy n (if b then a else none)
EndsBy-if n true a h = h
EndsBy-if n false a h = tt

mutual
  unfolding find size_of

  find-EndsBy : (t : CType) (f : String) → EndsBy (8 * size_of t) (find t f)
  find-EndsBy (scalar n) f = tt
  find-EndsBy (enum cs) f = tt
  find-EndsBy (ptr t) f = tt
  find-EndsBy (array t n) f = tt
  find-EndsBy (struct ms) f =
      EndsBy-le (end_of 0 ms) _ _ (le-size (end_of 0 ms) (align_members ms) (align_members-pos ms))
        (find_struct-EndsBy ms 0 f)
  find-EndsBy (union ms) f =
      EndsBy-le (widest ms) _ _ (le-size (widest ms) (align_members ms) (align_members-pos ms))
        (find_union-EndsBy ms f)

  find_member-EndsBy :
      (m : Member) (start : ℕ) (f : String) → EndsBy (start + width m) (find_member m start f)
  find_member-EndsBy (field g t) start f =
      EndsBy-if (start + width (field g t)) _ (some (start, t)) (omega arith)
  find_member-EndsBy (anon t) start f = EndsBy-shift _ start (find t f) (find-EndsBy t f)
  find_member-EndsBy (bits g t w) start f = tt
  find_member-EndsBy (pad t w) start f = tt

  find_struct-EndsBy :
      (ms : Members) (pos : ℕ) (f : String) → EndsBy (end_of pos ms) (find_struct ms pos f)
  find_struct-EndsBy end pos f = tt
  find_struct-EndsBy (m ▸ ms) pos f =
      EndsBy-or_else _ _ _
        (EndsBy-le _ _ _ (le-end_of (place pos m + width m) ms)
          (find_member-EndsBy m (place pos m) f))
        (find_struct-EndsBy ms (place pos m + width m) f)

  find_union-EndsBy : (ms : Members) (f : String) → EndsBy (widest ms) (find_union ms f)
  find_union-EndsBy end f = tt
  find_union-EndsBy (m ▸ ms) f =
      EndsBy-or_else _ _ _
        (EndsBy-le (0 + width m) (max (width m) (widest ms)) _ (omega arith)
          (find_member-EndsBy m 0 f))
        (EndsBy-le (widest ms) (max (width m) (widest ms)) _ (omega arith) (find_union-EndsBy ms f))

find-ends :
    (t : CType) (f : String) (n : ℕ) (u : CType)
    → find t f ≡ some (n, u)
    → n + 8 * size_of u ≤ 8 * size_of t
find-ends t f n u e = subst (EndsBy (8 * size_of t)) e (find-EndsBy t f)

pub find_path-EndsBy :
    (t : CType) (path : List String) (start : ℕ)
    → EndsBy (start + 8 * size_of t) (find_path t path start)
unfolding find_path
find_path-EndsBy t [] start = omega arith
find_path-EndsBy t (f ∷ fs) start = elim (Option-cases (find t f)) [
  | inl e ↦ rw (e, find_path) tt
  | inr ((n, u), e) ↦
      rw (e, find_path)
        (EndsBy-le (start + n + 8 * size_of u) _ _ (omega (arith, find-ends t f n u e))
          (find_path-EndsBy u fs (start + n)))
]
