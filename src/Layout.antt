-- ===== src/Layout.antt =====
-- How C lays a type out in memory on x86-64 (the System V rules that clang follows for the BPF
-- target's CO-RE records and the kernel for its own types): sizes, alignments and the bit at
-- which each member starts. Bit-fields share a unit of their declared type.
pub mod Within
use kapprofiler.Base.{
  ℕ, ◌+◌, ◌-◌, ◌*◌, ◌/◌, max, String, Option, none, some, List, [], ◌∷◌, eqb, ◌==◌,
  string_comparable, if◌then◌else◌,
}

infixr 60 ◌▸◌
mutual
  -- A pointer keeps the C text of what it points to.
  pub data CType : Type 0 where
    scalar : ℕ → CType
    enum : List (String × ℕ) → CType
    ptr : String → CType
    array : CType → ℕ → CType
    struct : Members → CType
    union : Members → CType

  -- A named member, an anonymous struct or union, a bit-field, an unnamed bit-field.
  pub data Member : Type 0 where
    field : String → CType → Member
    anon : CType → Member
    bits : String → CType → ℕ → Member
    pad : CType → ℕ → Member

  pub data Members : Type 0 where
    end : Members
    ◌▸◌ : Member → Members → Members

-- `n` rounded up to a multiple of `a`.
unfoldable pub round_up : ℕ → ℕ → ℕ
round_up n a = (n + (a - 1)) / a * a

-- Where a bit-field of `w` bits starts in units of `u` bits, if `pos` bits are taken.
unfoldable pub place_bits : ℕ → ℕ → ℕ → ℕ
unfolding round_up
place_bits pos u w = if eqb (pos / u) ((pos + w - 1) / u) then pos else round_up pos u

unfoldable mutual
  unfolding round_up place_bits

  pub align_of : CType → ℕ
  align_of (scalar n) = max n 1
  align_of (enum cs) = 4
  align_of (ptr t) = 8
  align_of (array t n) = align_of t
  align_of (struct ms) = align_members ms
  align_of (union ms) = align_members ms

  pub align_member : Member → ℕ
  align_member (field f t) = align_of t
  align_member (anon t) = align_of t
  align_member (bits f t w) = align_of t
  align_member (pad t w) = 1

  pub align_members : Members → ℕ
  align_members end = 1
  align_members (m ▸ ms) = max (align_member m) (align_members ms)

unfoldable mutual
  unfolding round_up place_bits align_of

  -- In bytes.
  pub size_of : CType → ℕ
  size_of (scalar n) = n
  size_of (enum cs) = 4
  size_of (ptr t) = 8
  size_of (array t n) = size_of t * n
  size_of (struct ms) = round_up (end_of 0 ms) (8 * align_members ms) / 8
  size_of (union ms) = round_up (widest ms) (8 * align_members ms) / 8

  -- In bits.
  pub width : Member → ℕ
  width (field f t) = 8 * size_of t
  width (anon t) = 8 * size_of t
  width (bits f t w) = w
  width (pad t w) = w

  -- The bit at which a member starts, if `pos` bits are taken.
  pub place : ℕ → Member → ℕ
  place pos (field f t) = round_up pos (8 * align_of t)
  place pos (anon t) = round_up pos (8 * align_of t)
  place pos (bits f t w) = place_bits pos (8 * size_of t) w
  place pos (pad t w) = place_bits pos (8 * size_of t) w

  pub end_of : ℕ → Members → ℕ
  end_of pos end = pos
  end_of pos (m ▸ ms) = end_of (place pos m + width m) ms

  pub widest : Members → ℕ
  widest end = 0
  widest (m ▸ ms) = max (width m) (widest ms)

abbrev pub or_else {ℓ} : {A : Type ℓ} → Option A → Option A → Option A
or_else none o = o
or_else (some a) o = some a

abbrev pub shift : ℕ → Option (ℕ × CType) → Option (ℕ × CType)
shift n none = none
shift n (some (start, t)) = some (n + start, t)

unfoldable mutual
  unfolding size_of

  -- The bit offset and the type of a member, those of anonymous members included. A bit-field has
  -- no address, so it is not found.
  pub find : CType → String → Option (ℕ × CType)
  find (scalar n) f = none
  find (enum cs) f = none
  find (ptr t) f = none
  find (array t n) f = none
  find (struct ms) f = find_struct ms 0 f
  find (union ms) f = find_union ms f

  pub find_member : Member → ℕ → String → Option (ℕ × CType)
  find_member (field g t) start f = if g == f then some (start, t) else none
  find_member (anon t) start f = shift start (find t f)
  find_member (bits g t w) start f = none
  find_member (pad t w) start f = none

  pub find_struct : Members → ℕ → String → Option (ℕ × CType)
  find_struct end pos f = none
  find_struct (m ▸ ms) pos f =
      or_else (find_member m (place pos m) f) (find_struct ms (place pos m + width m) f)

  pub find_union : Members → String → Option (ℕ × CType)
  find_union end f = none
  find_union (m ▸ ms) f = or_else (find_member m 0 f) (find_union ms f)

-- `a.b.c`, from a bit offset on.
unfoldable pub find_path : CType → List String → ℕ → Option (ℕ × CType)
unfolding find
find_path t [] start = some (start, t)
find_path t (f ∷ fs) start = elim (find t f) [
  | none ↦ none
  | some (n, u) ↦ find_path u fs (start + n)
]
