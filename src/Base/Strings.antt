-- ===== src/Base/Strings.antt =====
-- The functions of Go's package strings that the names of profiles go through. `to_lower` is
-- `strings.ToLower` of ASCII text, which the kinds and names of Kubernetes are.
use Prim.Native.Nat.{◌-◌}
use Prim.Native.Char.{Char, code}
use Prim.Native.String.{String, ◌++◌, char_at}
use text.Mathlib.Text.{◌==◌}
use text.Mathlib.TextEquality.{eq_iff}
use text.Mathlib.TextLemmas.{nil-append, cons-append, length-append, length-cons}
use text.Mathlib.TextPositions.{eq_refl}
use mathlib.Core.Path.{◌≡◌, refl, ap, sym, ◌∙◌}
use mathlib.Core.Logic.{inl, inr}
use mathlib.Core.Bool.{Bool, true, false, not, ◌&&◌}
use mathlib.Core.List.{List, [], ◌∷◌}
use native.Mathlib.Omega.{arith}
use kapprofiler.Base.Tests.{if◌then◌else◌, leb, Bool-cases}

abbrev is_upper : Char → Bool
is_upper c = leb 65 (code c) && leb (code c) 90

abbrev lower : Char → Char
lower c = if is_upper c then char_at "abcdefghijklmnopqrstuvwxyz" (code c - 65) else c

unfoldable pub to_lower : String → String
to_lower String.[] = ""
to_lower (String.◌∷◌ c s) = String.◌∷◌ (lower c) (to_lower s)

abbrev is_dash : Char → Bool
is_dash c = String.◌∷◌ c "" == "-"

abbrev prepend : Char → List String → List String
prepend c [] = String.◌∷◌ c "" ∷ []
prepend c (part ∷ parts) = String.◌∷◌ c part ∷ parts

-- `strings.Split(s, "-")`
unfoldable pub split : String → List String
split String.[] = "" ∷ []
split (String.◌∷◌ c s) = let rest = split s in if is_dash c then "" ∷ rest else prepend c rest

-- `strings.Join(parts, "-")`
unfoldable pub join : List String → String
join [] = ""
join (part ∷ []) = part
join (part ∷ next ∷ parts) = part ++ ("-" ++ join (next ∷ parts))

-- `strings.TrimSuffix(s, suffix)`
unfoldable pub trim_suffix : String → String → String
trim_suffix suffix String.[] = ""
trim_suffix suffix (String.◌∷◌ c s) =
    let rest = trim_suffix suffix s in if String.◌∷◌ c s == suffix then "" else String.◌∷◌ c rest

unfoldable pub is_dashless : String → Bool
is_dashless String.[] = true
is_dashless (String.◌∷◌ c s) = not (is_dash c) && is_dashless s

-- `xs[1:]` of a list with an element.
abbrev pub rest_of {ℓ} : {A : Type ℓ} → List A → List A
rest_of [] = []
rest_of (x ∷ xs) = xs

cons_append-one : (c : Char) (s : String) → String.◌∷◌ c "" ++ s ≡ String.◌∷◌ c s
cons_append-one c s = cons-append c "" s ∙ ap (λ t. String.◌∷◌ c t) (nil-append s)

dash : (c : Char) (s : String) → is_dash c ≡ true → "-" ++ s ≡ String.◌∷◌ c s
dash c s h = ap (λ d. d ++ s) (sym ((eq_iff (String.◌∷◌ c "") "-").0 h)) ∙ cons_append-one c s

split-dash : (c : Char) (s : String) → is_dash c ≡ true → split (String.◌∷◌ c s) ≡ "" ∷ split s
unfolding split
split-dash c s h = rw (h, split) refl

split-other :
    (c : Char) (s : String) → is_dash c ≡ false → split (String.◌∷◌ c s) ≡ prepend c (split s)
unfolding split
split-other c s h = rw (h, split) refl

prepend-cons :
    (c : Char) (parts : List String)
    → (part : String) × ((others : List String) × (prepend c parts ≡ part ∷ others))
prepend-cons c [] = (String.◌∷◌ c "", ([], refl))
prepend-cons c (p ∷ ps) = (String.◌∷◌ c p, (ps, refl))

-- There is always a part.
split-cons : (s : String) → (part : String) × ((parts : List String) × (split s ≡ part ∷ parts))
unfolding split
split-cons String.[] = ("", ([], refl))
split-cons (String.◌∷◌ c s) = elim (Bool-cases (is_dash c)) [
  | inl h ↦ ("", (split s, split-dash c s h))
  | inr h ↦
      let (part, rest) = prepend-cons c (split s) in (part, (rest.0, split-other c s h ∙ rest.1))
]

join-nil :
    (parts : List String)
    → (part : String) × ((others : List String) × (parts ≡ part ∷ others))
    → join ("" ∷ parts) ≡ "-" ++ join parts
unfolding join
join-nil parts (p, (ps, e)) =
    ap (λ l. join ("" ∷ l)) e ∙ nil-append ("-" ++ join (p ∷ ps)) ∙ ap (λ l. "-" ++ join l) (sym e)

join-prepend : (c : Char) (parts : List String) → join (prepend c parts) ≡ String.◌∷◌ c (join parts)
unfolding join
join-prepend c [] = refl
join-prepend c (p ∷ []) = refl
join-prepend c (p ∷ q ∷ ps) = cons-append c p ("-" ++ join (q ∷ ps))

pub join-split : (s : String) → join (split s) ≡ s
unfolding join split
join-split String.[] = refl
join-split (String.◌∷◌ c s) = elim (Bool-cases (is_dash c)) [
  | inl h ↦
      ap join (split-dash c s h)
      ∙ join-nil (split s) (split-cons s)
      ∙ ap (λ t. "-" ++ t) (join-split s)
      ∙ dash c s h
  | inr h ↦
      ap join (split-other c s h)
      ∙ join-prepend c (split s)
      ∙ ap (λ t. String.◌∷◌ c t) (join-split s)
]

pub split-dashless : (a s : String) → is_dashless a ≡ true → split (a ++ ("-" ++ s)) ≡ a ∷ split s
unfolding is_dashless
split-dashless String.[] s h =
    ap split (nil-append ("-" ++ s) ∙ cons_append-one "-" s) ∙ split-dash "-" s refl
split-dashless (String.◌∷◌ c a) s h =
    ap split (cons-append c a ("-" ++ s))
    ∙ split-other c (a ++ ("-" ++ s)) (ground arith)
    ∙ ap (prepend c) (split-dashless a s (ground arith))

trim_suffix-same : (suffix : String) → trim_suffix suffix suffix ≡ ""
unfolding trim_suffix
trim_suffix-same String.[] = refl
trim_suffix-same (String.◌∷◌ c s) = rw (eq_refl (String.◌∷◌ c s), trim_suffix) refl

longer : (c : Char) (s suffix : String) → (String.◌∷◌ c (s ++ suffix) == suffix) ≡ false
longer c s suffix = ground (
  arith,
  eq_iff (String.◌∷◌ c (s ++ suffix)) suffix,
  length-cons c (s ++ suffix),
  length-append s suffix,
)

trim_suffix-shorter :
    (suffix : String) (c : Char) (s : String)
    → (String.◌∷◌ c s == suffix) ≡ false
    → trim_suffix suffix (String.◌∷◌ c s) ≡ String.◌∷◌ c (trim_suffix suffix s)
unfolding trim_suffix
trim_suffix-shorter suffix c s h = rw (h, trim_suffix) refl

pub trim_suffix-append : (suffix s : String) → trim_suffix suffix (s ++ suffix) ≡ s
trim_suffix-append suffix String.[] =
    ap (trim_suffix suffix) (nil-append suffix) ∙ trim_suffix-same suffix
trim_suffix-append suffix (String.◌∷◌ c s) =
    ap (trim_suffix suffix) (cons-append c s suffix)
    ∙ trim_suffix-shorter suffix c (s ++ suffix) (longer c s suffix)
    ∙ ap (λ t. String.◌∷◌ c t) (trim_suffix-append suffix s)
