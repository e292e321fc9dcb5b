-- ===== src/Collector/Lost.antt =====
-- What the merging of an entry of capabilities keeps of the new ones.
use kapprofiler.Base.{
  Bool-cases, inl, inr, sym, ◌∙◌, ◌≡◌, refl, true, List, [], ◌∷◌, ◌++◌, String, ◌==◌,
  string_comparable, any, if◌then◌else◌, arith, slices_contains, Option, some, none, ap,
}
use kapprofiler.Collector.Calls.{CapabilitiesCalls}
use kapprofiler.Collector.Merge.{merge_names, merge_entry, has_entry}

-- The capabilities of the first entry of a syscall.
unfoldable pub names_of : String → List CapabilitiesCalls → List String
names_of s [] = []
names_of s (c ∷ cs) = if c.syscall == s then c.capabilities else names_of s cs

abbrev pub with_last : List String → Option String → List String
with_last names none = names
with_last names (some k) = names ++ k ∷ []

abbrev later : Option String → Option String → Option String
later first none = first
later first (some k) = some k

-- The last of some capabilities that a list does not have.
unfoldable pub last_missing : List String → List String → Option String
unfolding slices_contains
last_missing names [] = none
last_missing names (k ∷ ks) =
    later (if slices_contains names k then none else some k) (last_missing names ks)

later-none : (o : Option String) → later none o ≡ o
later-none none = refl
later-none (some k) = refl

later-some :
    (waiting : Option String) (k : String) (o : Option String)
    → later waiting (later (some k) o) ≡ later (some k) o
later-some waiting k none = refl
later-some waiting k (some l) = refl

merge_names-last_missing :
    (names ks : List String) (waiting : Option String)
    → merge_names names (with_last names waiting) ks
      ≡ with_last names (later waiting (last_missing names ks))
unfolding merge_names last_missing
merge_names-last_missing names [] waiting = refl
merge_names-last_missing names (k ∷ ks) waiting = elim (Bool-cases (slices_contains names k)) [
  | inl old ↦ rw old (
      merge_names-last_missing names ks waiting
      ∙ ap (λ o. with_last names (later waiting o)) (sym (later-none (last_missing names ks))))
  | inr new ↦ rw new (
      merge_names-last_missing names ks (some k)
      ∙ ap (with_last names) (sym (later-some waiting k (last_missing names ks))))
]

-- Merging a new entry into those that have one of its syscall adds at most one capability to that
-- entry, the last of the new ones that it does not have, and leaves the entries of other syscalls.
pub merge_entry-last_missing :
    (s : String) (cs : List CapabilitiesCalls) (new : CapabilitiesCalls)
    → has_entry new.syscall cs ≡ true
    → names_of s (merge_entry cs new) ≡ (
        if new.syscall == s
        then with_last (names_of s cs) (last_missing (names_of s cs) new.capabilities)
        else names_of s cs)
unfolding names_of merge_entry has_entry any
merge_entry-last_missing s [] new h = ground arith
merge_entry-last_missing s (c ∷ cs) new h = ground (
  arith,
  merge_entry-last_missing s cs new,
  merge_names-last_missing c.capabilities new.capabilities none,
  string_comparable.equal_iff c.syscall new.syscall,
  string_comparable.equal_iff c.syscall s,
  string_comparable.equal_iff new.syscall s,
)
