-- ===== src/Collector/Equals.antt =====
-- The `Equals` methods of pkg/collector/types.go.
use kapprofiler.Base.{
  ◌≡◌, ◌↔◌, refl, Bool, true, false, ◌&&◌, String, List, [], ◌∷◌, length, eqb, ◌==◌,
  string_comparable, arith, sym, ◌∙◌, ap,
}
use kapprofiler.Collector.Calls.{
  ExecCalls, NetworkCalls, NetworkActivity, OpenCalls, CapabilitiesCalls, DnsCalls,
}

-- The loop over the elements of a list and those of another at the same index; it is run for
-- lists of the same length.
unfoldable pub same_elements {ℓ} : {A : Type ℓ} → (A → A → Bool) → List A → List A → Bool
same_elements equals [] ys = true
same_elements equals (x ∷ xs) [] = false
same_elements equals (x ∷ xs) (y ∷ ys) = equals x y && same_elements equals xs ys

unfoldable pub same_lists {ℓ} : {A : Type ℓ} → (A → A → Bool) → List A → List A → Bool
unfolding same_elements
same_lists equals xs ys = eqb (length xs) (length ys) && same_elements equals xs ys

abbrev pub same_string : String → String → Bool
same_string a b = a == b

unfoldable pub exec_equals : ExecCalls → ExecCalls → Bool
unfolding same_lists
exec_equals a b = a.path == b.path && same_lists same_string a.args b.args

unfoldable pub open_equals : OpenCalls → OpenCalls → Bool
unfolding same_lists
open_equals a b = a.path == b.path && same_lists same_string a.flags b.flags

unfoldable pub capabilities_equals : CapabilitiesCalls → CapabilitiesCalls → Bool
unfolding same_lists
capabilities_equals a b =
    a.syscall == b.syscall && same_lists same_string a.capabilities b.capabilities

unfoldable pub dns_equals : DnsCalls → DnsCalls → Bool
unfolding same_lists
dns_equals a b = a.dns_name == b.dns_name && same_lists same_string a.addresses b.addresses

unfoldable pub network_equals : NetworkCalls → NetworkCalls → Bool
network_equals a b =
    a.protocol == b.protocol && (eqb a.port b.port && a.dst_endpoint == b.dst_endpoint)

unfoldable pub activity_equals : NetworkActivity → NetworkActivity → Bool
unfolding same_lists network_equals
activity_equals a b =
    same_lists network_equals a.incoming b.incoming
    && same_lists network_equals a.outgoing b.outgoing

module _ {ℓ} {A : Type ℓ} (equals : A → A → Bool)
    (exact : (x y : A) → (equals x y ≡ true) ↔ (x ≡ y)) where
  same_lists→≡ : (xs ys : List A) → same_lists equals xs ys ≡ true → xs ≡ ys
  unfolding same_lists
  same_lists→≡ [] [] h = refl
  same_lists→≡ [] (y ∷ ys) h = ground arith
  same_lists→≡ (x ∷ xs) [] h = ground arith
  same_lists→≡ (x ∷ xs) (y ∷ ys) h = ground (arith, exact x y, same_lists→≡ xs ys)

  same_lists_refl : (xs : List A) → same_lists equals xs xs ≡ true
  unfolding same_lists
  same_lists_refl [] = ground arith
  same_lists_refl (x ∷ xs) = ground (arith, exact x x, same_lists_refl xs)

  pub same_lists_iff : (xs ys : List A) → (same_lists equals xs ys ≡ true) ↔ (xs ≡ ys)
  same_lists_iff xs ys =
      (same_lists→≡ xs ys, λ e. ap (λ l. same_lists equals xs l) (sym e) ∙ same_lists_refl xs)

pub strings_iff : (xs ys : List String) → (same_lists same_string xs ys ≡ true) ↔ (xs ≡ ys)
strings_iff = same_lists_iff same_string string_comparable.equal_iff

pub exec_equals_iff :
    (a b : ExecCalls) → (exec_equals a b ≡ true) ↔ ((a.path ≡ b.path) × (a.args ≡ b.args))
unfolding exec_equals
exec_equals_iff a b =
    ground (arith, string_comparable.equal_iff a.path b.path, strings_iff a.args b.args)

pub open_equals_iff : (a b : OpenCalls) → (open_equals a b ≡ true) ↔ (a ≡ b)
unfolding open_equals
open_equals_iff a b =
    ground (arith, string_comparable.equal_iff a.path b.path, strings_iff a.flags b.flags)

pub capabilities_equals_iff : (a b : CapabilitiesCalls) → (capabilities_equals a b ≡ true) ↔ (a ≡ b)
unfolding capabilities_equals
capabilities_equals_iff a b = ground (
  arith,
  string_comparable.equal_iff a.syscall b.syscall,
  strings_iff a.capabilities b.capabilities,
)

pub dns_equals_iff : (a b : DnsCalls) → (dns_equals a b ≡ true) ↔ (a ≡ b)
unfolding dns_equals
dns_equals_iff a b =
    ground (
      arith,
      string_comparable.equal_iff a.dns_name b.dns_name,
      strings_iff a.addresses b.addresses,
    )

pub network_equals_iff : (a b : NetworkCalls) → (network_equals a b ≡ true) ↔ (a ≡ b)
unfolding network_equals
network_equals_iff a b = ground (
  arith,
  string_comparable.equal_iff a.protocol b.protocol,
  string_comparable.equal_iff a.dst_endpoint b.dst_endpoint,
)

-- `NetworkActivity.Equals` holds exactly of equal activities.
pub activity_equals_iff : (a b : NetworkActivity) → (activity_equals a b ≡ true) ↔ (a ≡ b)
unfolding activity_equals
activity_equals_iff a b = ground (
  arith,
  same_lists_iff network_equals network_equals_iff a.incoming b.incoming,
  same_lists_iff network_equals network_equals_iff a.outgoing b.outgoing,
)
