-- ===== src/Controller/Facts.antt =====
-- What a profile says: which calls it records for the containers of a name. Two profiles that say
-- the same may differ in the order of their lists.
use kapprofiler.Base.{
  ◌≡◌, Bool, true, ◌||◌, ◌&&◌, String, List, [], ◌∷◌, ◌++◌, any, any-append, string_comparable,
  ◌==◌, arith, ◌↔◌, ◌∙◌,
}
use kapprofiler.Collector.Calls.{
  ExecCalls, NetworkCalls, OpenCalls, CapabilitiesCalls, DnsCalls, ContainerProfile,
}
use kapprofiler.Collector.Equals.{
  same_string, exec_equals, open_equals, capabilities_equals, dns_equals, network_equals,
  exec_equals_iff, open_equals_iff, capabilities_equals_iff, dns_equals_iff, network_equals_iff,
}
use kapprofiler.Controller.Merge.{merge_missing, merge_pod_container}

pub data Fact : Type 0 where
  executes : ExecCalls → Fact
  opens : OpenCalls → Fact
  uses : CapabilitiesCalls → Fact
  resolves : DnsCalls → Fact
  receives : NetworkCalls → Fact
  connects : NetworkCalls → Fact
  calls : String → Fact

-- Whether a container records a call, up to the `Equals` method of its kind.
unfoldable pub records : Fact → ContainerProfile → Bool
unfolding any exec_equals open_equals capabilities_equals dns_equals network_equals
records (executes x) c = any (λ y. exec_equals y x) c.execs
records (opens x) c = any (λ y. open_equals y x) c.opens
records (uses x) c = any (λ y. capabilities_equals y x) c.capabilities
records (resolves x) c = any (λ y. dns_equals y x) c.dns
records (receives x) c = any (λ y. network_equals y x) c.network_activity.incoming
records (connects x) c = any (λ y. network_equals y x) c.network_activity.outgoing
records (calls x) c = any (λ y. same_string y x) c.sys_calls

-- Whether some container of a name records a call.
unfoldable pub says : String → Fact → List ContainerProfile → Bool
unfolding any records
says name fact cs = any (λ c. c.name == name && records fact c) cs

unfoldable pub some_says : String → Fact → List (List ContainerProfile) → Bool
unfolding any says
some_says name fact pods = any (λ cs. says name fact cs) pods

module _ {ℓ} {A : Type ℓ} (equals : A → A → Bool)
    (trans : (x y z : A) → equals x y ≡ true → equals y z ≡ true → equals x z ≡ true) where
  any_trans :
      (x y : A) (xs : List A)
      → any (λ old. equals old x) xs ≡ true
      → equals x y ≡ true
      → any (λ old. equals old y) xs ≡ true
  unfolding any
  any_trans x y [] h k = ground arith
  any_trans x y (z ∷ zs) h k = ground (arith, trans z x y, any_trans x y zs)

  any-merge_missing :
      (y : A) (existing new : List A)
      → any (λ old. equals old y) (merge_missing equals existing new)
        ≡ (any (λ old. equals old y) existing || any (λ old. equals old y) new)
  unfolding merge_missing any
  any-merge_missing y existing [] = ground arith
  any-merge_missing y existing (x ∷ xs) = ground (
    arith,
    any-merge_missing y existing xs,
    any-merge_missing y (existing ++ x ∷ []) xs,
    any-append (λ old. equals old y) existing (x ∷ []),
    any_trans x y existing,
  )

string_trans :
    (x y z : String) → same_string x y ≡ true → same_string y z ≡ true → same_string x z ≡ true
string_trans x y z h k = ground (
  arith,
  string_comparable.equal_iff x y,
  string_comparable.equal_iff y z,
  string_comparable.equal_iff x z,
)

exec_trans :
    (x y z : ExecCalls) → exec_equals x y ≡ true → exec_equals y z ≡ true → exec_equals x z ≡ true
exec_trans x y z h k =
    let a = (exec_equals_iff x y).0 h in
    let b = (exec_equals_iff y z).0 k in (exec_equals_iff x z).1 (a.0 ∙ b.0, a.1 ∙ b.1)

exact_trans {ℓ} :
    {A : Type ℓ} (equals : A → A → Bool) (exact : (x y : A) → (equals x y ≡ true) ↔ (x ≡ y))
    (x y z : A)
    → equals x y ≡ true
    → equals y z ≡ true
    → equals x z ≡ true
exact_trans equals exact x y z h k = (exact x z).1 ((exact x y).0 h ∙ (exact y z).0 k)

-- A merged container records what one of the two does.
pub records-merge_pod_container :
    (fact : Fact) (existing new : ContainerProfile)
    → records fact (merge_pod_container existing new) ≡ (records fact existing || records fact new)
unfolding records merge_pod_container
records-merge_pod_container (executes x) a b =
    any-merge_missing exec_equals exec_trans x a.execs b.execs
records-merge_pod_container (opens x) a b =
    any-merge_missing open_equals (exact_trans open_equals open_equals_iff) x a.opens b.opens
records-merge_pod_container (uses x) a b =
    any-merge_missing capabilities_equals (exact_trans capabilities_equals capabilities_equals_iff)
      x a.capabilities b.capabilities
records-merge_pod_container (resolves x) a b =
    any-merge_missing dns_equals (exact_trans dns_equals dns_equals_iff) x a.dns b.dns
records-merge_pod_container (receives x) a b =
    any-merge_missing network_equals (exact_trans network_equals network_equals_iff) x
      a.network_activity.incoming b.network_activity.incoming
records-merge_pod_container (connects x) a b =
    any-merge_missing network_equals (exact_trans network_equals network_equals_iff) x
      a.network_activity.outgoing b.network_activity.outgoing
records-merge_pod_container (calls x) a b =
    any-merge_missing same_string string_trans x a.sys_calls b.sys_calls
