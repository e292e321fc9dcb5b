-- ===== src/Controller/Once.antt =====
-- How often a container's name stands in the merged profile.
use kapprofiler.Base.{
  ◌≡◌, refl, Bool, true, not, ◌||◌, String, List, [], ◌∷◌, any, ℕ, one_if, string_comparable, ◌==◌,
  lookup, arith, ◌∙◌, ap, lookup-insert, Option-cases, inl, inr,
}
use kapprofiler.Collector.Calls.{ContainerProfile}
use kapprofiler.Controller.Merge.{
  merge_pod_container, ContainersMap, put_container, put_containers, put_pods, values,
}
use kapprofiler.Controller.Union.{
  no_key, is_keyed, is_keyed-put_pods, put_container-none, put_container-some,
}

-- How many containers have a name.
unfoldable pub named : String → List ContainerProfile → ℕ
named name [] = 0
named name (c ∷ cs) = one_if (c.name == name) (named name cs)

unfoldable pub has_name : String → List ContainerProfile → Bool
unfolding any
has_name name cs = any (λ c. c.name == name) cs

unfoldable pub some_has_name : String → List (List ContainerProfile) → Bool
unfolding any has_name
some_has_name name pods = any (λ cs. has_name name cs) pods

named_lookup :
    (name : String) (m : ContainersMap)
    → is_keyed m ≡ true
    → named name (values m) ≡ one_if (not (no_key name m)) 0
unfolding named is_keyed no_key lookup
named_lookup name [] h = refl
named_lookup name (e ∷ m) h = ground (
  arith,
  named_lookup name m,
  string_comparable.equal_iff (e.1).name e.0,
  string_comparable.equal_iff (e.1).name name,
  string_comparable.equal_iff name e.0,
)

no_key-put_container :
    (name : String) (m : ContainersMap) (c : ContainerProfile)
    → not (no_key name (put_container m c)) ≡ (not (no_key name m) || c.name == name)
unfolding no_key
no_key-put_container name m c = elim (Option-cases (lookup c.name m)) [
  | inl missing ↦ ground (
    arith,
    missing,
    put_container-none m c missing,
    lookup-insert c.name name c m,
    string_comparable.equal_iff c.name name,
  )
  | inr (existing, found) ↦ ground (
    arith,
    found,
    put_container-some m c existing found,
    lookup-insert c.name name (merge_pod_container existing c) m,
    string_comparable.equal_iff c.name name,
  )
]

no_key-put_containers :
    (name : String) (m : ContainersMap) (cs : List ContainerProfile)
    → not (no_key name (put_containers m cs)) ≡ (not (no_key name m) || has_name name cs)
unfolding put_containers has_name any
no_key-put_containers name m [] = ground arith
no_key-put_containers name m (c ∷ cs) =
    ground (arith, no_key-put_containers name (put_container m c) cs, no_key-put_container name m c)

no_key-put_pods :
    (name : String) (m : ContainersMap) (pods : List (List ContainerProfile))
    → not (no_key name (put_pods m pods)) ≡ (not (no_key name m) || some_has_name name pods)
unfolding put_pods some_has_name any
no_key-put_pods name m [] = ground arith
no_key-put_pods name m (cs ∷ pods) =
    ground (arith, no_key-put_pods name (put_containers m cs) pods, no_key-put_containers name m cs)

-- The containers that are merged from the profiles of some pods have each name of a container of
-- the profiles once, and no other name.
pub named-put_pods :
    (name : String) (pods : List (List ContainerProfile))
    → named name (values (put_pods [] pods)) ≡ one_if (some_has_name name pods) 0
unfolding is_keyed no_key lookup
named-put_pods name pods =
    named_lookup name (put_pods [] pods) (is_keyed-put_pods [] pods refl)
    ∙ ap (λ b. one_if b 0) (no_key-put_pods name [] pods)
    ∙ ground arith
