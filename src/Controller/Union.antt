-- ===== src/Controller/Union.antt =====
-- The map of the containers, against what the profiles of the pods say.
use kapprofiler.Base.{
  ◌≡◌, refl, Bool, true, false, ◌&&◌, String, Option, none, some, [], ◌∷◌, any, string_comparable,
  ◌==◌, lookup, insert, delete, arith, lookup-delete, ==_refl, List, Option-cases, ◌||◌, inl, ◌∙◌,
  inr, lookup-insert, ap,
}
use kapprofiler.Collector.Calls.{ContainerProfile}
use kapprofiler.Controller.Merge.{
  ContainersMap, values, merge_pod_container, put_container, put_containers, put_pods,
}
use kapprofiler.Controller.Facts.{Fact, records, says, some_says, records-merge_pod_container}

unfoldable pub no_key : String → ContainersMap → Bool
unfolding lookup
no_key key m = elim (lookup key m) [ none ↦ true | some c ↦ false ]

-- Each container stands under its name, and each name once.
unfoldable pub is_keyed : ContainersMap → Bool
unfolding no_key
is_keyed [] = true
is_keyed (e ∷ m) = (e.1).name == e.0 && (no_key e.0 m && is_keyed m)

abbrev found_records : Fact → Option ContainerProfile → Bool
found_records fact none = false
found_records fact (some c) = records fact c

no_key-delete :
    (key other : String) (m : ContainersMap)
    → no_key other m ≡ true
    → no_key other (delete key m) ≡ true
unfolding no_key
no_key-delete key other m h = ground (arith, lookup-delete key other m)

no_key-deleted : (key : String) (m : ContainersMap) → no_key key (delete key m) ≡ true
unfolding no_key
no_key-deleted key m = ground (arith, lookup-delete key key m, ==_refl key)

is_keyed-delete :
    (key : String) (m : ContainersMap) → is_keyed m ≡ true → is_keyed (delete key m) ≡ true
unfolding is_keyed delete
is_keyed-delete key [] h = refl
is_keyed-delete key (e ∷ m) h = ground (arith, is_keyed-delete key m, no_key-delete key e.0 m)

is_keyed-insert :
    (key : String) (c : ContainerProfile) (m : ContainersMap)
    → (c.name == key) ≡ true
    → is_keyed m ≡ true
    → is_keyed (insert key c m) ≡ true
unfolding is_keyed insert
is_keyed-insert key c m h k = ground (arith, is_keyed-delete key m k, no_key-deleted key m)

says-lookup :
    (name : String) (fact : Fact) (m : ContainersMap)
    → is_keyed m ≡ true
    → says name fact (values m) ≡ found_records fact (lookup name m)
unfolding says is_keyed lookup any no_key
says-lookup name fact [] h = refl
says-lookup name fact (e ∷ m) h = ground (
  arith,
  says-lookup name fact m,
  string_comparable.equal_iff (e.1).name e.0,
  string_comparable.equal_iff (e.1).name name,
  string_comparable.equal_iff name e.0,
)

lookup-name :
    (key : String) (c : ContainerProfile) (m : ContainersMap)
    → is_keyed m ≡ true
    → lookup key m ≡ some c
    → (c.name == key) ≡ true
unfolding is_keyed lookup
lookup-name key c [] h k = ground arith
lookup-name key c (e ∷ m) h k = ground (
  arith,
  lookup-name key c m,
  string_comparable.equal_iff key e.0,
  string_comparable.equal_iff (e.1).name e.0,
  string_comparable.equal_iff (e.1).name key,
)

merge_pod_container-name :
    (existing new : ContainerProfile) → (merge_pod_container existing new).name ≡ existing.name
unfolding merge_pod_container
merge_pod_container-name existing new = refl

pub put_container-none :
    (m : ContainersMap) (c : ContainerProfile)
    → lookup c.name m ≡ none
    → put_container m c ≡ insert c.name c m
unfolding put_container
put_container-none m c h = rw (h, put_container) refl

pub put_container-some :
    (m : ContainersMap) (c existing : ContainerProfile)
    → lookup c.name m ≡ some existing
    → put_container m c ≡ insert c.name (merge_pod_container existing c) m
unfolding put_container
put_container-some m c existing h = rw (h, put_container) refl

-- What a map says after a container of its was replaced.
is_keyed-put_container :
    (m : ContainersMap) (c : ContainerProfile)
    → is_keyed m ≡ true
    → is_keyed (put_container m c) ≡ true
is_keyed-put_container m c h = elim (Option-cases (lookup c.name m)) [
  | inl missing ↦
      rw (put_container-none m c missing) (is_keyed-insert c.name c m (==_refl c.name) h)
  | inr (existing, found) ↦ rw (put_container-some m c existing found) (
      is_keyed-insert c.name (merge_pod_container existing c) m
        (ap (λ n. n == c.name) (merge_pod_container-name existing c)
          ∙ lookup-name c.name existing m h found)
        h)
]

found-put_container :
    (name : String) (fact : Fact) (m : ContainersMap) (c : ContainerProfile)
    → found_records fact (lookup name (put_container m c))
      ≡ (found_records fact (lookup name m) || (c.name == name && records fact c))
found-put_container name fact m c = elim (Option-cases (lookup c.name m)) [
  | inl missing ↦ ground (
    arith,
    missing,
    put_container-none m c missing,
    lookup-insert c.name name c m,
    string_comparable.equal_iff c.name name,
  )
  | inr (existing, found) ↦ ground (
    arith,
    found,
    put_container-some m c existing found,
    lookup-insert c.name name (merge_pod_container existing c) m,
    string_comparable.equal_iff c.name name,
    records-merge_pod_container fact existing c,
  )
]

is_keyed-put_containers :
    (m : ContainersMap) (cs : List ContainerProfile)
    → is_keyed m ≡ true
    → is_keyed (put_containers m cs) ≡ true
unfolding put_containers
is_keyed-put_containers m [] h = h
is_keyed-put_containers m (c ∷ cs) h =
    is_keyed-put_containers (put_container m c) cs (is_keyed-put_container m c h)

pub is_keyed-put_pods :
    (m : ContainersMap) (pods : List (List ContainerProfile))
    → is_keyed m ≡ true
    → is_keyed (put_pods m pods) ≡ true
unfolding put_pods
is_keyed-put_pods m [] h = h
is_keyed-put_pods m (cs ∷ pods) h =
    is_keyed-put_pods (put_containers m cs) pods (is_keyed-put_containers m cs h)

found-put_containers :
    (name : String) (fact : Fact) (m : ContainersMap) (cs : List ContainerProfile)
    → found_records fact (lookup name (put_containers m cs))
      ≡ (found_records fact (lookup name m) || says name fact cs)
unfolding put_containers says any
found-put_containers name fact m [] = ground arith
found-put_containers name fact m (c ∷ cs) = ground (
  arith,
  found-put_containers name fact (put_container m c) cs,
  found-put_container name fact m c,
)

found-put_pods :
    (name : String) (fact : Fact) (m : ContainersMap) (pods : List (List ContainerProfile))
    → found_records fact (lookup name (put_pods m pods))
      ≡ (found_records fact (lookup name m) || some_says name fact pods)
unfolding put_pods some_says any
found-put_pods name fact m [] = ground arith
found-put_pods name fact m (cs ∷ pods) = ground (
  arith,
  found-put_pods name fact (put_containers m cs) pods,
  found-put_containers name fact m cs,
)

-- The containers that are merged from the profiles of some pods say exactly what some of the
-- profiles says: for each name of a container and each call, up to `Equals`.
pub says-put_pods :
    (name : String) (fact : Fact) (pods : List (List ContainerProfile))
    → says name fact (values (put_pods [] pods)) ≡ some_says name fact pods
unfolding is_keyed lookup
says-put_pods name fact pods =
    says-lookup name fact (put_pods [] pods) (is_keyed-put_pods [] pods refl)
    ∙ found-put_pods name fact [] pods
    ∙ ground arith
