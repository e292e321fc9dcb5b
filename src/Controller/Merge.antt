-- ===== src/Controller/Merge.antt =====
-- The merging of the profiles of pods in `handleApplicationProfile` of
-- pkg/controller/controller.go. The map of the containers is an association list.
use kapprofiler.Base.{
  Bool, String, none, some, List, [], ◌∷◌, ◌++◌, any, map, string_comparable, lookup, insert,
  if◌then◌else◌,
}
use kapprofiler.Collector.Calls.{ContainerProfile}
use kapprofiler.Collector.Equals.{
  same_string, exec_equals, open_equals, capabilities_equals, dns_equals, network_equals,
}

-- One of the loops: an element is appended if no element that is there by then equals it.
unfoldable pub merge_missing {ℓ} : {A : Type ℓ} → (A → A → Bool) → List A → List A → List A
unfolding any
merge_missing equals existing [] = existing
merge_missing equals existing (x ∷ xs) =
    merge_missing equals
      (if any (λ old. equals old x) existing then existing else existing ++ x ∷ []) xs

-- The loops that merge a container of a pod into the one of the map.
unfoldable pub merge_pod_container : ContainerProfile → ContainerProfile → ContainerProfile
unfolding merge_missing exec_equals open_equals capabilities_equals dns_equals network_equals
merge_pod_container existing new = record {
  name = existing.name;
  execs = merge_missing exec_equals existing.execs new.execs;
  opens = merge_missing open_equals existing.opens new.opens;
  network_activity = record {
    incoming =
        merge_missing network_equals existing.network_activity.incoming
          new.network_activity.incoming;
    outgoing =
        merge_missing network_equals existing.network_activity.outgoing
          new.network_activity.outgoing;
  };
  capabilities = merge_missing capabilities_equals existing.capabilities new.capabilities;
  dns = merge_missing dns_equals existing.dns new.dns;
  sys_calls = merge_missing same_string existing.sys_calls new.sys_calls;
}

abbrev pub ContainersMap : Type 0
ContainersMap = List (String × ContainerProfile)

-- One round of the loop over the containers of a pod.
unfoldable pub put_container : ContainersMap → ContainerProfile → ContainersMap
unfolding merge_pod_container lookup insert
put_container containers c = elim (lookup c.name containers) [
  | none ↦ insert c.name c containers
  | some existing ↦ insert c.name (merge_pod_container existing c) containers
]

unfoldable pub put_containers : ContainersMap → List ContainerProfile → ContainersMap
unfolding put_container
put_containers containers [] = containers
put_containers containers (c ∷ cs) = put_containers (put_container containers c) cs

-- The loop over the pods, each given by the containers of its profile.
unfoldable pub put_pods : ContainersMap → List (List ContainerProfile) → ContainersMap
unfolding put_containers
put_pods containers [] = containers
put_pods containers (pod ∷ pods) = put_pods (put_containers containers pod) pods

abbrev pub values : ContainersMap → List ContainerProfile
values containers = map (λ entry. entry.1) containers
