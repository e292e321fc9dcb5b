-- ===== src/Collector/Exists.antt =====
-- `doesApplicationProfileExists` and `FinalizeApplicationProfile` of pkg/collector/collector.go.
use kapprofiler.Base.{
  Bool, not, ◌&&◌, String, Option, some, List, [], ◌∷◌, lookup, string_comparable, ◌==◌,
  if◌then◌else◌, ◌>>=◌, or_else, false,
}
use kapprofiler.Kubernetes.{Cluster, OwnerReference, pod_kind, replica_set_kind, is_final}
use kapprofiler.Manager.Defs.{ContainerId, CollectorManager, container_id_comparable}
use kapprofiler.Collector.Names.{get_application_profile_name}

-- `owner.Controller != nil && *owner.Controller`
abbrev pub is_controller : OwnerReference → Bool
is_controller owner = or_else false owner.controller

-- The kind and the name of the first owner that is a controller, or those from before.
unfoldable pub workload_of : String × String → List OwnerReference → String × String
workload_of own [] = own
workload_of own (owner ∷ owners) =
    let rest = workload_of own owners in
    if is_controller owner then (owner.kind, owner.name) else rest

-- The owner of a replica set stands for it.
unfoldable pub above_replica_set : Cluster → String → String × String → Option (String × String)
unfolding workload_of
above_replica_set cluster namespace own =
    if own.0 == "ReplicaSet"
    then (do
      replicas ← cluster.get replica_set_kind namespace own.1
      some (workload_of own replicas.owner_references))
    else some own

unfoldable pub highest_owner : Cluster → String → String → Option (String × String)
unfolding workload_of above_replica_set
highest_owner cluster namespace pod_name = do
  pod ← cluster.get pod_kind namespace pod_name
  above_replica_set cluster namespace (workload_of ("Pod", pod_name) pod.owner_references)

-- The namespace and the name under which the profile of a workload is looked up.
unfoldable pub profile_key : String → String → String × String → String × String
unfolding get_application_profile_name
profile_key store namespace (kind, name) = (
  if store == "" then namespace else store,
  get_application_profile_name store namespace kind name,
)

-- Whether there is a profile, which is final if that is asked for; `none` is an error, also of an
-- API server that has no profile of the name.
unfoldable pub has_profile : Cluster → Bool → String × String → Option Bool
unfolding is_final
has_profile cluster check_final (namespace, name) = do
  existing ← cluster.get_profile namespace name
  some (not (check_final && not (is_final existing)))

unfoldable pub does_application_profile_exist :
    Cluster → String → String → String → Bool → Bool → Option Bool
unfolding highest_owner profile_key has_profile
does_application_profile_exist cluster store namespace pod_name check_final check_owner = do
  workload ←
      if check_owner then highest_owner cluster namespace pod_name else some ("Pod", pod_name)
  has_profile cluster check_final (profile_key store namespace workload)

-- The namespace and the name of the profile that is marked as final, for a container that runs.
unfoldable pub finalize_application_profile :
    String → ContainerId → CollectorManager → Option (String × String)
unfolding lookup profile_key
finalize_application_profile store id cm = do
  state ← lookup id cm.containers
  some (profile_key store id.namespace ("pod", id.pod_name))
