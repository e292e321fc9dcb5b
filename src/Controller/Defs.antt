-- ===== src/Controller/Defs.antt =====
-- `handleApplicationProfile` of pkg/controller/controller.go. What the API server answers is a
-- record of functions, `none` for an error; what the handler asks of it is a list of requests.
use kapprofiler.Base.{
  Bool, String, Option, none, some, List, [], ◌∷◌, string_comparable, ◌==◌, if◌then◌else◌, ◌>>=◌,
  or_else, split, join, trim_suffix, rest_of,
}
use Prim.Native.String.{◌++◌ as joined}
use kapprofiler.Kubernetes.{
  Labels, label, Object, OwnerReference, Resource, ResourceKind, pod_kind, replica_set_kind,
  daemon_set_kind, stateful_set_kind, cron_job_kind, job_kind, Cluster, is_final,
}
use kapprofiler.Collector.Calls.{ContainerProfile}
use kapprofiler.Controller.Merge.{ContainersMap, put_pods}

pub data Request : Type 0 where
  creates : String → String → Labels → List ContainerProfile → Request
  patches : String → String → Labels → List ContainerProfile → Request

unfoldable pub is_partial : Object → Bool
unfolding label
is_partial object = label "kapprofiler.kubescape.io/partial" object.labels == "true"

-- The namespace and the name of what a profile belongs to.
unfoldable pub object_name : String → Object → String × String
unfolding label split join trim_suffix
object_name store object =
    let name = join (rest_of (split object.name)) in
    let namespace = label "kapprofiler.kubescape.io/namespace" object.labels in
    if store == ""
    then (object.namespace, name)
    else (namespace, trim_suffix (joined "-" namespace) name)

-- The namespace and the name of the profile of a resource, whose kind is given in lower case.
unfoldable pub profile_name : String → String → String → String → String × String
profile_name store namespace kind name =
    let own = joined kind (joined "-" name) in
    if store == "" then (namespace, own) else (store, joined own (joined "-" namespace))

abbrev pub create_if : String → String → Labels → Option (List ContainerProfile) → List Request
create_if namespace name labels none = []
create_if namespace name labels (some containers) = creates namespace name labels containers ∷ []

abbrev pub patch_if : String → String → Labels → Option (List ContainerProfile) → List Request
patch_if namespace name labels none = []
patch_if namespace name labels (some containers) = patches namespace name labels containers ∷ []

-- The profile is created if it is not there, and changed unless it is final.
unfoldable pub write_profile :
    Cluster → String × String → Labels → Option (List ContainerProfile) → List Request
unfolding is_final
write_profile cluster (namespace, name) labels containers =
    elim (cluster.get_profile namespace name) [
      | none ↦ create_if namespace name labels containers
      | some existing ↦ if is_final existing then [] else patch_if namespace name labels containers
    ]

abbrev pub first_owner : List OwnerReference → Option OwnerReference
first_owner [] = none
first_owner (owner ∷ owners) = some owner

abbrev pub if_deployment : OwnerReference → Option OwnerReference
if_deployment owner = if owner.kind == "Deployment" then some owner else none

-- The replica set of a profile that is not of a pod, with the deployment that owns it.
unfoldable pub deployment_of : Cluster → String → String → Option (Resource × OwnerReference)
deployment_of cluster namespace name = do
  replicas ← cluster.get replica_set_kind namespace name
  first ← first_owner replicas.owner_references
  owner ← if_deployment first
  some (replicas, owner)

unfoldable pub handle_replica_set : Cluster → String → Object → String → String → List Request
unfolding deployment_of profile_name write_profile
handle_replica_set cluster store object namespace name =
    elim (deployment_of cluster namespace name) [
      | none ↦ []
      | some (replicas, owner) ↦
          write_profile cluster (profile_name store replicas.namespace "deployment" owner.name)
            object.labels object.containers
    ]

-- The kinds that may own a pod, with the prefix of their profiles' names.
unfoldable pub controller_kind : String → Option (ResourceKind × String)
controller_kind kind =
    if kind == "ReplicaSet"
    then some (replica_set_kind, "replicaset")
    else if kind == "DaemonSet"
    then some (daemon_set_kind, "daemonset")
    else if kind == "StatefulSet"
    then some (stateful_set_kind, "statefulset")
    else if kind == "CronJob"
    then some (cron_job_kind, "cronjob")
    else if kind == "Job"
    then some (job_kind, "job")
    else none

-- What owns a pod, and all of its pods.
pub record Owned : Type 0 where
  pub kind : String
  pub name : String
  pub pods : List Resource

unfoldable pub controller_of : Cluster → Resource → Option Owned
unfolding controller_kind
controller_of cluster pod = do
  owner ← first_owner pod.owner_references
  kind ← controller_kind owner.kind
  workload ← cluster.get kind.0 pod.namespace owner.name
  pods ← cluster.list_pods pod.namespace workload.match_labels
  some (record { kind = kind.1; name = workload.name; pods = pods })

-- The containers of the profiles of some pods, if there is a profile for each.
unfoldable pub pod_profiles :
    Cluster → String → List Resource → Option (List (List ContainerProfile))
unfolding profile_name
pod_profiles cluster store [] = some []
pod_profiles cluster store (pod ∷ pods) = do
  let key = profile_name store pod.namespace "pod" pod.name
  object ← cluster.get_profile key.0 key.1
  containers ← object.containers
  rest ← pod_profiles cluster store pods
  some (containers ∷ rest)

-- Go ranges over a map in no fixed order: `range` is what it gives.
unfoldable pub handle_pod :
    (ContainersMap → List ContainerProfile) → Cluster → String → Object → Resource → List Request
unfolding controller_of pod_profiles put_pods profile_name write_profile
handle_pod range cluster store object pod = or_else [] (do
  owned ← controller_of cluster pod
  profiles ← pod_profiles cluster store owned.pods
  some (
      write_profile cluster (profile_name store pod.namespace owned.kind owned.name) object.labels
        (some (range (put_pods [] profiles)))))

unfoldable pub handle_application_profile :
    (ContainersMap → List ContainerProfile) → Cluster → String → Object → List Request
unfolding is_partial object_name handle_replica_set handle_pod
handle_application_profile range cluster store object =
    let (namespace, name) = object_name store object in
    if is_partial object then [] else elim (cluster.get pod_kind namespace name) [
      | none ↦ handle_replica_set cluster store object namespace name
      | some found ↦ handle_pod range cluster store object found
    ]
