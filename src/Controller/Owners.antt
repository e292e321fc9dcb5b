-- ===== src/Controller/Owners.antt =====
-- What owns a pod, for the collector and for the controller.
use kapprofiler.Base.{
  >>=-eq-some, ◌≡◌, refl, true, false, String, some, List, [], ◌∷◌, arith, ◌∙◌, Bool-cases, inl,
  inr, ◌==◌, string_comparable, to_lower,
}
use kapprofiler.Kubernetes.{Cluster, OwnerReference, Resource, ResourceKind, replica_set_kind}
use kapprofiler.Collector.Names.{get_application_profile_name}
use kapprofiler.Collector.Exists.{is_controller, workload_of, profile_key}
use kapprofiler.Controller.Defs.{
  profile_name, controller_kind, controller_of, deployment_of, Owned, first_owner,
}

-- The kind, in lower case, and the name of the highest owner of a pod for which the controller
-- writes a profile: what owns the pod, if that is no replica set, or the deployment of that.
pub data Writes (cluster : Cluster) (pod : Resource) : String → String → Type 0 where
  for_owner :
      {kind name : String} (owned : Owned)
      → controller_of cluster pod ≡ some owned
      → (kind == "replicaset") ≡ false
      → owned.kind ≡ kind
      → owned.name ≡ name
      → Writes cluster pod kind name
  for_deployment :
      {kind name : String} (owned : Owned) (replicas : Resource) (deployment : OwnerReference)
      → controller_of cluster pod ≡ some owned
      → owned.kind ≡ "replicaset"
      → deployment_of cluster pod.namespace owned.name ≡ some (replicas, deployment)
      → "deployment" ≡ kind
      → deployment.name ≡ name
      → Writes cluster pod kind name

-- What is relied on of the API server: an object has the name and the namespace that it was asked
-- for.
pub record IsKubernetes (cluster : Cluster) : Type 0 where
  pub named :
      (k : ResourceKind) (namespace name : String) (found : Resource)
      → cluster.get k namespace name ≡ some found
      → found.name ≡ name
  pub within :
      (k : ResourceKind) (namespace name : String) (found : Resource)
      → cluster.get k namespace name ≡ some found
      → found.namespace ≡ namespace

-- The first owner reference of each stored object that has one is that of its controller. The
-- documents of Kubernetes do not say so: it is so for the pods and replica sets that the workload
-- controllers of Kubernetes make, which have one reference.
abbrev pub FirstControls : Cluster → Type 0
FirstControls cluster =
    (k : ResourceKind) (namespace name : String) (found : Resource) (owner : OwnerReference)
    → cluster.get k namespace name ≡ some found
    → first_owner found.owner_references ≡ some owner
    → is_controller owner ≡ true

pub lower_cases :
    (to_lower "ReplicaSet" ≡ "replicaset")
    × ((to_lower "DaemonSet" ≡ "daemonset")
        × ((to_lower "StatefulSet" ≡ "statefulset")
            × ((to_lower "CronJob" ≡ "cronjob") × (to_lower "Job" ≡ "job"))))
unfolding to_lower
lower_cases = (refl, (refl, (refl, (refl, refl))))

pub not_replicas :
    (kind lower : String)
    → to_lower kind ≡ lower
    → (lower == "replicaset") ≡ false
    → (kind == "ReplicaSet") ≡ false
not_replicas kind lower h other = ground (
  arith,
  lower_cases.0,
  string_comparable.equal_iff kind "ReplicaSet",
  string_comparable.equal_iff lower "replicaset",
)

pub lower_deployment : to_lower "Deployment" ≡ "deployment"
unfolding to_lower
lower_deployment = refl

-- The prefix of a kind is its lower case.
pub controller_kind-to_lower :
    (kind prefix : String) (k : ResourceKind)
    → controller_kind kind ≡ some (k, prefix)
    → to_lower kind ≡ prefix
unfolding controller_kind
controller_kind-to_lower kind prefix k h = ground (
  arith,
  lower_cases,
  string_comparable.equal_iff kind "ReplicaSet",
  string_comparable.equal_iff kind "DaemonSet",
  string_comparable.equal_iff kind "StatefulSet",
  string_comparable.equal_iff kind "CronJob",
  string_comparable.equal_iff kind "Job",
)

pub controller_kind-replicaset :
    (kind : String) (k : ResourceKind)
    → controller_kind kind ≡ some (k, "replicaset")
    → (kind ≡ "ReplicaSet") × (k ≡ replica_set_kind)
unfolding controller_kind
controller_kind-replicaset kind k h = ground (
  arith,
  string_comparable.equal_iff kind "ReplicaSet",
  string_comparable.equal_iff "daemonset" "replicaset",
  string_comparable.equal_iff "statefulset" "replicaset",
  string_comparable.equal_iff "cronjob" "replicaset",
  string_comparable.equal_iff "job" "replicaset",
)

pub workload_of-first :
    (own : String × String) (owners : List OwnerReference) (owner : OwnerReference)
    → first_owner owners ≡ some owner
    → is_controller owner ≡ true
    → workload_of own owners ≡ (owner.kind, owner.name)
unfolding workload_of
workload_of-first own [] owner h k = ground arith
workload_of-first own (x ∷ xs) owner h k = ground arith

-- What stands behind an answer of `controller_of`.
pub record Behind (cluster : Cluster) (pod : Resource) (owned : Owned) : Type 0 where
  pub owner : OwnerReference
  pub kind : ResourceKind
  pub workload : Resource
  pub first : first_owner pod.owner_references ≡ some owner
  pub prefix : controller_kind owner.kind ≡ some (kind, owned.kind)
  pub got : cluster.get kind pod.namespace owner.name ≡ some workload
  pub same_name : workload.name ≡ owned.name

pub Behind-controller_of :
    (cluster : Cluster) (pod : Resource) (owned : Owned)
    → controller_of cluster pod ≡ some owned
    → Behind cluster pod owned
unfolding controller_of
Behind-controller_of cluster pod owned h =
    let (owner, a) = >>=-eq-some (first_owner pod.owner_references) _ owned h in
    let (kind, b) = >>=-eq-some (controller_kind owner.kind) _ owned a.1 in
    let (workload, c) = >>=-eq-some (cluster.get kind.0 pod.namespace owner.name) _ owned b.1 in
    let (pods, d) =
      >>=-eq-some (cluster.list_pods pod.namespace workload.match_labels) _ owned c.1 in
    record {
      owner = owner;
      kind = kind.0;
      workload = workload;
      first = a.0;
      prefix = b.0 ∙ ground (arith, d.1);
      got = c.0;
      same_name = ground (arith, d.1);
    }

pub profile_key-profile_name :
    (store namespace kind name prefix : String)
    → to_lower kind ≡ prefix
    → to_lower name ≡ name
    → profile_key store namespace (kind, name) ≡ profile_name store namespace prefix name
unfolding profile_key profile_name get_application_profile_name
profile_key-profile_name store namespace kind name prefix h k =
    rw (h, k)
      (elim (Bool-cases (store == "")) [ inl own ↦ rw own refl | inr other ↦ rw other refl ])
