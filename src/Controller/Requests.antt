-- ===== src/Controller/Requests.antt =====
-- What the handler writes to the API server.
use mathlib.Core.List.{Perm}
use kapprofiler.Controller.Union.{says-put_pods}
use kapprofiler.Controller.Facts.{Fact, says, some_says, records}
use kapprofiler.Base.{
  ◌≡◌, refl, Bool, true, false, not, String, Option, none, some, List, [], arith, Option-cases, inl,
  inr, ap, ◌∙◌, Bool-cases, ◌∷◌, any-perm, ◌==◌, ◌&&◌, string_comparable,
}
use kapprofiler.Collector.Calls.{ContainerProfile}
use kapprofiler.Controller.Merge.{ContainersMap, put_pods, values}
use kapprofiler.Controller.Defs.{
  Request, Owned, creates, patches, write_profile, handle_replica_set, deployment_of, controller_of,
  pod_profiles, handle_pod, profile_name, handle_application_profile, object_name, is_partial,
}
use kapprofiler.Kubernetes.{Object, Resource, Cluster, Labels, is_final, pod_kind}

abbrev get_failed : Option Object → Bool
get_failed none = true
get_failed (some object) = false

abbrev is_open : Option Object → Bool
is_open none = false
is_open (some object) = not (is_final object)

-- A profile is created where `Get` returns an error, of whatever kind, and changed where it returns
-- one that is not final.
unfoldable pub is_allowed : Cluster → Request → Bool
unfolding is_final
is_allowed cluster (creates namespace name labels containers) =
    get_failed (cluster.get_profile namespace name)
is_allowed cluster (patches namespace name labels containers) =
    is_open (cluster.get_profile namespace name)

-- No request, or one that is allowed.
unfoldable pub are_allowed : Cluster → List Request → Bool
unfolding is_allowed
are_allowed cluster [] = true
are_allowed cluster (request ∷ []) = is_allowed cluster request
are_allowed cluster (request ∷ next ∷ requests) = false

write_profile-every :
    (cluster : Cluster) (key : String × String) (labels : Labels)
    (containers : Option (List ContainerProfile))
    → are_allowed cluster (write_profile cluster key labels containers) ≡ true
unfolding are_allowed is_allowed write_profile
write_profile-every cluster (namespace, name) labels none = ground arith
write_profile-every cluster (namespace, name) labels (some cs) = ground arith

handle_replica_set-every :
    (cluster : Cluster) (store : String) (object : Object) (namespace name : String)
    → are_allowed cluster (handle_replica_set cluster store object namespace name) ≡ true
unfolding are_allowed handle_replica_set
handle_replica_set-every cluster store object namespace name =
    elim (Option-cases (deployment_of cluster namespace name)) [
      | inl h ↦ rw (h, handle_replica_set) refl
      | inr (found, h) ↦
          rw (h, handle_replica_set)
            (write_profile-every cluster
              (profile_name store (found.0).namespace "deployment" (found.1).name) object.labels
              object.containers)
    ]

handle_pod-owned :
    (range : ContainersMap → List ContainerProfile) (cluster : Cluster) (store : String)
    (object : Object) (found : Resource) (owned : Owned) (profiles : List (List ContainerProfile))
    → controller_of cluster found ≡ some owned
    → pod_profiles cluster store owned.pods ≡ some profiles
    → handle_pod range cluster store object found
      ≡ write_profile cluster
          (profile_name store found.namespace owned.kind owned.name)
          object.labels
          (some (range (put_pods [] profiles)))
unfolding handle_pod
handle_pod-owned range cluster store object found owned profiles h k =
    rw (h, handle_pod) (rw k refl)

handle_pod-every :
    (range : ContainersMap → List ContainerProfile) (cluster : Cluster) (store : String)
    (object : Object) (found : Resource)
    → are_allowed cluster (handle_pod range cluster store object found) ≡ true
unfolding are_allowed handle_pod
handle_pod-every range cluster store object found =
    elim (Option-cases (controller_of cluster found)) [
      | inl h ↦ rw (h, handle_pod) refl
      | inr (owned, h) ↦ elim (Option-cases (pod_profiles cluster store owned.pods)) [
        | inl k ↦ rw (h, handle_pod) (rw k refl)
        | inr (profiles, k) ↦
            ap (are_allowed cluster)
              (handle_pod-owned range cluster store object found owned profiles h k)
            ∙ write_profile-every cluster (profile_name store found.namespace owned.kind owned.name)
                object.labels (some (range (put_pods [] profiles)))
      ]
    ]

handle_application_profile-pod :
    (range : ContainersMap → List ContainerProfile) (cluster : Cluster) (store : String)
    (object : Object) (found : Resource)
    → is_partial object ≡ false
    → cluster.get pod_kind (object_name store object).0 (object_name store object).1 ≡ some found
    → handle_application_profile range cluster store object
      ≡ handle_pod range cluster store object found
unfolding handle_application_profile
handle_application_profile-pod range cluster store object found whole h =
    rw (whole, h, handle_application_profile) refl

-- Whatever the API server answers, each request of the handler is one of these: it creates a profile
-- under a name for which `Get` returned an error, which need not be that there is none, or it
-- changes a profile that `Get` returned and that is not final. There is at most one request.
pub handle_application_profile-every :
    (range : ContainersMap → List ContainerProfile) (cluster : Cluster) (store : String)
    (object : Object)
    → are_allowed cluster (handle_application_profile range cluster store object) ≡ true
unfolding are_allowed handle_application_profile
handle_application_profile-every range cluster store object =
    let key = object_name store object in
    elim (Bool-cases (is_partial object)) [
      | inl partial ↦ rw (partial, handle_application_profile) refl
      | inr whole ↦ elim (Option-cases (cluster.get pod_kind key.0 key.1)) [
        | inl h ↦
            rw (whole, h, handle_application_profile)
              (handle_replica_set-every cluster store object key.0 key.1)
        | inr (found, h) ↦
            rw (whole, h, handle_application_profile)
              (handle_pod-every range cluster store object found)
      ]
    ]

unfoldable pub contents : Request → List ContainerProfile
contents (creates namespace name labels containers) = containers
contents (patches namespace name labels containers) = containers

-- The containers that some requests write.
unfoldable pub written : List Request → List ContainerProfile
unfolding contents
written [] = []
written (request ∷ requests) = contents request

abbrev is_closed_profile : Option Object → Bool
is_closed_profile none = false
is_closed_profile (some object) = is_final object

-- Whether there is a final profile of a namespace and a name.
unfoldable pub is_closed : Cluster → String × String → Bool
unfolding is_final
is_closed cluster (namespace, name) = is_closed_profile (cluster.get_profile namespace name)

written-write_profile :
    (cluster : Cluster) (key : String × String) (labels : Labels)
    (containers : List ContainerProfile)
    → is_closed cluster key ≡ false
    → written (write_profile cluster key labels (some containers)) ≡ containers
unfolding written write_profile is_closed
written-write_profile cluster (namespace, name) labels containers h = ground arith

-- When the profile of a pod is handled, the pods of its workload all have a profile and that of
-- the workload is not final, then what is written for the workload says exactly what some of the
-- pods' profiles says, in whatever order Go ranges over the map of the containers.
pub handle_application_profile-says :
    (range : ContainersMap → List ContainerProfile)
    (in_some_order : (m : ContainersMap) → Perm (range m) (values m)) (cluster : Cluster)
    (store : String) (object : Object) (found : Resource) (owned : Owned)
    (profiles : List (List ContainerProfile)) (name : String) (fact : Fact)
    → is_partial object ≡ false
    → cluster.get pod_kind (object_name store object).0 (object_name store object).1 ≡ some found
    → controller_of cluster found ≡ some owned
    → pod_profiles cluster store owned.pods ≡ some profiles
    → is_closed cluster (profile_name store found.namespace owned.kind owned.name) ≡ false
    → says name fact (written (handle_application_profile range cluster store object))
      ≡ some_says name fact profiles
unfolding handle_application_profile says
handle_application_profile-says range in_some_order cluster store object found owned profiles name
      fact whole h owner all not_final =
    let key = profile_name store found.namespace owned.kind owned.name in
    ap (λ l. says name fact (written l))
      (handle_application_profile-pod range cluster store object found whole h
        ∙ handle_pod-owned range cluster store object found owned profiles owner all)
    ∙ ap (says name fact)
        (written-write_profile cluster key object.labels (range (put_pods [] profiles)) not_final)
    ∙ any-perm (λ c. c.name == name && records fact c) (in_some_order (put_pods [] profiles))
    ∙ says-put_pods name fact profiles
