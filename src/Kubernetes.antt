-- ===== src/Kubernetes.antt =====
-- What the API server stores and answers, as pkg/collector and pkg/controller read it. An answer is
-- `none` for an error.
use kapprofiler.Base.{Bool, String, Option, List, lookup, string_comparable, ◌==◌, or_else}
use kapprofiler.Collector.Calls.{ContainerProfile}

abbrev pub Labels : Type 0
Labels = List (String × String)

-- `labels[key]`: a missing label reads as the empty text.
unfoldable pub label : String → Labels → String
unfolding lookup
label key labels = or_else "" (lookup key labels)

-- An application profile as the API server stores it. There are no containers where the object
-- cannot be converted.
pub record Object : Type 0 where
  pub name : String
  pub namespace : String
  pub labels : Labels
  pub containers : Option (List ContainerProfile)

-- A reference to an owner; `controller` is a pointer, which may be nil.
pub record OwnerReference : Type 0 where
  pub kind : String
  pub name : String
  pub controller : Option Bool

-- The part of a pod or of a workload that is read; `match_labels` are those that the program
-- selects the pods of a workload by.
pub record Resource : Type 0 where
  pub name : String
  pub namespace : String
  pub owner_references : List OwnerReference
  pub match_labels : Labels

pub data ResourceKind : Type 0 where
  pod_kind : ResourceKind
  replica_set_kind : ResourceKind
  daemon_set_kind : ResourceKind
  stateful_set_kind : ResourceKind
  cron_job_kind : ResourceKind
  job_kind : ResourceKind

-- What the API server answers to `Get` and `List`, each given the namespace first.
pub record Cluster : Type 0 where
  pub get : ResourceKind → String → String → Option Resource
  pub list_pods : String → Labels → Option (List Resource)
  pub get_profile : String → String → Option Object

unfoldable pub is_final : Object → Bool
unfolding label
is_final object = label "kapprofiler.kubescape.io/final" object.labels == "true"
