-- ===== src/Tests/Controller.antt =====
-- A daemon set with two pods whose profiles are merged.
use kapprofiler.Base.{
  ◌≡◌, refl, true, false, String, Option, none, some, List, [], ◌∷◌, ◌==◌, string_comparable,
  if◌then◌else◌, one_if, to_lower, is_dashless, lookup, split, arith,
}
use mathlib.Core.List.Perm
use kapprofiler.Collector.Calls.{ContainerProfile, ExecCalls}
use kapprofiler.Collector.Names.{get_application_profile_name}
use kapprofiler.Controller.Defs.{
  handle_application_profile, object_name, is_partial, controller_of, controller_kind, pod_profiles,
  profile_name, Owned, deployment_of, first_owner,
}
use kapprofiler.Kubernetes.{
  Cluster, Object, OwnerReference, Resource, ResourceKind, daemon_set_kind, label, pod_kind,
  replica_set_kind,
}
use kapprofiler.Collector.Exists.{does_application_profile_exist, has_profile, is_controller}
use kapprofiler.Controller.Merge.{put_pods, values}
use kapprofiler.Controller.Facts.{executes, says, some_says}
use kapprofiler.Controller.Union
use kapprofiler.Controller.Once
use kapprofiler.Controller.Once.{named, some_has_name}
use kapprofiler.Controller.Requests
use kapprofiler.Controller.Requests.{are_allowed, written, is_closed}
use kapprofiler.Controller.Names
use kapprofiler.Controller.Agreement
use kapprofiler.Controller.Owners.{IsKubernetes, for_deployment}

abbrev runs : String → ExecCalls
runs path = record { path = path; upper_layer = false; args = []; envs = [] }

abbrev container : String → List ExecCalls → ContainerProfile
container name execs = record {
  name = name;
  execs = execs;
  opens = [];
  network_activity = record { incoming = []; outgoing = [] };
  capabilities = [];
  dns = [];
  sys_calls = "read" ∷ [];
}

abbrev first_pod : List ContainerProfile
first_pod = container "agent" (runs "/bin/a" ∷ []) ∷ container "log" [] ∷ []

abbrev second_pod : List ContainerProfile
second_pod = container "agent" (runs "/bin/b" ∷ runs "/bin/a" ∷ []) ∷ []

abbrev pods : List (List ContainerProfile)
pods = first_pod ∷ second_pod ∷ []

says-put_pods_example :
    says "agent" (executes (runs "/bin/b")) (values (put_pods [] pods))
    ≡ some_says "agent" (executes (runs "/bin/b")) pods
says-put_pods_example = Union.says-put_pods "agent" (executes (runs "/bin/b")) pods

named-put_pods_example :
    named "agent" (values (put_pods [] pods)) ≡ one_if (some_has_name "agent" pods) 0
named-put_pods_example = Once.named-put_pods "agent" pods

abbrev object : String → List ContainerProfile → Object
object name containers = record {
  name = name;
  namespace = "kube-system";
  labels = [];
  containers = some containers;
}

abbrev owned_pod : String → Resource
owned_pod name = record {
  name = name;
  namespace = "kube-system";
  owner_references = record { kind = "DaemonSet"; name = "agent"; controller = some true } ∷ [];
  match_labels = [];
}

abbrev the_set : Resource
the_set = record {
  name = "agent";
  namespace = "kube-system";
  owner_references = [];
  match_labels = ("app", "agent") ∷ [];
}

abbrev get_it : ResourceKind → String → String → Option Resource
get_it pod_kind namespace name = some (owned_pod name)
get_it daemon_set_kind namespace name = some the_set
get_it kind namespace name = none

abbrev cluster : Cluster
cluster = record {
  get = get_it;
  list_pods = λ namespace labels. some (owned_pod "agent-1" ∷ owned_pod "agent-2" ∷ []);
  get_profile = λ namespace name.
      if name == "pod-agent-1"
      then some (object name first_pod)
      else if name == "pod-agent-2"
      then some (object name second_pod)
      else none;
}

handle_application_profile-every_example :
    are_allowed cluster
      (handle_application_profile values cluster "" (object "pod-agent-1" first_pod))
    ≡ true
handle_application_profile-every_example =
    Requests.handle_application_profile-every values cluster "" (object "pod-agent-1" first_pod)

abbrev owned : Owned
owned = record {
  kind = "daemonset";
  name = "agent";
  pods = owned_pod "agent-1" ∷ owned_pod "agent-2" ∷ [];
}

handle_application_profile-says_example :
    says "agent"
      (executes (runs "/bin/b"))
      (written (handle_application_profile values cluster "" (object "pod-agent-1" first_pod)))
    ≡ some_says "agent" (executes (runs "/bin/b")) pods
unfolding is_partial label lookup object_name controller_of controller_kind pod_profiles
    profile_name is_closed split
handle_application_profile-says_example =
    Requests.handle_application_profile-says values (λ m. Perm.rfl) cluster ""
      (object "pod-agent-1" first_pod) (owned_pod "agent-1") owned pods "agent"
      (executes (runs "/bin/b")) refl refl refl refl refl

abbrev stored : Object
stored = record {
  name = "replicaset-web-1-shop";
  namespace = "profiles";
  labels = ("kapprofiler.kubescape.io/namespace", "shop") ∷ [];
  containers = none;
}

object_name-get_application_profile_name_example :
    object_name "profiles" stored ≡ ("shop", to_lower "web-1")
unfolding is_dashless to_lower get_application_profile_name label lookup
object_name-get_application_profile_name_example =
    Names.object_name-get_application_profile_name "profiles" "shop" "ReplicaSet" "web-1" stored
      refl refl refl

abbrev by : String → String → List OwnerReference
by kind name = record { kind = kind; name = name; controller = some true } ∷ []

abbrev resource : String → String → List OwnerReference → Resource
resource namespace name owners = record {
  name = name;
  namespace = namespace;
  owner_references = owners;
  match_labels = [];
}

-- Every pod is of the replica set `web-1`, which is of the deployment `web`.
abbrev get_web : ResourceKind → String → String → Option Resource
get_web pod_kind namespace name = some (resource namespace name (by "ReplicaSet" "web-1"))
get_web replica_set_kind namespace name = some (resource namespace name (by "Deployment" "web"))
get_web kind namespace name = none

abbrev web_cluster : Cluster
web_cluster = record {
  get = get_web;
  list_pods = λ namespace labels. some [];
  get_profile = λ namespace name. none;
}

get_web-named :
    (k : ResourceKind) (namespace name : String) (found : Resource)
    → get_web k namespace name ≡ some found
    → found.name ≡ name
get_web-named pod_kind namespace name found h = ground arith
get_web-named replica_set_kind namespace name found h = ground arith
get_web-named _ namespace name found h = absurd (ground arith)

get_web-within :
    (k : ResourceKind) (namespace name : String) (found : Resource)
    → get_web k namespace name ≡ some found
    → found.namespace ≡ namespace
get_web-within pod_kind namespace name found h = ground arith
get_web-within replica_set_kind namespace name found h = ground arith
get_web-within _ namespace name found h = absurd (ground arith)

get_web-controlled :
    (k : ResourceKind) (namespace name : String) (found : Resource) (owner : OwnerReference)
    → get_web k namespace name ≡ some found
    → first_owner found.owner_references ≡ some owner
    → is_controller owner ≡ true
get_web-controlled pod_kind namespace name found owner h e = ground arith
get_web-controlled replica_set_kind namespace name found owner h e = ground arith
get_web-controlled _ namespace name found owner h e = absurd (ground arith)

web_cluster-IsKubernetes : IsKubernetes web_cluster
web_cluster-IsKubernetes = record { named = get_web-named; within = get_web-within }

abbrev web_owned : Owned
web_owned = record { kind = "replicaset"; name = "web-1"; pods = [] }

does_application_profile_exist-Writes_example :
    does_application_profile_exist web_cluster "" "shop" "web-1-x" true true
    ≡ has_profile web_cluster true (profile_name "" "shop" "deployment" "web")
unfolding controller_of controller_kind deployment_of to_lower
does_application_profile_exist-Writes_example =
    Agreement.does_application_profile_exist-Writes web_cluster web_cluster-IsKubernetes
      get_web-controlled "" "shop" "web-1-x" "deployment" "web" true
      (resource "shop" "web-1-x" (by "ReplicaSet" "web-1")) refl
      (for_deployment web_owned (resource "shop" "web-1" (by "Deployment" "web"))
        (record { kind = "Deployment"; name = "web"; controller = some true }) refl refl refl refl
        refl)
      refl
