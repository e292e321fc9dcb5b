-- ===== src/Manager/Defs.antt =====
-- `CollectorManager` of pkg/collector/collector.go: its state, and the handlers of a container
-- that starts or stops. What the handlers ask of other parts is a list of effects, in order.
use kapprofiler.Base.{
  ℕ, ◌≡◌, ◌↔◌, Bool, true, false, ◌&&◌, String, Option, none, some, List, [], ◌∷◌, lookup, insert,
  delete, Comparable, nat_comparable, string_comparable, ◌==◌, eqb, ltb, if◌then◌else◌, arith,
  eqb_iff,
}
use Prim.Native.String.{◌++◌ as joined}
use kapprofiler.Tracing.Events.{all_event_type}
use kapprofiler.Tracing.Listeners.{ContainerActivityEvent}
use kapprofiler.EventSink.Defs.{EventSinkFilter, add_filter_to, remove_filter_from}
use kapprofiler.Collector.Calls.{ContainerProfile}

pub record ContainerId : Type 0 where
  pub namespace : String
  pub pod_name : String
  pub container : String
  pub container_id : String
  pub ns_mnt_id : ℕ
  pub pid : ℕ

unfoldable pub same_id : ContainerId → ContainerId → Bool
same_id a b =
    a.namespace == b.namespace
    && (a.pod_name == b.pod_name
        && (a.container == b.container
            && (a.container_id == b.container_id
                && (eqb a.ns_mnt_id b.ns_mnt_id && eqb a.pid b.pid))))

pub same_id_iff : (a b : ContainerId) → (same_id a b ≡ true) ↔ (a ≡ b)
unfolding same_id
same_id_iff a b = ground (
  arith,
  string_comparable.equal_iff a.namespace b.namespace,
  string_comparable.equal_iff a.pod_name b.pod_name,
  string_comparable.equal_iff a.container b.container,
  string_comparable.equal_iff a.container_id b.container_id,
  eqb_iff a.ns_mnt_id b.ns_mnt_id,
  eqb_iff a.pid b.pid,
)

instance abbrev pub container_id_comparable : Comparable ContainerId
container_id_comparable = record { equal = same_id; equal_iff = same_id_iff }

pub record ContainerState : Type 0 where
  pub running : Bool
  pub attached : Bool

pub data Effect : Type 0 where
  starts_trace : ℕ → ℕ → Effect
  stops_trace : ℕ → ℕ → Effect
  starts_timer : ContainerId → Effect
  collects : ContainerId → Effect
  marks_recording : String → String → Bool → Effect
  marks_not_recording : String → String → Effect
  creates_profile : List (String × String) → List ContainerProfile → Effect
  updates_profile : List (String × String) → List ContainerProfile → Effect
  marks_failed : Effect

pub record CollectorManager : Type 0 where
  pub containers : List (ContainerId × ContainerState)
  pub event_filters : List EventSinkFilter
  pub pod_mount_cache : List (String × List String)

pub record ManagerConfig : Type 0 where
  pub interval : ℕ
  pub finalize_time : ℕ
  pub record_strategy : String
  pub store_namespace : String

unfoldable pub mount_key : ContainerId → String
mount_key id = joined id.pod_name (joined "-" id.namespace)

abbrev pub whole_filter : ContainerId → EventSinkFilter
whole_filter id = record { container_id = id.container_id; event_type = all_event_type }

abbrev pub or_nothing : Option (List String) → List String
or_nothing none = []
or_nothing (some mounts) = mounts

-- The mounts that are stored for a pod, when the API server returns some or an error.
unfoldable pub cache_mounts :
    ContainerId → Option (List String) → List (String × List String) → List (String × List String)
unfolding lookup mount_key
cache_mounts id mounts cache = elim (lookup (mount_key id) cache) [
  | none ↦ insert (mount_key id) (or_nothing mounts) cache
  | some old ↦ cache
]

-- `profile_exists` is what `doesApplicationProfileExists` returns, `none` for an error.
abbrev pub is_left_out : ManagerConfig → Option Bool → Bool
is_left_out config none = false
is_left_out config (some exists) = exists && config.record_strategy == "only-if-not-exists"

unfoldable pub container_started :
    ManagerConfig
    → ContainerId
    → Bool
    → Option Bool
    → Option (List String)
    → CollectorManager
    → CollectorManager × List Effect
unfolding add_filter_to cache_mounts
container_started config id attach profile_exists mounts cm =
    let finalizes = ltb 0 config.finalize_time && ltb config.interval config.finalize_time in
    let marks = if finalizes then marks_recording id.pod_name id.namespace attach ∷ [] else [] in
    if is_left_out config profile_exists then (cm, []) else (
      record {
        containers = insert id (record { running = true; attached = attach }) cm.containers;
        event_filters = add_filter_to cm.event_filters (whole_filter id);
        pod_mount_cache = cache_mounts id mounts cm.pod_mount_cache;
      },
      starts_trace id.ns_mnt_id id.pid ∷ starts_timer id ∷ marks,
    )

-- Whether a container of the pod of `id` is in the map.
unfoldable pub pod_exists : ContainerId → List (ContainerId × ContainerState) → Bool
pod_exists id [] = false
pod_exists id (entry ∷ entries) =
    if (entry.0).pod_name == id.pod_name && (entry.0).namespace == id.namespace
    then true
    else pod_exists id entries

-- The state without a container.
unfoldable pub forget : ContainerId → CollectorManager → CollectorManager
unfolding remove_filter_from pod_exists mount_key
forget id cm =
    let containers = delete id cm.containers in
    record {
      containers = containers;
      event_filters = remove_filter_from cm.event_filters (whole_filter id);
      pod_mount_cache =
          if pod_exists id containers
          then cm.pod_mount_cache
          else delete (mount_key id) cm.pod_mount_cache;
    }

unfoldable pub container_stopped : ContainerId → CollectorManager → CollectorManager × List Effect
unfolding forget lookup
container_stopped id cm = elim (lookup id cm.containers) [
  | none ↦ (cm, collects id ∷ [])
  | some c ↦ (
    forget id cm,
    marks_not_recording id.pod_name id.namespace
        ∷ stops_trace id.ns_mnt_id id.pid
        ∷ collects id
        ∷ [],
  )
]

abbrev pub id_of : ContainerActivityEvent → ContainerId
id_of event = record {
  namespace = event.namespace;
  pod_name = event.pod_name;
  container = event.container_name;
  container_id = event.container_id;
  ns_mnt_id = event.ns_mnt_id;
  pid = event.pid;
}

unfoldable pub on_container_activity_event :
    ManagerConfig
    → Option Bool
    → Option (List String)
    → ContainerActivityEvent
    → CollectorManager
    → CollectorManager × List Effect
unfolding container_started container_stopped
on_container_activity_event config profile_exists mounts event cm =
    if event.activity == "start"
    then container_started config (id_of event) false profile_exists mounts cm
    else if event.activity == "stop"
    then container_stopped (id_of event) cm
    else if event.activity == "attached"
    then container_started config (id_of event) true profile_exists mounts cm
    else (cm, [])
