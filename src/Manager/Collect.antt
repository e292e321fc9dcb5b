-- ===== src/Manager/Collect.antt =====
-- `CollectContainerEvents` of pkg/collector/collector.go. The events that are loaded, the
-- application profile that the API server returns, and whether it takes the update are arguments;
-- the name of the profile and the errors that are only logged are left out.
use kapprofiler.Base.{
  Bool, false, not, ◌&&◌, String, Option, none, some, List, [], ◌∷◌, ◌++◌, length, lookup, insert,
  delete, string_comparable, ◌==◌, leb, if◌then◌else◌,
}
use kapprofiler.EventSink.Defs.{remove_filter_from}
use kapprofiler.Collector.Calls.{ContainerProfile, OpenConfig, max_open_events}
use kapprofiler.Collector.Build.{TotalEvents, should_process_events, container_profile_of}
use kapprofiler.Collector.Merge.{merge_application_profiles}
use kapprofiler.Manager.Defs.{
  ContainerId, ContainerState, CollectorManager, ManagerConfig, Effect, creates_profile,
  updates_profile, marks_failed, marks_not_recording, stops_trace, starts_timer, mount_key,
  whole_filter, or_nothing, container_id_comparable,
}

pub record ApplicationProfile : Type 0 where
  pub labels : List (String × String)
  pub containers : List ContainerProfile

-- Whether a label has a value.
unfoldable pub has_label : String → String → List (String × String) → Bool
unfolding lookup
has_label label value labels = elim (lookup label labels) [ none ↦ false | some v ↦ v == value ]

-- Whether a profile has reached the limit of open events.
abbrev pub is_over_limit : ContainerProfile → Bool
is_over_limit profile = leb max_open_events (length profile.opens)

abbrev label_if : Bool → String → String → List (String × String) → List (String × String)
label_if b label value labels = if b then insert label value labels else labels

-- The labels of a new profile.
unfoldable pub new_labels :
    ManagerConfig → ContainerId → ContainerState → ContainerProfile → List (String × String)
new_labels config id state profile =
    label_if (not (config.store_namespace == "")) "kapprofiler.kubescape.io/namespace" id.namespace
      (label_if (is_over_limit profile) "kapprofiler.kubescape.io/failed" "true"
        (label_if state.attached "kapprofiler.kubescape.io/partial" "true" []))

-- The labels of a merged profile.
unfoldable pub merged_labels : ContainerState → List (String × String) → List (String × String)
unfolding has_label
merged_labels state labels =
    if not state.attached && has_label "kapprofiler.kubescape.io/partial" "true" labels
    then ("kapprofiler.kubescape.io/partial", "false") ∷ []
    else labels

-- The end of the recording of a container.
unfoldable pub give_up : ContainerId → CollectorManager → CollectorManager
unfolding remove_filter_from
give_up id cm = record cm {
  containers = delete id cm.containers;
  event_filters = remove_filter_from cm.event_filters (whole_filter id);
}

abbrev pub gives_up : ContainerId → List Effect
gives_up id = stops_trace id.ns_mnt_id id.pid ∷ marks_not_recording id.pod_name id.namespace ∷ []

-- The branch for a profile that exists.
unfoldable pub add_to_profile :
    OpenConfig
    → ContainerId
    → ContainerState
    → List String
    → ContainerProfile
    → ApplicationProfile
    → Bool
    → CollectorManager
    → CollectorManager × List Effect
unfolding has_label merged_labels merge_application_profiles give_up
add_to_profile open_config id state mounts profile existing updates cm =
    let fails = if is_over_limit profile then marks_failed ∷ [] else [] in
    let update =
      updates_profile (merged_labels state existing.labels)
        (merge_application_profiles open_config mounts existing.containers profile) in
    if has_label "kapprofiler.kubescape.io/final" "true" existing.labels
    then (give_up id cm, gives_up id)
    else if updates
    then (cm, fails ++ update ∷ starts_timer id ∷ [])
    else (give_up id cm, fails ++ update ∷ (gives_up id ++ marks_failed ∷ []))

-- The body for a container of the map.
unfoldable pub collect_running :
    ManagerConfig
    → OpenConfig
    → ContainerId
    → ContainerState
    → TotalEvents
    → Option ApplicationProfile
    → Bool
    → CollectorManager
    → CollectorManager × List Effect
unfolding should_process_events container_profile_of new_labels add_to_profile lookup mount_key
collect_running config open_config id state totals found updates cm =
    let mounts = or_nothing (lookup (mount_key id) cm.pod_mount_cache) in
    let profile = container_profile_of open_config mounts id.container totals in
    if not (should_process_events totals) then (cm, []) else elim found [
      | none ↦ (
        cm,
        creates_profile (new_labels config id state profile) (profile ∷ []) ∷ starts_timer id ∷ [],
      )
      | some existing ↦ add_to_profile open_config id state mounts profile existing updates cm
    ]

unfoldable pub collect_container_events :
    ManagerConfig
    → OpenConfig
    → ContainerId
    → TotalEvents
    → Option ApplicationProfile
    → Bool
    → CollectorManager
    → CollectorManager × List Effect
unfolding lookup collect_running
collect_container_events config open_config id totals found updates cm =
    elim (lookup id cm.containers) [
      | none ↦ (cm, [])
      | some state ↦ collect_running config open_config id state totals found updates cm
    ]
