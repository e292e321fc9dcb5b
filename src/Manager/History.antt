-- ===== src/Manager/History.antt =====
-- The containers that are recorded after a history of container activity events.
use kapprofiler.Base.{
  Bool, true, false, not, Option, List, [], ◌∷◌, String, if◌then◌else◌, ◌==◌, string_comparable,
}
use kapprofiler.Tracing.Listeners.{ContainerActivityEvent}
use kapprofiler.Manager.Defs.{
  ContainerId, CollectorManager, ManagerConfig, container_id_comparable, is_left_out,
  on_container_activity_event, id_of,
}

-- An event, with what the API server says of the profile and the mounts of its pod.
pub record Activity : Type 0 where
  pub event : ContainerActivityEvent
  pub profile_exists : Option Bool
  pub mounts : Option (List String)

abbrev pub no_containers : CollectorManager
no_containers = record { containers = []; event_filters = []; pod_mount_cache = [] }

-- The state after a history, the newest event first.
unfoldable pub manager_after : ManagerConfig → List Activity → CollectorManager
unfolding on_container_activity_event
manager_after config [] = no_containers
manager_after config (a ∷ h) =
    (on_container_activity_event config a.profile_exists a.mounts a.event
      (manager_after config h)).0

-- Whether the newest start or stop of a container is a start; a start that the record strategy
-- leaves out does not count.
unfoldable pub is_up : ManagerConfig → ContainerId → List Activity → Bool
is_up config id [] = false
is_up config id (a ∷ h) =
    let before = is_up config id h in
    let started = if is_left_out config a.profile_exists then before else true in
    if not (id_of a.event == id)
    then before
    else if a.event.activity == "start"
    then started
    else if a.event.activity == "stop"
    then false
    else if a.event.activity == "attached"
    then started
    else before
