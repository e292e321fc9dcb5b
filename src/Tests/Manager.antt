-- ===== src/Tests/Manager.antt =====
-- A container that starts, makes system calls and stops.
use kapprofiler.Base.{◌≡◌, true, false, ◌&&◌, some, none, [], ◌∷◌, String, any}
use kapprofiler.Collector.Calls.{OpenConfig}
use kapprofiler.Collector.Build.{TotalEvents, should_process_events}
use kapprofiler.Manager.Defs.{
  ContainerId, CollectorManager, ManagerConfig, container_stopped, id_of,
}
use kapprofiler.Manager.Collect.{collect_container_events}
use kapprofiler.Manager.Running
use kapprofiler.Manager.Running.{is_timer_of, is_recorded}
use kapprofiler.Manager.History
use kapprofiler.Manager.History.{Activity, manager_after}

abbrev config : ManagerConfig
config = record {
  interval = 60;
  finalize_time = 80;
  record_strategy = "always";
  store_namespace = "";
}

abbrev open_config : OpenConfig
open_config = record { ignore_mounts = false; ignore_prefixes = [] }

abbrev activity : String → Activity
activity name = record {
  event = record {
    container_name = "nginx";
    pod_name = "web";
    namespace = "shop";
    activity = name;
    container_id = "c1";
    ns_mnt_id = 7;
    pid = 30;
  };
  profile_exists = some false;
  mounts = some ("/data" ∷ []);
}

abbrev id : ContainerId
id = id_of (activity "start").event

abbrev recorded : CollectorManager
recorded = manager_after config (activity "start" ∷ [])

abbrev totals : TotalEvents
totals = record {
  exec_events = [];
  open_events = [];
  syscall_events = "read" ∷ [];
  capabilities_events = [];
  dns_events = [];
  network_events = [];
}

collect_container_events-container_stopped_example :
    collect_container_events config open_config id totals none true
      ((container_stopped id recorded).0)
    ≡ ((container_stopped id recorded).0, [])
collect_container_events-container_stopped_example =
    Running.collect_container_events-container_stopped config open_config id totals none true
      recorded

collect_container_events-timer_example :
    any
      (is_timer_of id)
      ((collect_container_events config open_config id totals none true recorded).1)
    ≡ (is_recorded id ((collect_container_events config open_config id totals none true recorded).0)
        && should_process_events totals)
collect_container_events-timer_example =
    Running.collect_container_events-timer config open_config id totals none true recorded
