-- ===== src/Tests/Finalizer.antt =====
-- A pod that becomes ready while it is recorded, and is deleted.
use kapprofiler.Base.{◌/◌, ◌≡◌, ◌≤◌, refl, false, some, none, List, [], ◌∷◌}
use kapprofiler.Finalizer.Defs.{Pod, Config, Finalizer, key_of, handle_pod_delete_event}
use kapprofiler.Finalizer.Timers.{others}
use kapprofiler.Finalizer.History
use kapprofiler.Finalizer.History.{
  PodEvent, is_added, is_updated, records, fires, run, untracked_starts,
}

abbrev ten_seconds : Config
ten_seconds = record { finalize_time = 80; finalize_jitter = 10; draw = λ n. n / 2 }

abbrev web : Pod
web = record { name = "web"; namespace = "shop"; conditions = ("Ready", "True") ∷ [] }

abbrev events : List PodEvent
events = is_updated web ∷ records "web" "shop" false none ∷ is_added web ∷ []

run-handle_pod_delete_event_example :
    (s : Finalizer) × (run ten_seconds events ≡ some s)
    × (others (key_of web) none (handle_pod_delete_event web s).timers
        ≤ untracked_starts (key_of web) ten_seconds events)
run-handle_pod_delete_event_example =
    History.run-handle_pod_delete_event ten_seconds web events refl
