-- ===== src/Finalizer/History.antt =====
-- Histories of the pod finalizer: which timers still run after a pod is deleted.
use kapprofiler.Base.{
  ℕ, ◌≡◌, ◌≤◌, refl, Bool, false, String, Option, none, some, List, [], ◌∷◌, one_if, arith, true,
}
use kapprofiler.Finalizer.Defs.{
  Pod, Config, Finalizer, key_of, handle_pod_add_event, handle_pod_update_event,
  handle_pod_delete_event, mark_pod_recording, mark_pod_not_recording, fire, can_draw,
}
use kapprofiler.Finalizer.Timers.{
  untracked, untracked-stop_timer, others, others-stop_timer, tracked,
}
use kapprofiler.Finalizer.Handlers.{
  GoesWell, adds_timer, attaches_timer, untracked-mark_pod_not_recording, untracked-fire,
  handle_pod_add_event-GoesWell, handle_pod_update_event-GoesWell, mark_pod_recording-GoesWell,
}

-- What happens to the finalizer: events of the pod watcher, calls of the collector, a timer.
pub data PodEvent : Type 0 where
  is_added : Pod → PodEvent
  is_updated : Pod → PodEvent
  is_deleted : Pod → PodEvent
  records : String → String → Bool → Option Pod → PodEvent
  stops_recording : String → String → PodEvent
  fires : ℕ → PodEvent

abbrev pub no_pods : Finalizer
no_pods = record {
  pod_finalizer_state = [];
  timers = [];
  next_timer = 0;
  finalized = [];
  deleted = [];
}

unfoldable pub step : Config → PodEvent → Finalizer → Option Finalizer
unfolding handle_pod_add_event handle_pod_update_event handle_pod_delete_event mark_pod_recording
    mark_pod_not_recording fire
step config (is_added pod) s = handle_pod_add_event config pod s
step config (is_updated pod) s = handle_pod_update_event config pod s
step config (is_deleted pod) s = some (handle_pod_delete_event pod s)
step config (records name namespace attach found) s =
    mark_pod_recording config name namespace attach found s
step config (stops_recording name namespace) s = some (mark_pod_not_recording name namespace s)
step config (fires id) s = some (fire id s)

-- The newest event first; `none` when the program has panicked.
unfoldable pub run : Config → List PodEvent → Option Finalizer
unfolding step
run config [] = some no_pods
run config (e ∷ h) = elim (run config h) [ none ↦ none | some s ↦ step config e s ]

-- Whether an event starts a timer of a key that it does not store in the table.
unfoldable pub starts : String → PodEvent → Finalizer → Bool
unfolding adds_timer attaches_timer
starts k (is_added pod) s = adds_timer k pod s
starts k (is_updated pod) s = false
starts k (is_deleted pod) s = false
starts k (records name namespace attach found) s = attaches_timer k attach found
starts k (stops_recording name namespace) s = false
starts k (fires id) s = false

-- How often that happened.
unfoldable pub untracked_starts : String → Config → List PodEvent → ℕ
unfolding run starts
untracked_starts k config [] = 0
untracked_starts k config (e ∷ h) =
    let before = untracked_starts k config h in
    elim (run config h) [ none ↦ before | some s ↦ one_if (starts k e s) before ]

untracked-handle_pod_delete_event :
    (k : String) (pod : Pod) (s : Finalizer)
    → untracked k (handle_pod_delete_event pod s) ≤ untracked k s
unfolding handle_pod_delete_event untracked tracked
untracked-handle_pod_delete_event k pod s = untracked-stop_timer k (key_of pod) s

no_pods-untracked : (k : String) → untracked k no_pods ≤ 0
unfolding untracked tracked others
no_pods-untracked k = ground arith

module _ (k : String) (config : Config) (jitters : can_draw config.finalize_jitter ≡ true) where
  step-GoesWell :
      (e : PodEvent) (s : Finalizer)
      → GoesWell k (one_if (starts k e s) (untracked k s)) (step config e s)
  unfolding step starts handle_pod_delete_event
  step-GoesWell (is_added pod) s = handle_pod_add_event-GoesWell k config jitters pod s
  step-GoesWell (is_updated pod) s = handle_pod_update_event-GoesWell k config jitters pod s
  step-GoesWell (is_deleted pod) s =
      (handle_pod_delete_event pod s, refl, untracked-handle_pod_delete_event k pod s)
  step-GoesWell (records name namespace attach found) s =
      mark_pod_recording-GoesWell k config jitters name namespace attach found s
  step-GoesWell (stops_recording name namespace) s = (
    mark_pod_not_recording name namespace s,
    refl,
    untracked-mark_pod_not_recording k name namespace s,
  )
  step-GoesWell (fires id) s = (fire id s, refl, untracked-fire k id s)

  run-GoesWell : (h : List PodEvent) → GoesWell k (untracked_starts k config h) (run config h)
  unfolding run untracked_starts
  run-GoesWell [] = (no_pods, refl, no_pods-untracked k)
  run-GoesWell (e ∷ h) =
      let (s, ran, within) = run-GoesWell h in
      let (s', stepped, next) = step-GoesWell e s in
      (s', rw (ran, stepped, run) refl, rw (ran, untracked_starts) (ground (arith, within, next)))

-- When the jitter is not 0 and below 2^63, every history of pod events, recordings and timers goes well; and if
-- a pod is deleted then, no more timers run for its key than were started for it without being
-- stored in the table: by the notification of a ready pod that the table already has, or by
-- attaching to a ready pod.
pub run-handle_pod_delete_event :
    (config : Config) (pod : Pod) (h : List PodEvent)
    → can_draw config.finalize_jitter ≡ true
    → (s : Finalizer) × (run config h ≡ some s)
      × (others (key_of pod) none (handle_pod_delete_event pod s).timers
          ≤ untracked_starts (key_of pod) config h)
unfolding handle_pod_delete_event
run-handle_pod_delete_event config pod h jitters =
    let (s, ran, within) = run-GoesWell (key_of pod) config jitters h in
    (s, ran, ground (arith, within, others-stop_timer (key_of pod) s))
