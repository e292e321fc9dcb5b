-- ===== src/Manager/Running.antt =====
-- Which containers are collected again, and what is left of a container that has stopped.
use kapprofiler.Base.{
  sym, ◌∙◌, ◌≡◌, refl, Bool, true, false, ◌&&◌, Option, none, List, [], String, lookup,
  lookup-delete_self, arith, ◌==◌, any, Option-cases, Bool-cases, inl, inr, string_comparable,
  ==_refl,
}
use kapprofiler.Bpf.Filter.{is_some}
use kapprofiler.Collector.Calls.{OpenConfig, ContainerProfile}
use kapprofiler.Collector.Build.{TotalEvents, should_process_events}
use kapprofiler.Manager.Defs.{
  ContainerId, ContainerState, CollectorManager, ManagerConfig, Effect, container_id_comparable,
  starts_timer, starts_trace, stops_trace, collects, marks_recording, marks_not_recording,
  creates_profile, updates_profile, marks_failed, container_stopped, forget,
}
use kapprofiler.Manager.Collect.{
  is_over_limit, ApplicationProfile, collect_container_events, collect_running, add_to_profile,
  give_up, has_label,
}

-- Whether an effect is the timer of a container.
unfoldable pub is_timer_of : ContainerId → Effect → Bool
is_timer_of id (starts_timer i) = i == id
is_timer_of id (starts_trace mntns pid) = false
is_timer_of id (stops_trace mntns pid) = false
is_timer_of id (collects i) = false
is_timer_of id (marks_recording name namespace attach) = false
is_timer_of id (marks_not_recording name namespace) = false
is_timer_of id (creates_profile labels containers) = false
is_timer_of id (updates_profile labels containers) = false
is_timer_of id marks_failed = false

unfoldable pub is_recorded : ContainerId → CollectorManager → Bool
unfolding lookup
is_recorded id cm = is_some (lookup id cm.containers)

lookup-container_stopped :
    (id : ContainerId) (cm : CollectorManager)
    → lookup id ((container_stopped id cm).0).containers ≡ none
unfolding container_stopped forget
lookup-container_stopped id cm = elim (Option-cases (lookup id cm.containers)) [
  | inl e ↦ rw (e, container_stopped) e
  | inr (c, e) ↦ rw (e, container_stopped) (lookup-delete_self id cm.containers)
]

-- Once a container has stopped, collecting its events does nothing, whatever they are.
pub collect_container_events-container_stopped :
    (config : ManagerConfig) (open_config : OpenConfig) (id : ContainerId) (totals : TotalEvents)
    (found : Option ApplicationProfile) (updates : Bool) (cm : CollectorManager)
    → collect_container_events config open_config id totals found updates
        ((container_stopped id cm).0)
      ≡ ((container_stopped id cm).0, [])
unfolding collect_container_events
collect_container_events-container_stopped config open_config id totals found updates cm =
    rw (lookup-container_stopped id cm, collect_container_events) refl

is_recorded-give_up :
    (id : ContainerId) (cm : CollectorManager) → is_recorded id (give_up id cm) ≡ false
unfolding is_recorded give_up
is_recorded-give_up id cm = rw (lookup-delete_self id cm.containers)

add_to_profile-timer :
    (open_config : OpenConfig) (id : ContainerId) (state : ContainerState) (mounts : List String)
    (profile : ContainerProfile) (existing : ApplicationProfile) (updates : Bool)
    (cm : CollectorManager)
    → is_recorded id cm ≡ true
    → any
        (is_timer_of id)
        ((add_to_profile open_config id state mounts profile existing updates cm).1)
      ≡ is_recorded id ((add_to_profile open_config id state mounts profile existing updates cm).0)
unfolding add_to_profile any is_timer_of
add_to_profile-timer open_config id state mounts profile existing updates cm h =
    elim (Bool-cases (has_label "kapprofiler.kubescape.io/final" "true" existing.labels)) [
      | inl final ↦ rw (final, add_to_profile) (sym (is_recorded-give_up id cm))
      | inr open_ended ↦ elim (Bool-cases updates) [
        | inl taken ↦ elim (Bool-cases (is_over_limit profile)) [
          | inl over ↦ rw (open_ended, taken, over, add_to_profile) (ground (arith, ==_refl id, h))
          | inr under ↦
              rw (open_ended, taken, under, add_to_profile) (ground (arith, ==_refl id, h))
        ]
        | inr refused ↦ elim (Bool-cases (is_over_limit profile)) [
          | inl over ↦
              rw (open_ended, refused, over, add_to_profile) (sym (is_recorded-give_up id cm))
          | inr under ↦
              rw (open_ended, refused, under, add_to_profile) (sym (is_recorded-give_up id cm))
        ]
      ]
    ]

collect_running-timer :
    (config : ManagerConfig) (open_config : OpenConfig) (id : ContainerId) (state : ContainerState)
    (totals : TotalEvents) (found : Option ApplicationProfile) (updates : Bool)
    (cm : CollectorManager)
    → is_recorded id cm ≡ true
    → any (is_timer_of id) ((collect_running config open_config id state totals found updates cm).1)
      ≡ (is_recorded id ((collect_running config open_config id state totals found updates cm).0)
          && should_process_events totals)
unfolding collect_running any is_timer_of
collect_running-timer config open_config id state totals found updates cm h =
    elim (Bool-cases (should_process_events totals)) [
      | inr idle ↦ rw (idle, collect_running) (ground arith)
      | inl busy ↦ elim (Option-cases found) [
        | inl new ↦ rw (busy, new, collect_running) (ground (arith, ==_refl id, h))
        | inr (existing, e) ↦
            rw (busy, e, collect_running)
              (add_to_profile-timer open_config id state _ _ existing updates cm h ∙ ground arith)
      ]
    ]

-- After the events of a container are collected, its timer runs again if and only if it is still
-- recorded and there were events.
pub collect_container_events-timer :
    (config : ManagerConfig) (open_config : OpenConfig) (id : ContainerId) (totals : TotalEvents)
    (found : Option ApplicationProfile) (updates : Bool) (cm : CollectorManager)
    → any
        (is_timer_of id)
        ((collect_container_events config open_config id totals found updates cm).1)
      ≡ (is_recorded id ((collect_container_events config open_config id totals found updates cm).0)
          && should_process_events totals)
unfolding collect_container_events any is_recorded
collect_container_events-timer config open_config id totals found updates cm =
    elim (Option-cases (lookup id cm.containers)) [
      | inl e ↦ rw (e, collect_container_events) (ground (arith, e))
      | inr (state, e) ↦
          rw (e, collect_container_events)
            (collect_running-timer config open_config id state totals found updates cm
              (ground (arith, e)))
    ]
