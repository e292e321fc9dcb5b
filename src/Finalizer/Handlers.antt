-- ===== src/Finalizer/Handlers.antt =====
-- How many timers each handler starts that the table does not know of.
use kapprofiler.Base.{
  ◌⊎◌, ◌∙◌, ap, ℕ, ◌≡◌, ◌≤◌, refl, Bool, true, false, ◌&&◌, String, Option, none, some, lookup,
  string_comparable, ◌==◌, one_if, arith, Option-cases, Bool-cases, inl, inr, ◌∙◌,
}
use kapprofiler.Bpf.Filter.{is_some}
use kapprofiler.Finalizer.Defs.{
  store_timer, start_finalization_timer, Pod, Config, Finalizer, PodProfileFinalizerState,
  table_key, key_of, pod_ready, start_finalization_timer, set_pod, handle_pod_add_event,
  handle_pod_update_event, stop_timer, set_recording, mark_pod_recording, mark_pod_not_recording,
  fire, can_draw,
}
use kapprofiler.Finalizer.Timers.{
  timer_of, tracked, untracked, untracked-set_pod, started, start_finalization_timer-started,
  untracked-started, untracked-stored, untracked-stop_timer, others-without,
}

-- A step that goes well and leaves at most some number of untracked timers of a key.
abbrev pub GoesWell : String → ℕ → Option Finalizer → Type 0
GoesWell k n r = (s : Finalizer) × (r ≡ some s) × (untracked k s ≤ n)

-- Whether `handle_pod_add_event` starts a timer for a key.
unfoldable pub adds_timer : String → Pod → Finalizer → Bool
unfolding lookup pod_ready
adds_timer k pod s =
    key_of pod == k && (pod_ready pod && is_some (lookup (key_of pod) s.pod_finalizer_state))

-- Whether `mark_pod_recording` starts a timer for a key.
unfoldable pub attaches_timer : String → Bool → Option Pod → Bool
unfolding pod_ready
attaches_timer k attach none = false
attaches_timer k attach (some pod) = attach && (key_of pod == k && pod_ready pod)

-- An unchanged number is within the bound.
within : (b : Bool) (m n : ℕ) → m ≡ n → m ≤ one_if b n
within b m n h = ground arith

tracked-lookup :
    (key : String) (s : Finalizer) (o : Option PodProfileFinalizerState)
    → lookup key s.pod_finalizer_state ≡ o
    → tracked key s ≡ timer_of o
unfolding tracked
tracked-lookup key s o h = ap timer_of h

pub untracked-set_recording :
    (k name namespace : String) (s : Finalizer)
    → untracked k (set_recording name namespace s) ≤ untracked k s
unfolding set_recording
untracked-set_recording k name namespace s =
    let key = table_key name namespace in
    elim (Option-cases (lookup key s.pod_finalizer_state)) [
      | inl e ↦
          rw (e, set_recording)
            (within false _ _ (untracked-set_pod k key _ s (tracked-lookup key s none e)))
      | inr (p, e) ↦
          rw (e, set_recording)
            (ground (
              arith,
              untracked-set_pod k key (record p { recording = true }) s
                  (tracked-lookup key s (some p) e),
            ))
    ]

pub untracked-mark_pod_not_recording :
    (k name namespace : String) (s : Finalizer)
    → untracked k (mark_pod_not_recording name namespace s) ≤ untracked k s
unfolding mark_pod_not_recording
untracked-mark_pod_not_recording k name namespace s =
    let key = table_key name namespace in
    elim (Option-cases (lookup key s.pod_finalizer_state)) [
      | inl e ↦ rw (e, mark_pod_not_recording) (ground arith)
      | inr (p, e) ↦
          rw (e, mark_pod_not_recording)
            (ground (
              arith,
              untracked-set_pod k key (record p { recording = false }) s
                  (tracked-lookup key s (some p) e),
            ))
    ]

pub untracked-fire : (k : String) (id : ℕ) (s : Finalizer) → untracked k (fire id s) ≤ untracked k s
unfolding fire untracked tracked
untracked-fire k id s = others-without k (tracked k s) id s.timers

-- The entry that `handle_pod_add_event` makes.
abbrev new_pod : Pod → PodProfileFinalizerState
new_pod pod = record {
  pod_name = pod.name;
  namespace = pod.namespace;
  finalization_timer = none;
  recording = false;
}

module _ (k : String) (config : Config) (jitters : can_draw config.finalize_jitter ≡ true) where
  pub handle_pod_add_event-GoesWell :
      (pod : Pod) (s : Finalizer)
      → GoesWell k (one_if (adds_timer k pod s) (untracked k s)) (handle_pod_add_event config pod s)
  unfolding adds_timer handle_pod_add_event
  handle_pod_add_event-GoesWell pod s =
      elim (Option-cases (lookup (key_of pod) s.pod_finalizer_state)) [
        | inl e ↦ (
          set_pod (key_of pod) (new_pod pod) s,
          rw (e, handle_pod_add_event) refl,
          ground (
            arith,
            untracked-set_pod k (key_of pod) (new_pod pod) s (tracked-lookup (key_of pod) s none e),
          ),
        )
        | inr (p, e) ↦ elim (Bool-cases (pod_ready pod)) [
          | inl ready ↦ (
            started config pod s,
            rw
                (
                  e,
                  ready,
                  start_finalization_timer-started config pod s jitters,
                  handle_pod_add_event,
                )
                refl,
            ground (arith, e, ready, untracked-started k config pod s),
          )
          | inr unready ↦ (s, rw (e, unready, handle_pod_add_event) refl, ground arith)
        ]
      ]

  update-store_timer :
      (pod : Pod) (p : PodProfileFinalizerState) (s : Finalizer)
      → lookup (key_of pod) s.pod_finalizer_state ≡ some p
      → p.recording ≡ true
      → pod_ready pod ≡ true
      → p.finalization_timer ≡ none
      → handle_pod_update_event config pod s
        ≡ store_timer (key_of pod) p (start_finalization_timer config pod s)
  unfolding handle_pod_update_event
  update-store_timer pod p s e records ready none_runs =
      ground (arith, e, records, ready, none_runs)

  recorded_update :
      (pod : Pod) (p : PodProfileFinalizerState) (s : Finalizer)
      → lookup (key_of pod) s.pod_finalizer_state ≡ some p
      → (p.recording ≡ true) ⊎ (p.recording ≡ false)
      → (pod_ready pod ≡ true) ⊎ (pod_ready pod ≡ false)
      → (p.finalization_timer ≡ none) ⊎ ((id : ℕ) × (p.finalization_timer ≡ some id))
      → GoesWell k (untracked k s) (handle_pod_update_event config pod s)
  unfolding handle_pod_update_event
  recorded_update pod p s e (inr idle) ready timer =
      (s, rw (e, idle, handle_pod_update_event) refl, ground arith)
  recorded_update pod p s e (inl records) (inr unready) timer = (
    stop_timer (key_of pod) s,
    rw (e, records, unready, handle_pod_update_event) refl,
    untracked-stop_timer k (key_of pod) s,
  )
  recorded_update pod p s e (inl records) (inl ready) (inr (id, runs)) =
      (s, rw (e, records, ready, runs, handle_pod_update_event) refl, ground arith)
  recorded_update pod p s e (inl records) (inl ready) (inl none_runs) = (
    set_pod (key_of pod) (record p { finalization_timer = some s.next_timer })
        (started config pod s),
    update-store_timer pod p s e records ready none_runs
        ∙ ap (store_timer (key_of pod) p) (start_finalization_timer-started config pod s jitters),
    untracked-stored k config pod p s (tracked-lookup (key_of pod) s (some p) e ∙ none_runs),
  )

  pub handle_pod_update_event-GoesWell :
      (pod : Pod) (s : Finalizer)
      → GoesWell k (untracked k s) (handle_pod_update_event config pod s)
  unfolding handle_pod_update_event
  handle_pod_update_event-GoesWell pod s =
      elim (Option-cases (lookup (key_of pod) s.pod_finalizer_state)) [
        | inl e ↦ (s, rw (e, handle_pod_update_event) refl, ground arith)
        | inr (p, e) ↦
            recorded_update pod p s e (Bool-cases p.recording) (Bool-cases (pod_ready pod))
              (Option-cases p.finalization_timer)
      ]

  pub mark_pod_recording-GoesWell :
      (name namespace : String) (attach : Bool) (found : Option Pod) (s : Finalizer)
      → GoesWell k
          (one_if (attaches_timer k attach found) (untracked k s))
          (mark_pod_recording config name namespace attach found s)
  unfolding mark_pod_recording attaches_timer
  mark_pod_recording-GoesWell name namespace false found s = (
    set_recording name namespace s,
    refl,
    ground (arith, untracked-set_recording k name namespace s),
  )
  mark_pod_recording-GoesWell name namespace true none s = (s, refl, ground arith)
  mark_pod_recording-GoesWell name namespace true (some pod) s = elim (Bool-cases (pod_ready pod)) [
    | inl ready ↦ (
      set_recording name namespace (started config pod s),
      rw (ready, start_finalization_timer-started config pod s jitters) refl,
      ground (
        arith,
        ready,
        untracked-started k config pod s,
        untracked-set_recording k name namespace (started config pod s),
      ),
    )
    | inr unready ↦ (
      set_recording name namespace s,
      rw unready refl,
      ground (arith, unready, untracked-set_recording k name namespace s),
    )
  ]
