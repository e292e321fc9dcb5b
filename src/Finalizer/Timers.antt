-- ===== src/Finalizer/Timers.antt =====
-- The timers that the table of the pods does not know of.
use kapprofiler.Base.{
  eqb_iff, ℕ, ◌+◌, ◌≡◌, ◌≤◌, refl, Bool, true, false, not, ◌&&◌, String, Option, none, some, List,
  [], ◌∷◌, lookup, lookup-insert, string_comparable, ◌==◌, eqb, one_if, if◌then◌else◌, arith,
  Option-cases, Bool-cases, inl, inr, ◌⊎◌, sym, ◌∙◌, ap, ==→≡, ◌%◌, ◌^◌,
}
use kapprofiler.Finalizer.Defs.{
  Pod, Timer, Config, Finalizer, PodProfileFinalizerState, key_of, start_finalization_timer,
  set_pod, stop_timer, without, can_draw,
}

abbrev pub timer_of : Option PodProfileFinalizerState → Option ℕ
timer_of none = none
timer_of (some p) = p.finalization_timer

-- The timer that the table has for a key.
unfoldable pub tracked : String → Finalizer → Option ℕ
unfolding lookup
tracked k s = timer_of (lookup k s.pod_finalizer_state)

abbrev pub has_id : Option ℕ → ℕ → Bool
has_id none id = false
has_id (some i) id = eqb i id

-- The number of running timers of pods with a key, but for those of a number.
unfoldable pub others : String → Option ℕ → List Timer → ℕ
others k o [] = 0
others k o (t ∷ ts) = one_if (key_of t.pod == k && not (has_id o t.id)) (others k o ts)

pub others-without :
    (k : String) (o : Option ℕ) (id : ℕ) (ts : List Timer)
    → others k o (without id ts) ≤ others k o ts
unfolding others without
others-without k o id [] = ground arith
others-without k o id (t ∷ ts) = ground (arith, others-without k o id ts)

others-stopped :
    (k : String) (id : ℕ) (ts : List Timer) → others k none (without id ts) ≤ others k (some id) ts
unfolding others without
others-stopped k id [] = ground arith
others-stopped k id (t ∷ ts) = ground (arith, others-stopped k id ts)

others-some : (k : String) (id : ℕ) (ts : List Timer) → others k (some id) ts ≤ others k none ts
unfolding others
others-some k id [] = ground arith
others-some k id (t ∷ ts) = ground (arith, others-some k id ts)

tracked-set_pod :
    (k key : String) (p : PodProfileFinalizerState) (s : Finalizer)
    → tracked k (set_pod key p s) ≡ (if key == k then p.finalization_timer else tracked k s)
unfolding tracked
tracked-set_pod k key p s = ground (arith, lookup-insert key k p s.pod_finalizer_state)

-- The running timers of a key that the table does not point to.
unfoldable pub untracked : String → Finalizer → ℕ
unfolding tracked others
untracked k s = others k (tracked k s) s.timers

pub untracked-set_pod :
    (k key : String) (p : PodProfileFinalizerState) (s : Finalizer)
    → tracked key s ≡ p.finalization_timer
    → untracked k (set_pod key p s) ≡ untracked k s
unfolding untracked
untracked-set_pod k key p s h =
    ap (λ o. others k o s.timers) (tracked-set_pod k key p s ∙ stays (Bool-cases (key == k)))
  where
    stays :
        ((key == k) ≡ true) ⊎ ((key == k) ≡ false)
        → (if key == k then p.finalization_timer else tracked k s) ≡ tracked k s
    stays (inl same) = rw same (sym h ∙ ap (λ x. tracked x s) (==→≡ key k same))
    stays (inr other) = rw other refl

abbrev pub started : Config → Pod → Finalizer → Finalizer
started config pod s = record s {
  timers =
      record {
        id = s.next_timer;
        pod = pod;
        seconds = (config.finalize_time + config.draw config.finalize_jitter) % 2 ^ 64;
      }
      ∷ s.timers;
  next_timer = s.next_timer + 1;
}

pub start_finalization_timer-started :
    (config : Config) (pod : Pod) (s : Finalizer)
    → can_draw config.finalize_jitter ≡ true
    → start_finalization_timer config pod s ≡ some (s.next_timer, started config pod s)
unfolding start_finalization_timer
start_finalization_timer-started config pod s h = rw h

pub tracked-started :
    (k : String) (config : Config) (pod : Pod) (s : Finalizer)
    → tracked k (started config pod s) ≡ tracked k s
unfolding tracked
tracked-started k config pod s = refl

pub untracked-started :
    (k : String) (config : Config) (pod : Pod) (s : Finalizer)
    → untracked k (started config pod s) ≤ one_if (key_of pod == k) (untracked k s)
unfolding untracked others tracked
untracked-started k config pod s = ground arith

untracked-of :
    (k : String) (s : Finalizer) (o : Option ℕ)
    → tracked k s ≡ o
    → untracked k s ≡ others k o s.timers
unfolding untracked
untracked-of k s o h = ap (λ x. others k x s.timers) h

others-untracked :
    (k : String) (id : ℕ) (s : Finalizer)
    → tracked k s ≡ none
    → others k (some id) s.timers ≤ untracked k s
unfolding untracked
others-untracked k id s h = rw h (others-some k id s.timers)

pub untracked-stored :
    (k : String) (config : Config) (pod : Pod) (p : PodProfileFinalizerState) (s : Finalizer)
    → tracked (key_of pod) s ≡ none
    → untracked k (
        set_pod
          (key_of pod)
          (record p { finalization_timer = some s.next_timer })
          (started config pod s))
      ≤ untracked k s
unfolding others
untracked-stored k config pod p s h =
    let next = record p { finalization_timer = some s.next_timer } in
    let new = tracked-set_pod k (key_of pod) next (started config pod s) in
    elim (Bool-cases (key_of pod == k)) [
      | inl same ↦ ground (
        arith,
        same,
        untracked-of k (set_pod (key_of pod) next (started config pod s)) (some s.next_timer)
            (new ∙ ground (arith, same)),
        eqb_iff s.next_timer s.next_timer,
        others-untracked k s.next_timer s
            (sym (ap (λ x. tracked x s) (==→≡ (key_of pod) k same)) ∙ h),
      )
      | inr other ↦ ground (
        arith,
        other,
        untracked-of k (set_pod (key_of pod) next (started config pod s)) (tracked k s)
            (new ∙ ground (arith, other, tracked-started k config pod s)),
        untracked-of k s (tracked k s) refl,
      )
    ]

-- The state after a timer of a pod of the table is stopped.
abbrev stopped : String → PodProfileFinalizerState → ℕ → Finalizer → Finalizer
stopped key p id s = record (set_pod key (record p { finalization_timer = none }) s) {
  timers = without id s.timers;
}

stop_timer-cases :
    (key : String) (s : Finalizer)
    → ((stop_timer key s ≡ s) × (tracked key s ≡ none))
      ⊎ ((p : PodProfileFinalizerState) × (id : ℕ) × (stop_timer key s ≡ stopped key p id s)
          × (tracked key s ≡ some id))
unfolding stop_timer tracked
stop_timer-cases key s = elim (Option-cases (lookup key s.pod_finalizer_state)) [
  | inl e ↦ inl (rw (e, stop_timer) refl, rw e)
  | inr (p, e) ↦ elim (Option-cases p.finalization_timer) [
    | inl f ↦ inl (rw (e, f, stop_timer) refl, rw (e, f))
    | inr (id, f) ↦ inr (p, id, rw (e, f, stop_timer) refl, rw (e, f))
  ]
]

untracked-stopped :
    (k key : String) (p : PodProfileFinalizerState) (id : ℕ) (s : Finalizer)
    → tracked key s ≡ some id
    → untracked k (stopped key p id s) ≤ untracked k s
unfolding tracked
untracked-stopped k key p id s h =
    let none_left = record p { finalization_timer = none } in
    let new = tracked-set_pod k key none_left s in
    elim (Bool-cases (key == k)) [
      | inl same ↦ ground (
        arith,
        untracked-of k (stopped key p id s) none (new ∙ ground (arith, same)),
        untracked-of k s (some id) (sym (ap (λ x. tracked x s) (==→≡ key k same)) ∙ h),
        others-stopped k id s.timers,
      )
      | inr other ↦ ground (
        arith,
        untracked-of k (stopped key p id s) (tracked k s) (new ∙ ground (arith, other)),
        untracked-of k s (tracked k s) refl,
        others-without k (tracked k s) id s.timers,
      )
    ]

pub untracked-stop_timer :
    (k key : String) (s : Finalizer) → untracked k (stop_timer key s) ≤ untracked k s
untracked-stop_timer k key s = elim (stop_timer-cases key s) [
  | inl (e, h) ↦ rw e (ground arith)
  | inr (p, id, e, h) ↦ rw e (untracked-stopped k key p id s h)
]

-- After a pod's timer is stopped, only timers that the table does not know of run for its key.
pub others-stop_timer :
    (k : String) (s : Finalizer) → others k none (stop_timer k s).timers ≤ untracked k s
others-stop_timer k s = elim (stop_timer-cases k s) [
  | inl (e, h) ↦ rw e (ground (arith, untracked-of k s none h))
  | inr (p, id, e, h) ↦
      rw e (ground (arith, untracked-of k s (some id) h, others-stopped k id s.timers))
]
