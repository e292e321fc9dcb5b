-- ===== src/Finalizer/Defs.antt =====
-- The handlers of pkg/collector/pod_finalizer.go. Each is one function, though it takes the mutex
-- more than once. What a `time.Timer` will do is a list of the timers that run.
use kapprofiler.Base.{
  ℕ, ◌+◌, Bool, true, false, not, ◌&&◌, String, Option, none, some, List, [], ◌∷◌, ◌++◌, lookup,
  insert, string_comparable, ◌==◌, eqb, any, ltb, ◌%◌, ◌^◌, if◌then◌else◌,
}
use Prim.Native.String.{◌++◌ as joined}

-- The part of a pod that the handlers read; a condition is its type and its status.
pub record Pod : Type 0 where
  pub name : String
  pub namespace : String
  pub conditions : List (String × String)

unfoldable pub pod_ready : Pod → Bool
unfolding any
pod_ready pod = any (λ c. c.0 == "Ready" && c.1 == "True") pod.conditions

pub record PodProfileFinalizerState : Type 0 where
  pub pod_name : String
  pub namespace : String
  pub finalization_timer : Option ℕ
  pub recording : Bool

-- A running timer, with the pod whose profile it finalizes. `seconds` is a uint64; its product with
-- `time.Second` is an int64 and may wrap around again.
pub record Timer : Type 0 where
  pub id : ℕ
  pub pod : Pod
  pub seconds : ℕ

-- `draw` is `rand.Intn`.
pub record Config : Type 0 where
  pub finalize_time : ℕ
  pub finalize_jitter : ℕ
  pub draw : ℕ → ℕ

-- The table, the timers that run, the next timer's number, and the pods whose profiles were
-- finalized and deleted.
pub record Finalizer : Type 0 where
  pub pod_finalizer_state : List (String × PodProfileFinalizerState)
  pub timers : List Timer
  pub next_timer : ℕ
  pub finalized : List Pod
  pub deleted : List Pod

unfoldable pub table_key : String → String → String
table_key name namespace = joined name (joined "-" namespace)

abbrev pub key_of : Pod → String
key_of pod = table_key pod.name pod.namespace

-- `rand.Intn(int(jitter))` of a uint64 panics at 0 and where the int64 is negative.
abbrev pub can_draw : ℕ → Bool
can_draw jitter = not (eqb jitter 0) && ltb jitter (2 ^ 63)

-- The number of the new timer; `none` is the panic of `rand.Intn`.
unfoldable pub start_finalization_timer : Config → Pod → Finalizer → Option (ℕ × Finalizer)
start_finalization_timer config pod s =
    if not (can_draw config.finalize_jitter)
    then none
    else some (
      s.next_timer,
      record s {
        timers =
            record {
              id = s.next_timer;
              pod = pod;
              seconds = (config.finalize_time + config.draw config.finalize_jitter) % 2 ^ 64;
            }
            ∷ s.timers;
        next_timer = s.next_timer + 1;
      },
    )

abbrev pub set_pod : String → PodProfileFinalizerState → Finalizer → Finalizer
set_pod key p s = record s { pod_finalizer_state = insert key p s.pod_finalizer_state }

abbrev pub forget_timer : Option (ℕ × Finalizer) → Option Finalizer
forget_timer none = none
forget_timer (some (id, s)) = some s

abbrev pub store_timer :
    String → PodProfileFinalizerState → Option (ℕ × Finalizer) → Option Finalizer
store_timer key p none = none
store_timer key p (some (id, s)) = some (set_pod key (record p { finalization_timer = some id }) s)

unfoldable pub handle_pod_add_event : Config → Pod → Finalizer → Option Finalizer
unfolding pod_ready start_finalization_timer lookup
handle_pod_add_event config pod s = elim (lookup (key_of pod) s.pod_finalizer_state) [
  | none ↦ some (
      set_pod (key_of pod)
        (record {
          pod_name = pod.name;
          namespace = pod.namespace;
          finalization_timer = none;
          recording = false;
        })
        s)
  | some p ↦ if pod_ready pod then forget_timer (start_finalization_timer config pod s) else some s
]

-- The timers without those of a number.
unfoldable pub without : ℕ → List Timer → List Timer
without id [] = []
without id (t ∷ ts) = let rest = without id ts in if eqb t.id id then rest else t ∷ rest

unfoldable pub stop_timer : String → Finalizer → Finalizer
unfolding lookup without
stop_timer key s = elim (lookup key s.pod_finalizer_state) [
  | none ↦ s
  | some p ↦ elim p.finalization_timer [
    | none ↦ s
    | some id ↦ record (set_pod key (record p { finalization_timer = none }) s) {
      timers = without id s.timers;
    }
  ]
]

unfoldable pub handle_pod_update_event : Config → Pod → Finalizer → Option Finalizer
unfolding pod_ready start_finalization_timer stop_timer lookup
handle_pod_update_event config pod s = elim (lookup (key_of pod) s.pod_finalizer_state) [
  | none ↦ some s
  | some p ↦
      if not p.recording
      then some s
      else if pod_ready pod
      then elim p.finalization_timer [
        | some id ↦ some s
        | none ↦ store_timer (key_of pod) p (start_finalization_timer config pod s)
      ]
      else some (stop_timer (key_of pod) s)
]

unfoldable pub handle_pod_delete_event : Pod → Finalizer → Finalizer
unfolding stop_timer
handle_pod_delete_event pod s =
    let stopped = stop_timer (key_of pod) s in record stopped { deleted = pod ∷ stopped.deleted }

unfoldable pub set_recording : String → String → Finalizer → Finalizer
unfolding lookup
set_recording name namespace s = elim (lookup (table_key name namespace) s.pod_finalizer_state) [
  | none ↦
      set_pod (table_key name namespace)
        (record {
          pod_name = name;
          namespace = namespace;
          finalization_timer = none;
          recording = true;
        })
        s
  | some p ↦ set_pod (table_key name namespace) (record p { recording = true }) s
]

abbrev pub then_recording : String → String → Option Finalizer → Option Finalizer
then_recording name namespace none = none
then_recording name namespace (some s) = some (set_recording name namespace s)

-- With `attach`, the pod is what the API server returns for the name; `none` is its error.
unfoldable pub mark_pod_recording :
    Config → String → String → Bool → Option Pod → Finalizer → Option Finalizer
unfolding pod_ready start_finalization_timer set_recording
mark_pod_recording config name namespace attach found s =
    if attach
    then elim found [
      | none ↦ some s
      | some pod ↦
          then_recording name namespace
            (if pod_ready pod then forget_timer (start_finalization_timer config pod s) else some s)
    ]
    else some (set_recording name namespace s)

unfoldable pub mark_pod_not_recording : String → String → Finalizer → Finalizer
unfolding lookup
mark_pod_not_recording name namespace s =
    elim (lookup (table_key name namespace) s.pod_finalizer_state) [
      | none ↦ s
      | some p ↦ set_pod (table_key name namespace) (record p { recording = false }) s
    ]

-- The pods of the timers of a number.
unfoldable pub pods_of : ℕ → List Timer → List Pod
pods_of id [] = []
pods_of id (t ∷ ts) = let rest = pods_of id ts in if eqb t.id id then t.pod ∷ rest else rest

-- A timer fires, and the goroutine that waits for it finalizes the profile of its pod.
unfoldable pub fire : ℕ → Finalizer → Finalizer
unfolding without pods_of
fire id s = record s {
  timers = without id s.timers;
  finalized = pods_of id s.timers ++ s.finalized;
}
