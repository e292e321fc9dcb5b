-- ===== src/Tracing/Leaks.antt =====
-- Histories of `Start` and `Stop` of pkg/tracing/tracing.go, and the tracers that are left over.
use kapprofiler.Base.{
  every, if_true, if_false, ℕ, ◌+◌, ◌≡◌, Bool, true, false, not, List, [], ◌∷◌, if◌then◌else◌, ◌&&◌,
  ◌||◌, arith, ap, ◌∙◌, one_if,
}
use kapprofiler.Tracing.Events.{
  EventType, event_type_comparable, same_type, execve_event_type, syscall_event_type,
  open_event_type, capabilities_event_type, dns_event_type, network_event_type, random_x_event_type,
}
use kapprofiler.Tracing.Kinds.{mem}
use kapprofiler.Tracing.Defs.{no_tracing}
use kapprofiler.Tracing.Gadgets.{
  Outcomes, Machine, start, stop, started, and_then, start_app_behavior_tracing,
  setup_container_collection, stop_container_collection,
}
use kapprofiler.Tracing.Starts.{
  kinds_of, opens, held, start_app_behavior_tracing-kinds, start_kinds,
}
use kapprofiler.Tracing.Loop.{occurs, made}

pub data Action : Type 0 where
  starts : Outcomes → Action
  stops : Action

abbrev pub idle : Machine
idle = record {
  tracer = record { running = false; tracing_state = λ k. no_tracing };
  c_collection = false;
  collections = 0;
  alive = λ k. 0;
}

-- The machine after some calls of `Start` and `Stop`, the newest first.
unfoldable pub machine_after : Bool → List Action → Machine
unfolding start stop
machine_after amd64 [] = idle
machine_after amd64 (starts o ∷ h) = (start amd64 o (machine_after amd64 h)).0
machine_after amd64 (stops ∷ h) = stop (machine_after amd64 h)

-- Whether all that a start asks for goes well.
unfoldable pub goes_well : Bool → Outcomes → Bool
unfolding every
goes_well amd64 o = o.collection && every (opens o) (kinds_of amd64)

-- Whether the newest call that changes it was a start that went well.
unfoldable pub is_running : Bool → List Action → Bool
unfolding goes_well
is_running amd64 [] = false
is_running amd64 (starts o ∷ h) = is_running amd64 h || goes_well amd64 o
is_running amd64 (stops ∷ h) = false

abbrev pub made_if : Bool → ℕ → ℕ
made_if b n = if b then n else 0

-- How many tracers of a kind were made by starts that then failed.
unfoldable pub left_over : Bool → EventType → List Action → ℕ
unfolding goes_well is_running made
left_over amd64 k [] = 0
left_over amd64 k (stops ∷ h) = left_over amd64 k h
left_over amd64 k (starts o ∷ h) =
    made_if (not (is_running amd64 (starts o ∷ h)) && o.collection) (made o k (kinds_of amd64))
    + left_over amd64 k h

abbrev pub all_kinds : List EventType
all_kinds =
    execve_event_type ∷ syscall_event_type ∷ open_event_type ∷ capabilities_event_type
    ∷ dns_event_type ∷ network_event_type ∷ random_x_event_type ∷ []

pub kinds_of-occurs :
    (amd64 : Bool) (k : EventType) → occurs k (kinds_of amd64) ≡ one_if (mem k (kinds_of amd64)) 0
unfolding occurs mem same_type
kinds_of-occurs true k = ground arith
kinds_of-occurs false k = ground arith

pub all_kinds-occurs :
    (amd64 : Bool) (k : EventType) → mem k (kinds_of amd64) ≡ true → occurs k all_kinds ≡ 1
unfolding occurs mem same_type
all_kinds-occurs true k h = ground arith
all_kinds-occurs false k h = ground arith

pub stop_container_collection-alive :
    (m : Machine) (k : EventType)
    → ((stop_container_collection m).alive k ≡ m.alive k)
      × (held k (stop_container_collection m) ≡ held k m)
unfolding stop_container_collection
stop_container_collection-alive m k = (ground arith, ground arith)

-- What holds after a history that left a number of tracers over.
pub record Holds (amd64 running : Bool) (left : EventType → ℕ) (m : Machine) : Type 0 where
  pub runs : m.tracer.running ≡ running
  pub alive : (k : EventType) → m.alive k ≡ left k + one_if (running && mem k (kinds_of amd64)) 0
  pub only : (k : EventType) → held k m ≡ true → mem k (kinds_of amd64) ≡ true
  pub all : (k : EventType) → running ≡ true → mem k (kinds_of amd64) ≡ true → held k m ≡ true
  pub open_one : m.collections ≡ one_if running 0
  pub collection : running ≡ true → m.c_collection ≡ true

abbrev pub with_collection : Machine → Machine
with_collection m = record m { c_collection = true; collections = m.collections + 1 }

abbrev starting : Bool → Outcomes → Machine × Bool → Machine × Bool
starting amd64 o = and_then (λ s. started (start_app_behavior_tracing amd64 o s))

pub start-running :
    (amd64 : Bool) (o : Outcomes) (m : Machine)
    → m.tracer.running ≡ true
    → start amd64 o m ≡ (m, true)
unfolding start
start-running amd64 o m h =
    if_true m.tracer.running (m, true) (starting amd64 o (setup_container_collection o m)) h

pub start-alone :
    (amd64 : Bool) (o : Outcomes) (m : Machine)
    → m.tracer.running ≡ false
    → o.collection ≡ false
    → start amd64 o m ≡ (m, false)
unfolding start setup_container_collection
start-alone amd64 o m h k =
    if_false m.tracer.running (m, true) (starting amd64 o (setup_container_collection o m)) h
    ∙ ap (starting amd64 o) (if_false o.collection (with_collection m, true) (m, false) k)

pub start-collected :
    (amd64 : Bool) (o : Outcomes) (m : Machine)
    → m.tracer.running ≡ false
    → o.collection ≡ true
    → start amd64 o m ≡ started (start_kinds o (kinds_of amd64) (with_collection m))
unfolding start setup_container_collection
start-collected amd64 o m h k =
    if_false m.tracer.running (m, true) (starting amd64 o (setup_container_collection o m)) h
    ∙ ap (starting amd64 o) (if_true o.collection (with_collection m, true) (m, false) k)
    ∙ ap started (start_app_behavior_tracing-kinds amd64 o (with_collection m))
