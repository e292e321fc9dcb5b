-- ===== src/Tracing/Gadgets.antt =====
-- Starting and stopping the gadgets: pkg/tracing/ig.go, and `Start` and `Stop` of
-- pkg/tracing/tracing.go. What the libraries' constructors answer is an argument.
use kapprofiler.Base.{ℕ, ◌+◌, ◌-◌, Bool, true, false, some, List, [], ◌∷◌, ◌==◌, if◌then◌else◌}
use kapprofiler.Bpf.Filter.{is_some}
use kapprofiler.Tracing.Events.{
  execve_event_type, open_event_type, capabilities_event_type, dns_event_type, network_event_type,
  syscall_event_type, random_x_event_type, EventType, event_type_comparable,
}
use kapprofiler.Tracing.Defs.{TracingState, Tracer, set_state, no_tracing}

-- Whether the calls of a start succeed: setting up the container collection, making the filter map
-- and the tracer of each kind, and `RunWorkaround` of the network tracer.
pub record Outcomes : Type 0 where
  pub collection : Bool
  pub makes_map : EventType → Bool
  pub makes_tracer : EventType → Bool
  pub runs_workaround : Bool

-- The tracer, with the number of container collections that are open and of the tracers of each
-- kind that run.
pub record Machine : Type 0 where
  pub tracer : Tracer
  pub c_collection : Bool
  pub collections : ℕ
  pub alive : EventType → ℕ

-- A step that may return an error. What it did before the error stays.
abbrev pub Step : Type 0
Step = Machine → Machine × Bool

abbrev pub and_then : Step → Machine × Bool → Machine × Bool
and_then next (m, true) = next m
and_then next (m, false) = (m, false)

infixl 5 ◌>>◌
abbrev pub ◌>>◌ : Step → Step → Step
(first >> next) m = and_then next (first m)

abbrev pub check : Bool → Step
check b m = (m, b)

abbrev pub count_alive : EventType → ℕ → Machine → Machine
count_alive kind n m = record m { alive = λ k. if kind == k then n else m.alive k }

-- `NewTracer` of a kind.
unfoldable pub new_tracer : Outcomes → EventType → Step
new_tracer o kind m =
    if o.makes_tracer kind then (count_alive kind (m.alive kind + 1) m, true) else (m, false)

unfoldable pub install : EventType → TracingState → Step
unfolding set_state
install kind st m = (record m { tracer = set_state kind st m.tracer }, true)

abbrev pub with_gadget : TracingState
with_gadget = record no_tracing { gadget = true }

abbrev pub with_attachable : TracingState
with_attachable = record no_tracing { attachable = some [] }

abbrev pub with_peekable : TracingState
with_peekable = record no_tracing { peekable = true }

-- The four functions that make a filter map first differ in the kind only.
unfoldable pub start_gadget : EventType → Outcomes → Step
unfolding new_tracer install
start_gadget kind o = do check (o.makes_map kind); new_tracer o kind; install kind with_gadget

unfoldable pub start_systemcall_tracing : Outcomes → Step
unfolding new_tracer install
start_systemcall_tracing o = do
  new_tracer o syscall_event_type
  install syscall_event_type with_peekable

unfoldable pub start_dns_tracing : Outcomes → Step
unfolding new_tracer install
start_dns_tracing o = do new_tracer o dns_event_type; install dns_event_type with_attachable

unfoldable pub start_network_tracing : Outcomes → Step
unfolding new_tracer install
start_network_tracing o = do
  new_tracer o network_event_type
  check o.runs_workaround
  install network_event_type with_attachable

-- `amd64` is the test of `runtime.GOARCH`.
unfoldable pub start_app_behavior_tracing : Bool → Outcomes → Step
unfolding start_gadget start_systemcall_tracing start_dns_tracing start_network_tracing
start_app_behavior_tracing amd64 o = do
  start_gadget execve_event_type o
  start_systemcall_tracing o
  start_gadget open_event_type o
  start_gadget capabilities_event_type o
  start_dns_tracing o
  start_network_tracing o
  if amd64 then start_gadget random_x_event_type o else check true

-- What the function that stops a kind looks for.
abbrev pub has_tracer : EventType → TracingState → Bool
has_tracer dns_event_type st = is_some st.attachable
has_tracer network_event_type st = is_some st.attachable
has_tracer syscall_event_type st = st.peekable
has_tracer kind st = st.gadget

-- `stopExecTracing` and the six like it, which return no error.
unfoldable pub stop_tracing : EventType → Machine → Machine
stop_tracing kind m =
    if has_tracer kind (m.tracer.tracing_state kind)
    then count_alive kind (m.alive kind - 1) m
    else m

unfoldable pub stop_each : List EventType → Machine → Machine
unfolding stop_tracing
stop_each [] m = m
stop_each (kind ∷ kinds) m = stop_each kinds (stop_tracing kind m)

unfoldable pub stop_app_behavior_tracing : Machine → Machine
unfolding stop_each
stop_app_behavior_tracing = stop_each (
    execve_event_type ∷ syscall_event_type ∷ open_event_type ∷ capabilities_event_type
    ∷ dns_event_type ∷ network_event_type ∷ random_x_event_type ∷ [])

unfoldable pub setup_container_collection : Outcomes → Step
setup_container_collection o m =
    if o.collection
    then (record m { c_collection = true; collections = m.collections + 1 }, true)
    else (m, false)

unfoldable pub stop_container_collection : Machine → Machine
stop_container_collection m =
    if m.c_collection then record m { collections = m.collections - 1 } else m

abbrev pub set_running : Bool → Machine → Machine
set_running b m = record m { tracer = record m.tracer { running = b } }

abbrev pub started : Machine × Bool → Machine × Bool
started (m, true) = (set_running true m, true)
started (m, false) = (stop_container_collection m, false)

-- `Start`, up to the notifications of the containers that run already.
unfoldable pub start : Bool → Outcomes → Step
unfolding start_app_behavior_tracing setup_container_collection stop_container_collection
start amd64 o m =
    let with_collection = setup_container_collection o m in
    if m.tracer.running
    then (m, true)
    else and_then (λ s. started (start_app_behavior_tracing amd64 o s)) with_collection

unfoldable pub stop : Machine → Machine
unfolding stop_app_behavior_tracing stop_container_collection
stop m =
    if m.tracer.running
    then set_running false (stop_app_behavior_tracing (stop_container_collection m))
    else m
