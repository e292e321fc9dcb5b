-- ===== src/Tracing/Defs.antt =====
-- `TracingState` of pkg/tracing/types.go, and `StartTraceContainer` and `StopTraceContainer` of
-- pkg/tracing/tracing.go. `put` stands for `ebpf.Map.Put`, which the program ignores the error of.
use kapprofiler.Base.{
  ℕ, ◌+◌, ◌-◌, Bool, true, false, not, Option, none, some, List, [], ◌∷◌, ◌++◌, lookup, insert,
  nat_comparable, ◌==◌, eqb, if◌then◌else◌,
}
use kapprofiler.Tracing.Events.{
  EventType, execve_event_type, open_event_type, capabilities_event_type, dns_event_type,
  network_event_type, all_event_type, event_type_comparable,
}

-- A call of an `AtachableTracer`.
pub data AttachCall : Type 0 where
  attach : ℕ → AttachCall
  detach : ℕ → AttachCall

-- The state of one kind of events: whether there is a gadget, its filter map and the number of
-- users of each mount namespace; an attachable tracer, if there is one, with the calls to it; and
-- whether there is a tracer that can be peeked into.
pub record TracingState : Type 0 where
  pub usage_reference_count : List (ℕ × ℕ)
  pub ebpf_container_filter_map : List (ℕ × ℕ)
  pub gadget : Bool
  pub attachable : Option (List AttachCall)
  pub peekable : Bool

-- What Go returns for a kind of events that is not in the map.
abbrev pub no_tracing : TracingState
no_tracing = record {
  usage_reference_count = [];
  ebpf_container_filter_map = [];
  gadget = false;
  attachable = none;
  peekable = false;
}

-- A missing count reads as 0.
abbrev pub count_of : Option ℕ → ℕ
count_of none = 0
count_of (some n) = n

unfoldable pub usage : ℕ → TracingState → ℕ
unfolding lookup
usage mntns st = count_of (lookup mntns st.usage_reference_count)

abbrev pub EbpfPut : Type 0
EbpfPut = ℕ → ℕ → List (ℕ × ℕ) → List (ℕ × ℕ)

abbrev pub with_call : TracingState → AttachCall → List AttachCall → TracingState
with_call st call calls = record st { attachable = some (calls ++ call ∷ []) }

abbrev pub attach_or_fail :
    TracingState → AttachCall → Option (List AttachCall) → Option TracingState
attach_or_fail st call none = none
attach_or_fail st call (some calls) = some (with_call st call calls)

-- One round of the loop of `StartTraceContainer`; `none` is the error that the kind cannot be
-- traced.
unfoldable pub start_one : EbpfPut → ℕ → ℕ → TracingState → Option TracingState
start_one put mntns pid st =
    if st.gadget
    then some (record st {
      ebpf_container_filter_map = put mntns 1 st.ebpf_container_filter_map;
      usage_reference_count = insert mntns (usage mntns st + 1) st.usage_reference_count;
    })
    else attach_or_fail st (attach pid) st.attachable

abbrev pub released : EbpfPut → ℕ → ℕ → TracingState → TracingState
released put mntns n st = record st {
  usage_reference_count = insert mntns n st.usage_reference_count;
  ebpf_container_filter_map =
      if eqb n 0 then put mntns 0 st.ebpf_container_filter_map else st.ebpf_container_filter_map;
}

-- One round of the loop of `StopTraceContainer`.
unfoldable pub stop_one : EbpfPut → ℕ → ℕ → TracingState → Option TracingState
stop_one put mntns pid st =
    if st.gadget
    then (if eqb (usage mntns st) 0
        then some st
        else some (released put mntns (usage mntns st - 1) st))
    else attach_or_fail st (detach pid) st.attachable

-- The part of `Tracer` that these methods use.
pub record Tracer : Type 0 where
  pub running : Bool
  pub tracing_state : EventType → TracingState

unfoldable pub set_state : EventType → TracingState → Tracer → Tracer
set_state kind st t = record t { tracing_state = λ k. if kind == k then st else t.tracing_state k }

-- The kinds of events that an event type stands for.
unfoldable pub event_types : EventType → List EventType
event_types event_type =
    if event_type == all_event_type
    then network_event_type ∷ dns_event_type ∷ execve_event_type ∷ capabilities_event_type
      ∷ open_event_type ∷ []
    else event_type ∷ []

-- The loop over the kinds: it stops at the first error, and keeps what was done before.
unfoldable pub for_types :
    (TracingState → Option TracingState) → List EventType → Tracer → Tracer × Bool
unfolding set_state
for_types step [] t = (t, true)
for_types step (kind ∷ kinds) t = elim (step (t.tracing_state kind)) [
  | none ↦ (t, false)
  | some st ↦ for_types step kinds (set_state kind st t)
]

-- The new state, and whether the method returns without an error.
unfoldable pub start_trace_container : EbpfPut → ℕ → ℕ → EventType → Tracer → Tracer × Bool
unfolding start_one for_types event_types
start_trace_container put mntns pid event_type t =
    if not t.running
    then (t, false)
    else for_types (start_one put mntns pid) (event_types event_type) t

unfoldable pub stop_trace_container : EbpfPut → ℕ → ℕ → EventType → Tracer → Tracer × Bool
unfolding stop_one for_types event_types
stop_trace_container put mntns pid event_type t =
    if not t.running
    then (t, false)
    else for_types (stop_one put mntns pid) (event_types event_type) t
