-- ===== src/Tracing/Silent.antt =====
-- The randomx gadget under the calls of the collector, which traces containers for
-- `AllEventType`: pkg/collector/collector.go, `StartTraceContainer` and the BPF program.
use kapprofiler.Base.{
  ℕ, ◌≡◌, refl, Bool, true, false, not, ◌==◌, Option, none, List, [], ◌∷◌, arith, ap, ◌∙◌,
  Option-cases, inl, inr, if_false, nat_comparable, if◌then◌else◌,
}
use kapprofiler.Bpf.Kernel.{Kernel}
use kapprofiler.Bpf.Filter.{gadget_should_discard_mntns_id, read_mntns_id}
use kapprofiler.Bpf.Program.{Config, x86_fpu_regs_deactivated}
use kapprofiler.Tracing.Events.{
  EventType, event_type_comparable, same_type, all_event_type, random_x_event_type,
}
use kapprofiler.Tracing.Defs.{
  TracingState, Tracer, EbpfPut, for_types, event_types, set_state, start_one, stop_one,
  start_trace_container, stop_trace_container,
}
use kapprofiler.Tracing.Counts.{Use, starts, stops}
use kapprofiler.Tracing.Kinds.{mem, for_types-none, for_types-some, set_state-at}

-- The tracer after the containers were started and stopped, the newest call first.
unfoldable pub traced : EbpfPut → Tracer → List Use → Tracer
unfolding start_trace_container stop_trace_container
traced put t [] = t
traced put t (starts mntns pid ∷ h) =
    (start_trace_container put mntns pid all_event_type (traced put t h)).0
traced put t (stops mntns pid ∷ h) =
    (stop_trace_container put mntns pid all_event_type (traced put t h)).0

for_types-other :
    (step : TracingState → Option TracingState) (k : EventType) (xs : List EventType) (t : Tracer)
    → mem k xs ≡ false
    → (for_types step xs t).0.tracing_state k ≡ t.tracing_state k
unfolding for_types mem
for_types-other step k [] t h = refl
for_types-other step k (x ∷ xs) t h = elim (Option-cases (step (t.tracing_state x))) [
  | inl e ↦ ap (λ r. r.0.tracing_state k) (for_types-none step x xs t e)
  | inr (st, e) ↦
      ap (λ r. r.0.tracing_state k) (for_types-some step x xs t st e)
      ∙ for_types-other step k xs (set_state x st t) (ground arith)
      ∙ set_state-at x k st t
      ∙ if_false (x == k) st (t.tracing_state k) (ground arith)
]

all_event_type-random_x : mem random_x_event_type (event_types all_event_type) ≡ false
unfolding mem event_types same_type
all_event_type-random_x = refl

running-or_not :
    (step : TracingState → Option TracingState) (b : Bool) (t : Tracer)
    → (if not b then (t, false) else for_types step (event_types all_event_type) t).0.tracing_state
        random_x_event_type
      ≡ t.tracing_state random_x_event_type
running-or_not step true t =
    for_types-other step random_x_event_type (event_types all_event_type) t all_event_type-random_x
running-or_not step false t = refl

traced-random_x :
    (put : EbpfPut) (t : Tracer) (h : List Use)
    → (traced put t h).tracing_state random_x_event_type ≡ t.tracing_state random_x_event_type
unfolding traced start_trace_container stop_trace_container
traced-random_x put t [] = refl
traced-random_x put t (starts mntns pid ∷ h) =
    running-or_not (start_one put mntns pid) (traced put t h).running (traced put t h)
    ∙ traced-random_x put t h
traced-random_x put t (stops mntns pid ∷ h) =
    running-or_not (stop_one put mntns pid) (traced put t h).running (traced put t h)
    ∙ traced-random_x put t h

empty_filter :
    (f : Bool) (m : List (ℕ × ℕ)) (i : ℕ)
    → f ≡ true
    → m ≡ []
    → gadget_should_discard_mntns_id f m i ≡ true
unfolding gadget_should_discard_mntns_id
empty_filter f m i on empty =
    ap (λ b. gadget_should_discard_mntns_id b m i) on
    ∙ ap (λ l. gadget_should_discard_mntns_id true l i) empty

discarded :
    (c : Config) (k : Kernel) (ctx : ℕ)
    → c.gadget_filter_by_mntns ≡ true
    → c.gadget_mntns_filter_map ≡ []
    → x86_fpu_regs_deactivated c k ctx ≡ none
unfolding x86_fpu_regs_deactivated
discarded c k ctx on empty = ground (
  arith,
  empty_filter c.gadget_filter_by_mntns c.gadget_mntns_filter_map (read_mntns_id k k.current_task)
      on empty,
)

-- When the filter map of the randomx gadget is empty as it is made, and the filter is on as it is
-- for a gadget that is given a map, the BPF program puts out nothing whatever containers are
-- started and stopped for all event types: those do not include the randomx events.
pub x86_fpu_regs_deactivated-traced :
    (put : EbpfPut) (t : Tracer) (h : List Use) (c : Config) (k : Kernel) (ctx : ℕ)
    → (t.tracing_state random_x_event_type).ebpf_container_filter_map ≡ []
    → c.gadget_filter_by_mntns ≡ true
    → c.gadget_mntns_filter_map
      ≡ ((traced put t h).tracing_state random_x_event_type).ebpf_container_filter_map
    → x86_fpu_regs_deactivated c k ctx ≡ none
x86_fpu_regs_deactivated-traced put t h c k ctx fresh on same =
    discarded c k ctx on
      (same ∙ ap (λ st. st.ebpf_container_filter_map) (traced-random_x put t h) ∙ fresh)
