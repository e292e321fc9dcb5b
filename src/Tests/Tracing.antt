-- ===== src/Tests/Tracing.antt =====
-- Histories of the tracer.
use kapprofiler.Base.{
  ℕ, ◌+◌, some, any, length, ◌==◌, lookup, if_true, if_false, ap, ◌∙◌, arith, ◌≡◌, refl, true, not,
  List, [], ◌∷◌, nat_comparable, String, string_comparable, if◌then◌else◌,
}
use kapprofiler.Bpf.Filter.{gadget_should_discard_mntns_id, is_some}
use kapprofiler.Tracing.Events.{open_event_type, all_event_type}
use kapprofiler.Tracing.Defs.{EbpfPut, Tracer, start_trace_container, stop_trace_container}
use kapprofiler.Tracing.Counts
use kapprofiler.Tracing.Counts.{
  Use, starts, stops, after, admitted, taken_in, fits, AllAgree, fresh, IsPut,
}
use kapprofiler.Tracing.Kept
use kapprofiler.Tracing.Traces
use kapprofiler.Tracing.Traces.{Traces, IsStarted, IsStopped}
use kapprofiler.Tracing.Listeners
use kapprofiler.Tracing.Listeners.{
  Registration, adds, removes, listeners, registered, calls_of, Container, container_event_handler,
  add_container,
}

-- A hash map of two entries: the value of a key is changed in place, a new key comes last.
abbrev set_entry : EbpfPut
set_entry k v [] = (k, v) ∷ []
set_entry k v (entry ∷ m) =
    let rest = set_entry k v m in if k == entry.0 then (k, v) ∷ m else entry ∷ rest

abbrev hash_put : EbpfPut
hash_put k v m = if fits 2 k m then set_entry k v m else m

lookup-set_entry :
    (k j v : ℕ) (m : List (ℕ × ℕ))
    → lookup j (set_entry k v m) ≡ (if k == j then some v else lookup j m)
unfolding lookup
lookup-set_entry k j v [] = ground arith
lookup-set_entry k j v (entry ∷ m) = ground (arith, lookup-set_entry k j v m)

length-set_entry :
    (k v : ℕ) (m : List (ℕ × ℕ))
    → length (set_entry k v m) ≡ (if is_some (lookup k m) then length m else length m + 1)
unfolding lookup
length-set_entry k v [] = refl
length-set_entry k v (entry ∷ m) = ground (arith, length-set_entry k v m)

hash_put-IsPut : IsPut 2 hash_put
hash_put-IsPut = record {
  writes = λ k j v m there.
      ap (lookup j) (if_true (fits 2 k m) (set_entry k v m) m there) ∙ lookup-set_entry k j v m;
  grows = λ k v m there.
      ap length (if_true (fits 2 k m) (set_entry k v m) m there) ∙ length-set_entry k v m;
  refuses = λ k v m full. if_false (fits 2 k m) (set_entry k v m) m full;
}

-- The third namespace finds the map full.
abbrev history : List Use
history = starts 11 50 ∷ stops 7 31 ∷ stops 7 30 ∷ starts 9 40 ∷ starts 7 31 ∷ starts 7 30 ∷ []

after-AllAgree_example : AllAgree 2 (after hash_put fresh history) history
after-AllAgree_example = Counts.after-AllAgree 2 hash_put hash_put-IsPut history

gadget_should_discard_mntns_id-after_example :
    gadget_should_discard_mntns_id true (after hash_put fresh history).ebpf_container_filter_map 7
    ≡ not (admitted 2 7 history)
gadget_should_discard_mntns_id-after_example =
    Kept.gadget_should_discard_mntns_id-after 2 hash_put hash_put-IsPut 7 history

third_left_out : taken_in 2 history ≡ 9 ∷ 7 ∷ []
unfolding taken_in any
third_left_out = refl

abbrev only_gadgets : Tracer
only_gadgets = record { running = true; tracing_state = λ k. fresh }

start_trace_container-Traces_example :
    Traces
      (IsStarted hash_put 7 30)
      all_event_type
      open_event_type
      only_gadgets
      (start_trace_container hash_put 7 30 all_event_type only_gadgets)
    × Traces
        (IsStopped hash_put 7 30)
        all_event_type
        open_event_type
        only_gadgets
        (stop_trace_container hash_put 7 30 all_event_type only_gadgets)
start_trace_container-Traces_example =
    Traces.start_trace_container-Traces hash_put 7 30 all_event_type open_event_type only_gadgets

abbrev registrations : List (Registration String)
registrations = removes "collector" ∷ adds "log" ∷ adds "collector" ∷ adds "collector" ∷ []

abbrev web : Container
web = record {
  pod_name = "web-1";
  namespace = "shop";
  container_name = "nginx";
  mntns = 7;
  container_id = "c1";
  pid = 30;
}

calls_of-container_event_handler_example :
    calls_of "collector" (container_event_handler true (listeners registrations) add_container web)
    ≡ (if true then registered "collector" registrations else 0)
calls_of-container_event_handler_example =
    Listeners.calls_of-container_event_handler "collector" registrations true add_container web
