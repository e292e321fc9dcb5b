-- ===== src/Tracing/Kept.antt =====
-- The filter map that `StopTraceContainer` leaves behind, read by the filter of
-- pkg/ebpf/include/mntns_filter.h.
use kapprofiler.Base.{ℕ, ◌≡◌, Bool, true, false, not, List, arith, ap, ◌∙◌}
use kapprofiler.Bpf.Filter.{gadget_should_discard_mntns_id, is_some}
use kapprofiler.Tracing.Defs.{EbpfPut}
use kapprofiler.Tracing.Counts.{
  IsPut, Use, after, users, admitted, filter_value, fresh, after-AllAgree,
}

is_some-filter_value : (taken : Bool) (n : ℕ) → is_some (filter_value taken n) ≡ taken
is_some-filter_value true n = ground arith
is_some-filter_value false n = ground arith

module _ (max_entries : ℕ) (put : EbpfPut) (is_put : IsPut max_entries put) where
  -- After any history of starts and stops of containers of a gadget, with the filter on, the
  -- filter of the BPF programs keeps the events of a mount namespace if and only if it is one of
  -- the first that were started, as many as the filter map has room for: the stops do not matter,
  -- and a namespace that is started when the map is full is discarded.
  pub gadget_should_discard_mntns_id-after :
      (i : ℕ) (h : List Use)
      → gadget_should_discard_mntns_id true (after put fresh h).ebpf_container_filter_map i
        ≡ not (admitted max_entries i h)
  unfolding gadget_should_discard_mntns_id
  gadget_should_discard_mntns_id-after i h =
      let a = (after-AllAgree max_entries put is_put h).at i in
      ap not (ap is_some a.filter ∙ is_some-filter_value (admitted max_entries i h) (users i h))
