-- ===== src/Bpf/Buffer.antt =====
-- pkg/ebpf/include/buffer.h: events go through a BPF ring buffer where the kernel has one, and
-- through a perf event array otherwise. A helper is modelled by the BPF calls that it makes.
use kapprofiler.Base.{ℕ, Bool, String, string_comparable, Option, none, some, lookup, if◌then◌else◌}
use kapprofiler.Bpf.Filter.{is_some}
use kapprofiler.Bpf.Kernel.{Kernel}

-- A buffer stands in the ring buffer, or it is the per-CPU scratch buffer `gadget_heap`.
pub data Call : Type 0 where
  ringbuf_reserve : ℕ → Call
  gadget_heap_lookup : Call
  ringbuf_discard : Call
  ringbuf_submit : Call
  ringbuf_output : ℕ → Call
  perf_event_output : ℕ → Call

-- `bpf_core_enum_value_exists(enum bpf_func_id, name)`
unfoldable pub bpf_core_enum_value_exists : Kernel → String → Bool
unfolding lookup
bpf_core_enum_value_exists k name = is_some (lookup name k.bpf_func_ids)

unfoldable pub gadget_reserve_buf : Kernel → ℕ → Call
gadget_reserve_buf k size =
    if bpf_core_enum_value_exists k "BPF_FUNC_ringbuf_reserve"
    then ringbuf_reserve size
    else gadget_heap_lookup

unfoldable pub gadget_discard_buf : Kernel → Option Call
gadget_discard_buf k =
    if bpf_core_enum_value_exists k "BPF_FUNC_ringbuf_discard" then some ringbuf_discard else none

unfoldable pub gadget_submit_buf : Kernel → ℕ → Call
gadget_submit_buf k size =
    if bpf_core_enum_value_exists k "BPF_FUNC_ringbuf_submit"
    then ringbuf_submit
    else perf_event_output size

unfoldable pub gadget_output_buf : Kernel → ℕ → Call
gadget_output_buf k size =
    if bpf_core_enum_value_exists k "BPF_FUNC_ringbuf_output"
    then ringbuf_output size
    else perf_event_output size
