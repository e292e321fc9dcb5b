-- ===== src/Vmlinux/Trace.antt =====
-- pkg/ebpf/include/amd64/vmlinux.h: the record that the x86_fpu tracepoints hand to a BPF program.
use kapprofiler.Layout.{CType, array, end, field, ptr, struct, ◌▸◌}
use kapprofiler.Vmlinux.Scalars.{bool, char, int, short_unsigned_int, u64, unsigned_char}

unfoldable pub trace_entry : CType
trace_entry = struct (
    field "type" short_unsigned_int
    ▸ field "flags" unsigned_char
    ▸ field "preempt_count" unsigned_char
    ▸ field "pid" int
    ▸ end)

unfoldable pub trace_event_raw_x86_fpu : CType
unfolding trace_entry
trace_event_raw_x86_fpu = struct (
    field "ent" trace_entry
    ▸ field "fpu" (ptr "struct fpu")
    ▸ field "load_fpu" bool
    ▸ field "xfeatures" u64
    ▸ field "xcomp_bv" u64
    ▸ field "__data" (array char 0)
    ▸ end)
