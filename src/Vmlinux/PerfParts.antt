-- ===== src/Vmlinux/PerfParts.antt =====
-- pkg/ebpf/include/amd64/vmlinux.h: the attributes and the hardware state of perf events.
use kapprofiler.Layout.{CType, anon, bits, end, field, ptr, struct, union, ◌▸◌}
use kapprofiler.Vmlinux.Scalars.{
  __u16, __u32, __u64, atomic64_t, int, long_unsigned_int, u16, u64, u8, unsigned_int,
}
use kapprofiler.Vmlinux.Basic.{atomic_long_t, list_head}
use kapprofiler.Vmlinux.Sched.{hrtimer}
use kapprofiler.Vmlinux.Keys.{__s32}

unfoldable pub local_t : CType
unfolding atomic64_t
local_t = struct (field "a" atomic_long_t ▸ end)

unfoldable pub local64_t : CType
unfolding local_t
local64_t = struct (field "a" local_t ▸ end)

unfoldable pub perf_event_attr : CType
perf_event_attr = struct (
    field "type" __u32
    ▸ field "size" __u32
    ▸ field "config" __u64
    ▸ anon (union (field "sample_period" __u64 ▸ field "sample_freq" __u64 ▸ end))
    ▸ field "sample_type" __u64
    ▸ field "read_format" __u64
    ▸ bits "disabled" __u64 1
    ▸ bits "inherit" __u64 1
    ▸ bits "pinned" __u64 1
    ▸ bits "exclusive" __u64 1
    ▸ bits "exclude_user" __u64 1
    ▸ bits "exclude_kernel" __u64 1
    ▸ bits "exclude_hv" __u64 1
    ▸ bits "exclude_idle" __u64 1
    ▸ bits "mmap" __u64 1
    ▸ bits "comm" __u64 1
    ▸ bits "freq" __u64 1
    ▸ bits "inherit_stat" __u64 1
    ▸ bits "enable_on_exec" __u64 1
    ▸ bits "task" __u64 1
    ▸ bits "watermark" __u64 1
    ▸ bits "precise_ip" __u64 2
    ▸ bits "mmap_data" __u64 1
    ▸ bits "sample_id_all" __u64 1
    ▸ bits "exclude_host" __u64 1
    ▸ bits "exclude_guest" __u64 1
    ▸ bits "exclude_callchain_kernel" __u64 1
    ▸ bits "exclude_callchain_user" __u64 1
    ▸ bits "mmap2" __u64 1
    ▸ bits "comm_exec" __u64 1
    ▸ bits "use_clockid" __u64 1
    ▸ bits "context_switch" __u64 1
    ▸ bits "write_backward" __u64 1
    ▸ bits "namespaces" __u64 1
    ▸ bits "ksymbol" __u64 1
    ▸ bits "bpf_event" __u64 1
    ▸ bits "aux_output" __u64 1
    ▸ bits "cgroup" __u64 1
    ▸ bits "text_poke" __u64 1
    ▸ bits "build_id" __u64 1
    ▸ bits "inherit_thread" __u64 1
    ▸ bits "remove_on_exec" __u64 1
    ▸ bits "sigtrap" __u64 1
    ▸ bits "__reserved_1" __u64 26
    ▸ anon (union (field "wakeup_events" __u32 ▸ field "wakeup_watermark" __u32 ▸ end))
    ▸ field "bp_type" __u32
    ▸ anon (
        union (
          field "bp_addr" __u64
          ▸ field "kprobe_func" __u64
          ▸ field "uprobe_path" __u64
          ▸ field "config1" __u64
          ▸ end))
    ▸ anon (
        union (
          field "bp_len" __u64
          ▸ field "kprobe_addr" __u64
          ▸ field "probe_offset" __u64
          ▸ field "config2" __u64
          ▸ end))
    ▸ field "branch_sample_type" __u64
    ▸ field "sample_regs_user" __u64
    ▸ field "sample_stack_user" __u32
    ▸ field "clockid" __s32
    ▸ field "sample_regs_intr" __u64
    ▸ field "aux_watermark" __u32
    ▸ field "sample_max_stack" __u16
    ▸ field "__reserved_2" __u16
    ▸ field "aux_sample_size" __u32
    ▸ field "__reserved_3" __u32
    ▸ field "sig_data" __u64
    ▸ end)

unfoldable pub hw_perf_event_extra : CType
hw_perf_event_extra =
    struct
      (field "config" u64 ▸ field "reg" unsigned_int ▸ field "alloc" int ▸ field "idx" int ▸ end)

unfoldable pub arch_hw_breakpoint : CType
arch_hw_breakpoint = struct (
    field "address" long_unsigned_int
    ▸ field "mask" long_unsigned_int
    ▸ field "len" u8
    ▸ field "type" u8
    ▸ end)

unfoldable pub hw_perf_event : CType
unfolding hw_perf_event_extra hrtimer list_head arch_hw_breakpoint local64_t
hw_perf_event = struct (
    anon (
      union (
        anon (
          struct (
            field "config" u64
            ▸ field "last_tag" u64
            ▸ field "config_base" long_unsigned_int
            ▸ field "event_base" long_unsigned_int
            ▸ field "event_base_rdpmc" int
            ▸ field "idx" int
            ▸ field "last_cpu" int
            ▸ field "flags" int
            ▸ field "extra_reg" hw_perf_event_extra
            ▸ field "branch_reg" hw_perf_event_extra
            ▸ end))
        ▸ anon (struct (field "hrtimer" hrtimer ▸ end))
        ▸ anon (struct (field "tp_list" list_head ▸ end))
        ▸ anon (struct (field "pwr_acc" u64 ▸ field "ptsc" u64 ▸ end))
        ▸ anon (struct (field "info" arch_hw_breakpoint ▸ field "bp_list" list_head ▸ end))
        ▸ anon (
            struct (
              field "iommu_bank" u8
              ▸ field "iommu_cntr" u8
              ▸ field "padding" u16
              ▸ field "conf" u64
              ▸ field "conf1" u64
              ▸ end))
        ▸ end))
    ▸ field "target" (ptr "struct task_struct")
    ▸ field "addr_filters" (ptr "void")
    ▸ field "addr_filters_gen" long_unsigned_int
    ▸ field "state" int
    ▸ field "prev_count" local64_t
    ▸ field "sample_period" u64
    ▸ anon (
        union (
          anon (struct (field "last_period" u64 ▸ field "period_left" local64_t ▸ end))
          ▸ anon (struct (field "saved_metric" u64 ▸ field "saved_slots" u64 ▸ end))
          ▸ end))
    ▸ field "interrupts_seq" u64
    ▸ field "interrupts" u64
    ▸ field "freq_time_stamp" u64
    ▸ field "freq_count_stamp" u64
    ▸ end)
