-- ===== src/Vmlinux/Perf.antt =====
-- pkg/ebpf/include/amd64/vmlinux.h: the perf events that the output of the program goes to.
use kapprofiler.Layout.{CType, end, enum, field, ptr, struct, ◌▸◌}
use kapprofiler.Base.{[], ◌∷◌}
use kapprofiler.Vmlinux.Scalars.{
  atomic64_t, atomic_t, int, long_unsigned_int, u16, u64, unsigned_int,
}
use kapprofiler.Vmlinux.Basic.{
  atomic_long_t, callback_head, hlist_node, list_head, mutex, raw_spinlock, raw_spinlock_t,
  refcount_struct, refcount_t,
}
use kapprofiler.Vmlinux.Sched.{__call_single_node, rb_node, rb_root}
use kapprofiler.Vmlinux.Namespaces.{wait_queue_head, wait_queue_head_t}
use kapprofiler.Vmlinux.Supers.{rcuwait}
use kapprofiler.Vmlinux.PerfParts.{hw_perf_event, local64_t, perf_event_attr}

unfoldable pub perf_event_state : CType
perf_event_state = enum (
    ("PERF_EVENT_STATE_DEAD", 4294967292)
    ∷ ("PERF_EVENT_STATE_EXIT", 4294967293)
    ∷ ("PERF_EVENT_STATE_ERROR", 4294967294)
    ∷ ("PERF_EVENT_STATE_OFF", 4294967295)
    ∷ ("PERF_EVENT_STATE_INACTIVE", 0)
    ∷ ("PERF_EVENT_STATE_ACTIVE", 1)
    ∷ [])

unfoldable pub irq_work : CType
unfolding __call_single_node rcuwait
irq_work = struct (
    field "node" __call_single_node
    ▸ field "func" (ptr "void (struct irq_work *)")
    ▸ field "irqwait" rcuwait
    ▸ end)

unfoldable pub perf_addr_filters_head : CType
unfolding list_head raw_spinlock
perf_addr_filters_head = struct (
    field "list" list_head
    ▸ field "lock" raw_spinlock_t
    ▸ field "nr_file_filters" unsigned_int
    ▸ end)

abbrev pub perf_overflow_handler_t : CType
perf_overflow_handler_t =
    ptr "void (struct perf_event *, struct perf_sample_data *, struct pt_regs *)"

abbrev pub ftrace_func_t : CType
ftrace_func_t =
    ptr "void (long unsigned int, long unsigned int, struct ftrace_ops *, struct ftrace_regs *)"

unfoldable pub ftrace_ops_hash : CType
unfolding mutex
ftrace_ops_hash = struct (
    field "notrace_hash" (ptr "struct ftrace_hash")
    ▸ field "filter_hash" (ptr "struct ftrace_hash")
    ▸ field "regex_lock" mutex
    ▸ end)

unfoldable pub ftrace_ops : CType
unfolding ftrace_ops_hash list_head
ftrace_ops = struct (
    field "func" ftrace_func_t
    ▸ field "next" (ptr "struct ftrace_ops")
    ▸ field "flags" long_unsigned_int
    ▸ field "private" (ptr "void")
    ▸ field "saved_func" ftrace_func_t
    ▸ field "local_hash" ftrace_ops_hash
    ▸ field "func_hash" (ptr "struct ftrace_ops_hash")
    ▸ field "old_hash" ftrace_ops_hash
    ▸ field "trampoline" long_unsigned_int
    ▸ field "trampoline_size" long_unsigned_int
    ▸ field "list" list_head
    ▸ end)

unfoldable pub perf_event : CType
unfolding list_head rb_node hlist_node perf_event_state local64_t atomic64_t perf_event_attr
    hw_perf_event mutex atomic_t irq_work perf_addr_filters_head callback_head ftrace_ops
    wait_queue_head
perf_event = struct (
    field "event_entry" list_head
    ▸ field "sibling_list" list_head
    ▸ field "active_list" list_head
    ▸ field "group_node" rb_node
    ▸ field "group_index" u64
    ▸ field "migrate_entry" list_head
    ▸ field "hlist_entry" hlist_node
    ▸ field "active_entry" list_head
    ▸ field "nr_siblings" int
    ▸ field "event_caps" int
    ▸ field "group_caps" int
    ▸ field "group_leader" (ptr "struct perf_event")
    ▸ field "pmu" (ptr "struct pmu")
    ▸ field "pmu_private" (ptr "void")
    ▸ field "state" perf_event_state
    ▸ field "attach_state" unsigned_int
    ▸ field "count" local64_t
    ▸ field "child_count" atomic64_t
    ▸ field "total_time_enabled" u64
    ▸ field "total_time_running" u64
    ▸ field "tstamp" u64
    ▸ field "attr" perf_event_attr
    ▸ field "header_size" u16
    ▸ field "id_header_size" u16
    ▸ field "read_size" u16
    ▸ field "hw" hw_perf_event
    ▸ field "ctx" (ptr "struct perf_event_context")
    ▸ field "refcount" atomic_long_t
    ▸ field "child_total_time_enabled" atomic64_t
    ▸ field "child_total_time_running" atomic64_t
    ▸ field "child_mutex" mutex
    ▸ field "child_list" list_head
    ▸ field "parent" (ptr "struct perf_event")
    ▸ field "oncpu" int
    ▸ field "cpu" int
    ▸ field "owner_entry" list_head
    ▸ field "owner" (ptr "struct task_struct")
    ▸ field "mmap_mutex" mutex
    ▸ field "mmap_count" atomic_t
    ▸ field "rb" (ptr "struct perf_buffer")
    ▸ field "rb_entry" list_head
    ▸ field "rcu_batches" long_unsigned_int
    ▸ field "rcu_pending" int
    ▸ field "waitq" wait_queue_head_t
    ▸ field "fasync" (ptr "struct fasync_struct")
    ▸ field "pending_wakeup" int
    ▸ field "pending_kill" int
    ▸ field "pending_disable" int
    ▸ field "pending_addr" long_unsigned_int
    ▸ field "pending" irq_work
    ▸ field "event_limit" atomic_t
    ▸ field "addr_filters" perf_addr_filters_head
    ▸ field "addr_filter_ranges" (ptr "struct perf_addr_filter_range")
    ▸ field "addr_filters_gen" long_unsigned_int
    ▸ field "aux_event" (ptr "struct perf_event")
    ▸ field "destroy" (ptr "void (struct perf_event *)")
    ▸ field "callback_head" callback_head
    ▸ field "ns" (ptr "struct pid_namespace")
    ▸ field "id" u64
    ▸ field "clock" (ptr "u64 ()")
    ▸ field "overflow_handler" perf_overflow_handler_t
    ▸ field "overflow_handler_context" (ptr "void")
    ▸ field "orig_overflow_handler" perf_overflow_handler_t
    ▸ field "prog" (ptr "struct bpf_prog")
    ▸ field "bpf_cookie" u64
    ▸ field "tp_event" (ptr "struct trace_event_call")
    ▸ field "filter" (ptr "struct event_filter")
    ▸ field "ftrace_ops" ftrace_ops
    ▸ field "cgrp" (ptr "struct perf_cgroup")
    ▸ field "security" (ptr "void")
    ▸ field "sb_list" list_head
    ▸ end)

unfoldable pub perf_event_groups : CType
unfolding rb_root
perf_event_groups = struct (field "tree" rb_root ▸ field "index" u64 ▸ end)

unfoldable pub perf_event_context : CType
unfolding mutex list_head perf_event_groups callback_head raw_spinlock refcount_struct
perf_event_context = struct (
    field "pmu" (ptr "struct pmu")
    ▸ field "lock" raw_spinlock_t
    ▸ field "mutex" mutex
    ▸ field "active_ctx_list" list_head
    ▸ field "pinned_groups" perf_event_groups
    ▸ field "flexible_groups" perf_event_groups
    ▸ field "event_list" list_head
    ▸ field "pinned_active" list_head
    ▸ field "flexible_active" list_head
    ▸ field "nr_events" int
    ▸ field "nr_active" int
    ▸ field "nr_user" int
    ▸ field "is_active" int
    ▸ field "nr_stat" int
    ▸ field "nr_freq" int
    ▸ field "rotate_disable" int
    ▸ field "rotate_necessary" int
    ▸ field "refcount" refcount_t
    ▸ field "task" (ptr "struct task_struct")
    ▸ field "time" u64
    ▸ field "timestamp" u64
    ▸ field "timeoffset" u64
    ▸ field "parent_ctx" (ptr "struct perf_event_context")
    ▸ field "parent_gen" u64
    ▸ field "generation" u64
    ▸ field "pin_count" int
    ▸ field "nr_cgroups" int
    ▸ field "task_ctx_data" (ptr "void")
    ▸ field "callback_head" callback_head
    ▸ end)
