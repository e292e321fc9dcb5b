-- ===== src/Vmlinux/Sched.antt =====
-- pkg/ebpf/include/amd64/vmlinux.h: scheduling entities, timers and statistics.
use kapprofiler.Layout.{CType, anon, array, bits, end, field, pad, ptr, struct, union, ◌▸◌}
use kapprofiler.Vmlinux.Scalars.{
  atomic_t, int, long_int, long_long_unsigned_int, long_unsigned_int, s64, short_unsigned_int, u16,
  u32, u64, u8, unsigned_int,
}
use kapprofiler.Vmlinux.Basic.{list_head, raw_spinlock, raw_spinlock_t}

unfoldable pub llist_node : CType
llist_node = struct (field "next" (ptr "struct llist_node") ▸ end)

unfoldable pub __call_single_node : CType
unfolding llist_node atomic_t
__call_single_node = struct (
    field "llist" llist_node
    ▸ anon (union (field "u_flags" unsigned_int ▸ field "a_flags" atomic_t ▸ end))
    ▸ field "src" u16
    ▸ field "dst" u16
    ▸ end)

unfoldable pub load_weight : CType
load_weight = struct (field "weight" long_unsigned_int ▸ field "inv_weight" u32 ▸ end)

unfoldable pub rb_node : CType
rb_node = struct (
    field "__rb_parent_color" long_unsigned_int
    ▸ field "rb_right" (ptr "struct rb_node")
    ▸ field "rb_left" (ptr "struct rb_node")
    ▸ end)

unfoldable pub util_est : CType
util_est = struct (field "enqueued" unsigned_int ▸ field "ewma" unsigned_int ▸ end)

unfoldable pub sched_avg : CType
unfolding util_est
sched_avg = struct (
    field "last_update_time" u64
    ▸ field "load_sum" u64
    ▸ field "runnable_sum" u64
    ▸ field "util_sum" u32
    ▸ field "period_contrib" u32
    ▸ field "load_avg" long_unsigned_int
    ▸ field "runnable_avg" long_unsigned_int
    ▸ field "util_avg" long_unsigned_int
    ▸ field "util_est" util_est
    ▸ end)

unfoldable pub sched_entity : CType
unfolding load_weight rb_node list_head sched_avg
sched_entity = struct (
    field "load" load_weight
    ▸ field "run_node" rb_node
    ▸ field "group_node" list_head
    ▸ field "on_rq" unsigned_int
    ▸ field "exec_start" u64
    ▸ field "sum_exec_runtime" u64
    ▸ field "vruntime" u64
    ▸ field "prev_sum_exec_runtime" u64
    ▸ field "nr_migrations" u64
    ▸ field "depth" int
    ▸ field "parent" (ptr "struct sched_entity")
    ▸ field "cfs_rq" (ptr "struct cfs_rq")
    ▸ field "my_q" (ptr "struct cfs_rq")
    ▸ field "runnable_weight" long_unsigned_int
    ▸ pad long_int 64
    ▸ pad long_int 64
    ▸ pad long_int 64
    ▸ pad long_int 64
    ▸ pad long_int 64
    ▸ pad long_int 64
    ▸ field "avg" sched_avg
    ▸ end)

unfoldable pub sched_rt_entity : CType
unfolding list_head
sched_rt_entity = struct (
    field "run_list" list_head
    ▸ field "timeout" long_unsigned_int
    ▸ field "watchdog_stamp" long_unsigned_int
    ▸ field "time_slice" unsigned_int
    ▸ field "on_rq" short_unsigned_int
    ▸ field "on_list" short_unsigned_int
    ▸ field "back" (ptr "struct sched_rt_entity")
    ▸ end)

abbrev pub ktime_t : CType
ktime_t = s64

unfoldable pub timerqueue_node : CType
unfolding rb_node
timerqueue_node = struct (field "node" rb_node ▸ field "expires" ktime_t ▸ end)

unfoldable pub hrtimer : CType
unfolding timerqueue_node
hrtimer = struct (
    field "node" timerqueue_node
    ▸ field "_softexpires" ktime_t
    ▸ field "function" (ptr "enum hrtimer_restart (struct hrtimer *)")
    ▸ field "base" (ptr "struct hrtimer_clock_base")
    ▸ field "state" u8
    ▸ field "is_rel" u8
    ▸ field "is_soft" u8
    ▸ field "is_hard" u8
    ▸ end)

unfoldable pub sched_dl_entity : CType
unfolding rb_node hrtimer
sched_dl_entity = struct (
    field "rb_node" rb_node
    ▸ field "dl_runtime" u64
    ▸ field "dl_deadline" u64
    ▸ field "dl_period" u64
    ▸ field "dl_bw" u64
    ▸ field "dl_density" u64
    ▸ field "runtime" s64
    ▸ field "deadline" u64
    ▸ field "flags" unsigned_int
    ▸ bits "dl_throttled" unsigned_int 1
    ▸ bits "dl_yielded" unsigned_int 1
    ▸ bits "dl_non_contending" unsigned_int 1
    ▸ bits "dl_overrun" unsigned_int 1
    ▸ field "dl_timer" hrtimer
    ▸ field "inactive_timer" hrtimer
    ▸ field "pi_se" (ptr "struct sched_dl_entity")
    ▸ end)

unfoldable pub uclamp_se : CType
uclamp_se = struct (
    bits "value" unsigned_int 11
    ▸ bits "bucket_id" unsigned_int 3
    ▸ bits "active" unsigned_int 1
    ▸ bits "user_defined" unsigned_int 1
    ▸ end)

unfoldable pub sched_statistics : CType
sched_statistics = struct (
    field "wait_start" u64
    ▸ field "wait_max" u64
    ▸ field "wait_count" u64
    ▸ field "wait_sum" u64
    ▸ field "iowait_count" u64
    ▸ field "iowait_sum" u64
    ▸ field "sleep_start" u64
    ▸ field "sleep_max" u64
    ▸ field "sum_sleep_runtime" s64
    ▸ field "block_start" u64
    ▸ field "block_max" u64
    ▸ field "sum_block_runtime" s64
    ▸ field "exec_max" u64
    ▸ field "slice_max" u64
    ▸ field "nr_migrations_cold" u64
    ▸ field "nr_failed_migrations_affine" u64
    ▸ field "nr_failed_migrations_running" u64
    ▸ field "nr_failed_migrations_hot" u64
    ▸ field "nr_forced_migrations" u64
    ▸ field "nr_wakeups" u64
    ▸ field "nr_wakeups_sync" u64
    ▸ field "nr_wakeups_migrate" u64
    ▸ field "nr_wakeups_local" u64
    ▸ field "nr_wakeups_remote" u64
    ▸ field "nr_wakeups_affine" u64
    ▸ field "nr_wakeups_affine_attempts" u64
    ▸ field "nr_wakeups_passive" u64
    ▸ field "nr_wakeups_idle" u64
    ▸ field "core_forceidle_sum" u64
    ▸ pad long_int 64
    ▸ pad long_int 64
    ▸ pad long_int 64
    ▸ end)

unfoldable pub cpumask : CType
cpumask = struct (field "bits" (array long_unsigned_int 128) ▸ end)

abbrev pub cpumask_t : CType
cpumask_t = cpumask

unfoldable pub rcu_special : CType
rcu_special = union (
    field "b" (
      struct
        (field "blocked" u8 ▸ field "need_qs" u8 ▸ field "exp_hint" u8 ▸ field "need_mb" u8 ▸ end))
    ▸ field "s" u32
    ▸ end)

unfoldable pub sched_info : CType
sched_info = struct (
    field "pcount" long_unsigned_int
    ▸ field "run_delay" long_long_unsigned_int
    ▸ field "last_arrival" long_long_unsigned_int
    ▸ field "last_queued" long_long_unsigned_int
    ▸ end)

unfoldable pub plist_node : CType
unfolding list_head
plist_node =
    struct (field "prio" int ▸ field "prio_list" list_head ▸ field "node_list" list_head ▸ end)

unfoldable pub vmacache : CType
vmacache = struct (field "seqnum" u64 ▸ field "vmas" (array (ptr "struct vm_area_struct") 4) ▸ end)

unfoldable pub task_rss_stat : CType
task_rss_stat = struct (field "events" int ▸ field "count" (array int 4) ▸ end)

unfoldable pub prev_cputime : CType
unfolding raw_spinlock
prev_cputime = struct (field "utime" u64 ▸ field "stime" u64 ▸ field "lock" raw_spinlock_t ▸ end)

unfoldable pub rb_root : CType
rb_root = struct (field "rb_node" (ptr "struct rb_node") ▸ end)
