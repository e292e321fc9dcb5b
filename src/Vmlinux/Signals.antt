-- ===== src/Vmlinux/Signals.antt =====
-- pkg/ebpf/include/amd64/vmlinux.h: the signal records that the threads of a process share.
use kapprofiler.Layout.{CType, array, bits, end, field, ptr, struct, ◌▸◌}
use kapprofiler.Vmlinux.Scalars.{
  __kernel_ulong_t, atomic64_t, atomic_t, bool, int, long_int, long_long_unsigned_int,
  long_unsigned_int, short_int, u64, unsigned_int,
}
use kapprofiler.Vmlinux.Basic.{
  atomic_long_t, hlist_head, list_head, mutex, optimistic_spin_queue, raw_spinlock, raw_spinlock_t,
  refcount_struct, refcount_t, seqcount_spinlock, seqcount_spinlock_t, spinlock, spinlock_t,
}
use kapprofiler.Vmlinux.Sched.{hrtimer, ktime_t, prev_cputime}
use kapprofiler.Vmlinux.Parts.{posix_cputimers, sigpending, sigset_t, task_io_accounting}
use kapprofiler.Vmlinux.Namespaces.{wait_queue_head, wait_queue_head_t}

unfoldable pub cpu_itimer : CType
cpu_itimer = struct (field "expires" u64 ▸ field "incr" u64 ▸ end)

unfoldable pub task_cputime_atomic : CType
unfolding atomic64_t
task_cputime_atomic = struct (
    field "utime" atomic64_t ▸ field "stime" atomic64_t ▸ field "sum_exec_runtime" atomic64_t ▸ end)

unfoldable pub thread_group_cputimer : CType
unfolding task_cputime_atomic
thread_group_cputimer = struct (field "cputime_atomic" task_cputime_atomic ▸ end)

unfoldable pub seqlock_t : CType
unfolding seqcount_spinlock spinlock
seqlock_t = struct (field "seqcount" seqcount_spinlock_t ▸ field "lock" spinlock_t ▸ end)

unfoldable pub rlimit : CType
rlimit = struct (field "rlim_cur" __kernel_ulong_t ▸ field "rlim_max" __kernel_ulong_t ▸ end)

unfoldable pub pacct_struct : CType
pacct_struct = struct (
    field "ac_flag" int
    ▸ field "ac_exitcode" long_int
    ▸ field "ac_mem" long_unsigned_int
    ▸ field "ac_utime" u64
    ▸ field "ac_stime" u64
    ▸ field "ac_minflt" long_unsigned_int
    ▸ field "ac_majflt" long_unsigned_int
    ▸ end)

unfoldable pub rw_semaphore : CType
unfolding optimistic_spin_queue list_head atomic64_t raw_spinlock
rw_semaphore = struct (
    field "count" atomic_long_t
    ▸ field "owner" atomic_long_t
    ▸ field "osq" optimistic_spin_queue
    ▸ field "wait_lock" raw_spinlock_t
    ▸ field "wait_list" list_head
    ▸ end)

unfoldable pub signal_struct : CType
unfolding atomic_t list_head sigpending hlist_head hrtimer cpu_itimer thread_group_cputimer
    posix_cputimers seqlock_t prev_cputime task_io_accounting rlimit pacct_struct mutex rw_semaphore
    refcount_struct wait_queue_head
signal_struct = struct (
    field "sigcnt" refcount_t
    ▸ field "live" atomic_t
    ▸ field "nr_threads" int
    ▸ field "thread_head" list_head
    ▸ field "wait_chldexit" wait_queue_head_t
    ▸ field "curr_target" (ptr "struct task_struct")
    ▸ field "shared_pending" sigpending
    ▸ field "multiprocess" hlist_head
    ▸ field "group_exit_code" int
    ▸ field "notify_count" int
    ▸ field "group_exec_task" (ptr "struct task_struct")
    ▸ field "group_stop_count" int
    ▸ field "flags" unsigned_int
    ▸ field "core_state" (ptr "struct core_state")
    ▸ bits "is_child_subreaper" unsigned_int 1
    ▸ bits "has_child_subreaper" unsigned_int 1
    ▸ field "posix_timer_id" int
    ▸ field "posix_timers" list_head
    ▸ field "real_timer" hrtimer
    ▸ field "it_real_incr" ktime_t
    ▸ field "it" (array cpu_itimer 2)
    ▸ field "cputimer" thread_group_cputimer
    ▸ field "posix_cputimers" posix_cputimers
    ▸ field "pids" (array (ptr "struct pid") 4)
    ▸ field "tty_old_pgrp" (ptr "struct pid")
    ▸ field "leader" int
    ▸ field "tty" (ptr "struct tty_struct")
    ▸ field "autogroup" (ptr "struct autogroup")
    ▸ field "stats_lock" seqlock_t
    ▸ field "utime" u64
    ▸ field "stime" u64
    ▸ field "cutime" u64
    ▸ field "cstime" u64
    ▸ field "gtime" u64
    ▸ field "cgtime" u64
    ▸ field "prev_cputime" prev_cputime
    ▸ field "nvcsw" long_unsigned_int
    ▸ field "nivcsw" long_unsigned_int
    ▸ field "cnvcsw" long_unsigned_int
    ▸ field "cnivcsw" long_unsigned_int
    ▸ field "min_flt" long_unsigned_int
    ▸ field "maj_flt" long_unsigned_int
    ▸ field "cmin_flt" long_unsigned_int
    ▸ field "cmaj_flt" long_unsigned_int
    ▸ field "inblock" long_unsigned_int
    ▸ field "oublock" long_unsigned_int
    ▸ field "cinblock" long_unsigned_int
    ▸ field "coublock" long_unsigned_int
    ▸ field "maxrss" long_unsigned_int
    ▸ field "cmaxrss" long_unsigned_int
    ▸ field "ioac" task_io_accounting
    ▸ field "sum_sched_runtime" long_long_unsigned_int
    ▸ field "rlim" (array rlimit 16)
    ▸ field "pacct" pacct_struct
    ▸ field "stats" (ptr "struct taskstats")
    ▸ field "audit_tty" unsigned_int
    ▸ field "tty_audit_buf" (ptr "struct tty_audit_buf")
    ▸ field "oom_flag_origin" bool
    ▸ field "oom_score_adj" short_int
    ▸ field "oom_score_adj_min" short_int
    ▸ field "oom_mm" (ptr "struct mm_struct")
    ▸ field "cred_guard_mutex" mutex
    ▸ field "exec_update_lock" rw_semaphore
    ▸ end)

abbrev pub __sighandler_t : CType
__sighandler_t = ptr "__signalfn_t"

abbrev pub __sigrestore_t : CType
__sigrestore_t = ptr "__restorefn_t"

unfoldable pub sigaction : CType
unfolding sigset_t
sigaction = struct (
    field "sa_handler" __sighandler_t
    ▸ field "sa_flags" long_unsigned_int
    ▸ field "sa_restorer" __sigrestore_t
    ▸ field "sa_mask" sigset_t
    ▸ end)

unfoldable pub k_sigaction : CType
unfolding sigaction
k_sigaction = struct (field "sa" sigaction ▸ end)

unfoldable pub sighand_struct : CType
unfolding k_sigaction refcount_struct spinlock wait_queue_head
sighand_struct = struct (
    field "siglock" spinlock_t
    ▸ field "count" refcount_t
    ▸ field "signalfd_wqh" wait_queue_head_t
    ▸ field "action" (array k_sigaction 64)
    ▸ end)
