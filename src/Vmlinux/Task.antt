-- ===== src/Vmlinux/Task.antt =====
-- pkg/ebpf/include/amd64/vmlinux.h: the task record.
use kapprofiler.Layout.{CType, Members, array, bits, field, pad, ptr, struct, ◌▸◌}
use kapprofiler.Vmlinux.Scalars.{
  bool, char, int, long_int, long_unsigned_int, pid_t, short_unsigned_int, u64, u8, unsigned_int,
}
use kapprofiler.Vmlinux.Basic.{hlist_head, hlist_node, list_head, refcount_struct, refcount_t}
use kapprofiler.Vmlinux.Sched.{
  __call_single_node, cpumask, cpumask_t, plist_node, prev_cputime, rb_node, rcu_special,
  sched_dl_entity, sched_entity, sched_info, sched_rt_entity, sched_statistics, task_rss_stat,
  uclamp_se, vmacache,
}
use kapprofiler.Vmlinux.Parts.{
  posix_cputimers, posix_cputimers_work, restart_block, sysv_sem, sysv_shm, thread_info,
}
use kapprofiler.Vmlinux.TaskMembers.{task_struct_context}

unfoldable pub task_struct_identity : Members
unfolding restart_block list_head hlist_node prev_cputime posix_cputimers posix_cputimers_work
    sysv_sem sysv_shm task_struct_context
task_struct_identity =
    field "exit_state" int
    ▸ field "exit_code" int
    ▸ field "exit_signal" int
    ▸ field "pdeath_signal" int
    ▸ field "jobctl" long_unsigned_int
    ▸ field "personality" unsigned_int
    ▸ bits "sched_reset_on_fork" unsigned_int 1
    ▸ bits "sched_contributes_to_load" unsigned_int 1
    ▸ bits "sched_migrated" unsigned_int 1
    ▸ bits "sched_psi_wake_requeue" unsigned_int 1
    ▸ pad int 28
    ▸ bits "sched_remote_wakeup" unsigned_int 1
    ▸ bits "in_execve" unsigned_int 1
    ▸ bits "in_iowait" unsigned_int 1
    ▸ bits "restore_sigmask" unsigned_int 1
    ▸ bits "in_user_fault" unsigned_int 1
    ▸ bits "no_cgroup_migration" unsigned_int 1
    ▸ bits "frozen" unsigned_int 1
    ▸ bits "use_memdelay" unsigned_int 1
    ▸ bits "in_memstall" unsigned_int 1
    ▸ bits "in_eventfd_signal" unsigned_int 1
    ▸ bits "pasid_activated" unsigned_int 1
    ▸ bits "reported_split_lock" unsigned_int 1
    ▸ field "atomic_flags" long_unsigned_int
    ▸ field "restart_block" restart_block
    ▸ field "pid" pid_t
    ▸ field "tgid" pid_t
    ▸ field "stack_canary" long_unsigned_int
    ▸ field "real_parent" (ptr "struct task_struct")
    ▸ field "parent" (ptr "struct task_struct")
    ▸ field "children" list_head
    ▸ field "sibling" list_head
    ▸ field "group_leader" (ptr "struct task_struct")
    ▸ field "ptraced" list_head
    ▸ field "ptrace_entry" list_head
    ▸ field "thread_pid" (ptr "struct pid")
    ▸ field "pid_links" (array hlist_node 4)
    ▸ field "thread_group" list_head
    ▸ field "thread_node" list_head
    ▸ field "vfork_done" (ptr "struct completion")
    ▸ field "set_child_tid" (ptr "int")
    ▸ field "clear_child_tid" (ptr "int")
    ▸ field "worker_private" (ptr "void")
    ▸ field "utime" u64
    ▸ field "stime" u64
    ▸ field "gtime" u64
    ▸ field "prev_cputime" prev_cputime
    ▸ field "nvcsw" long_unsigned_int
    ▸ field "nivcsw" long_unsigned_int
    ▸ field "start_time" u64
    ▸ field "start_boottime" u64
    ▸ field "min_flt" long_unsigned_int
    ▸ field "maj_flt" long_unsigned_int
    ▸ field "posix_cputimers" posix_cputimers
    ▸ field "posix_cputimers_work" posix_cputimers_work
    ▸ field "ptracer_cred" (ptr "const struct cred")
    ▸ field "real_cred" (ptr "const struct cred")
    ▸ field "cred" (ptr "const struct cred")
    ▸ field "cached_requested_key" (ptr "struct key")
    ▸ field "comm" (array char 16)
    ▸ field "nameidata" (ptr "struct nameidata")
    ▸ field "sysvsem" sysv_sem
    ▸ field "sysvshm" sysv_shm
    ▸ field "last_switch_count" long_unsigned_int
    ▸ field "last_switch_time" long_unsigned_int
    ▸ field "fs" (ptr "struct fs_struct")
    ▸ field "files" (ptr "struct files_struct")
    ▸ field "io_uring" (ptr "struct io_uring_task")
    ▸ task_struct_context

unfoldable pub task_struct : CType
unfolding thread_info __call_single_node sched_entity sched_rt_entity sched_dl_entity rb_node
    uclamp_se sched_statistics hlist_head rcu_special list_head sched_info plist_node vmacache
    task_rss_stat task_struct_identity cpumask refcount_struct
task_struct = struct (
    field "thread_info" thread_info
    ▸ field "__state" unsigned_int
    ▸ field "stack" (ptr "void")
    ▸ field "usage" refcount_t
    ▸ field "flags" unsigned_int
    ▸ field "ptrace" unsigned_int
    ▸ field "on_cpu" int
    ▸ field "wake_entry" __call_single_node
    ▸ field "wakee_flips" unsigned_int
    ▸ field "wakee_flip_decay_ts" long_unsigned_int
    ▸ field "last_wakee" (ptr "struct task_struct")
    ▸ field "recent_used_cpu" int
    ▸ field "wake_cpu" int
    ▸ field "on_rq" int
    ▸ field "prio" int
    ▸ field "static_prio" int
    ▸ field "normal_prio" int
    ▸ field "rt_priority" unsigned_int
    ▸ field "se" sched_entity
    ▸ field "rt" sched_rt_entity
    ▸ field "dl" sched_dl_entity
    ▸ field "sched_class" (ptr "const struct sched_class")
    ▸ field "core_node" rb_node
    ▸ field "core_cookie" long_unsigned_int
    ▸ field "core_occupation" unsigned_int
    ▸ field "sched_task_group" (ptr "struct task_group")
    ▸ field "uclamp_req" (array uclamp_se 2)
    ▸ field "uclamp" (array uclamp_se 2)
    ▸ pad long_int 64
    ▸ pad long_int 64
    ▸ pad long_int 64
    ▸ pad long_int 64
    ▸ pad long_int 64
    ▸ field "stats" sched_statistics
    ▸ field "preempt_notifiers" hlist_head
    ▸ field "btrace_seq" unsigned_int
    ▸ field "policy" unsigned_int
    ▸ field "nr_cpus_allowed" int
    ▸ field "cpus_ptr" (ptr "const cpumask_t")
    ▸ field "user_cpus_ptr" (ptr "cpumask_t")
    ▸ field "cpus_mask" cpumask_t
    ▸ field "migration_pending" (ptr "void")
    ▸ field "migration_disabled" short_unsigned_int
    ▸ field "migration_flags" short_unsigned_int
    ▸ field "rcu_read_lock_nesting" int
    ▸ field "rcu_read_unlock_special" rcu_special
    ▸ field "rcu_node_entry" list_head
    ▸ field "rcu_blocked_node" (ptr "struct rcu_node")
    ▸ field "rcu_tasks_nvcsw" long_unsigned_int
    ▸ field "rcu_tasks_holdout" u8
    ▸ field "rcu_tasks_idx" u8
    ▸ field "rcu_tasks_idle_cpu" int
    ▸ field "rcu_tasks_holdout_list" list_head
    ▸ field "trc_reader_nesting" int
    ▸ field "trc_ipi_to_cpu" int
    ▸ field "trc_reader_special" rcu_special
    ▸ field "trc_reader_checked" bool
    ▸ field "trc_holdout_list" list_head
    ▸ field "sched_info" sched_info
    ▸ field "tasks" list_head
    ▸ field "pushable_tasks" plist_node
    ▸ field "pushable_dl_tasks" rb_node
    ▸ field "mm" (ptr "struct mm_struct")
    ▸ field "active_mm" (ptr "struct mm_struct")
    ▸ field "vmacache" vmacache
    ▸ field "rss_stat" task_rss_stat
    ▸ task_struct_identity)
