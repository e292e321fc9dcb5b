-- ===== src/Vmlinux/TaskMembers.antt =====
-- pkg/ebpf/include/amd64/vmlinux.h: the later members of the task record.
use kapprofiler.Layout.{Members, anon, array, bits, end, field, pad, ptr, union, ◌▸◌}
use kapprofiler.Vmlinux.Scalars.{
  __u64, atomic_t, gfp_t, int, long_int, long_long_unsigned_int, long_unsigned_int, short_int,
  size_t, u32, u64, unsigned_int,
}
use kapprofiler.Vmlinux.Basic.{
  callback_head, list_head, mutex, raw_spinlock, raw_spinlock_t, refcount_struct, refcount_t,
  seqcount_spinlock, seqcount_spinlock_t, spinlock, spinlock_t,
}
use kapprofiler.Vmlinux.Parts.{
  kmap_ctrl, kuid_t, llist_head, nodemask_t, page_frag, rb_root_cached, seccomp, sigpending,
  sigset_t, syscall_user_dispatch, task_io_accounting, timer_list, tlbflush_unmap_batch,
  wake_q_node,
}
use kapprofiler.Vmlinux.Fpu.{thread_struct}

unfoldable pub task_struct_accounting : Members
unfolding tlbflush_unmap_batch callback_head page_frag atomic_t kmap_ctrl timer_list llist_head
    thread_struct refcount_struct
task_struct_accounting =
    field "rseq_sig" u32
    ▸ field "rseq_event_mask" long_unsigned_int
    ▸ field "tlb_ubc" tlbflush_unmap_batch
    ▸ anon (union (field "rcu_users" refcount_t ▸ field "rcu" callback_head ▸ end))
    ▸ field "splice_pipe" (ptr "struct pipe_inode_info")
    ▸ field "task_frag" page_frag
    ▸ field "delays" (ptr "struct task_delay_info")
    ▸ field "nr_dirtied" int
    ▸ field "nr_dirtied_pause" int
    ▸ field "dirty_paused_when" long_unsigned_int
    ▸ field "timer_slack_ns" u64
    ▸ field "default_timer_slack_ns" u64
    ▸ field "curr_ret_stack" int
    ▸ field "curr_ret_depth" int
    ▸ field "ret_stack" (ptr "struct ftrace_ret_stack")
    ▸ field "ftrace_timestamp" long_long_unsigned_int
    ▸ field "trace_overrun" atomic_t
    ▸ field "tracing_graph_pause" atomic_t
    ▸ field "trace" long_unsigned_int
    ▸ field "trace_recursion" long_unsigned_int
    ▸ field "memcg_in_oom" (ptr "struct mem_cgroup")
    ▸ field "memcg_oom_gfp_mask" gfp_t
    ▸ field "memcg_oom_order" int
    ▸ field "memcg_nr_pages_over_high" unsigned_int
    ▸ field "active_memcg" (ptr "struct mem_cgroup")
    ▸ field "throttle_queue" (ptr "struct request_queue")
    ▸ field "utask" (ptr "struct uprobe_task")
    ▸ field "sequential_io" unsigned_int
    ▸ field "sequential_io_avg" unsigned_int
    ▸ field "kmap_ctrl" kmap_ctrl
    ▸ field "pagefault_disabled" int
    ▸ field "oom_reaper_list" (ptr "struct task_struct")
    ▸ field "oom_reaper_timer" timer_list
    ▸ field "stack_vm_area" (ptr "struct vm_struct")
    ▸ field "stack_refcount" refcount_t
    ▸ field "patch_state" int
    ▸ field "security" (ptr "void")
    ▸ field "bpf_storage" (ptr "struct bpf_local_storage")
    ▸ field "bpf_ctx" (ptr "struct bpf_run_ctx")
    ▸ field "mce_vaddr" (ptr "void")
    ▸ field "mce_kflags" __u64
    ▸ field "mce_addr" u64
    ▸ bits "mce_ripv" __u64 1
    ▸ bits "mce_whole_page" __u64 1
    ▸ bits "__mce_reserved" __u64 62
    ▸ field "mce_kill_me" callback_head
    ▸ field "mce_count" int
    ▸ field "kretprobe_instances" llist_head
    ▸ field "rethooks" llist_head
    ▸ field "l1d_flush_kill" callback_head
    ▸ pad long_int 64
    ▸ pad long_int 64
    ▸ pad long_int 64
    ▸ pad long_int 64
    ▸ pad long_int 64
    ▸ field "thread" thread_struct
    ▸ end

unfoldable pub task_struct_context : Members
unfolding sigset_t sigpending kuid_t seccomp syscall_user_dispatch wake_q_node rb_root_cached
    task_io_accounting nodemask_t list_head mutex callback_head task_struct_accounting raw_spinlock
    seqcount_spinlock spinlock
task_struct_context =
    field "nsproxy" (ptr "struct nsproxy")
    ▸ field "signal" (ptr "struct signal_struct")
    ▸ field "sighand" (ptr "struct sighand_struct")
    ▸ field "blocked" sigset_t
    ▸ field "real_blocked" sigset_t
    ▸ field "saved_sigmask" sigset_t
    ▸ field "pending" sigpending
    ▸ field "sas_ss_sp" long_unsigned_int
    ▸ field "sas_ss_size" size_t
    ▸ field "sas_ss_flags" unsigned_int
    ▸ field "task_works" (ptr "struct callback_head")
    ▸ field "audit_context" (ptr "struct audit_context")
    ▸ field "loginuid" kuid_t
    ▸ field "sessionid" unsigned_int
    ▸ field "seccomp" seccomp
    ▸ field "syscall_dispatch" syscall_user_dispatch
    ▸ field "parent_exec_id" u64
    ▸ field "self_exec_id" u64
    ▸ field "alloc_lock" spinlock_t
    ▸ field "pi_lock" raw_spinlock_t
    ▸ field "wake_q" wake_q_node
    ▸ field "pi_waiters" rb_root_cached
    ▸ field "pi_top_task" (ptr "struct task_struct")
    ▸ field "pi_blocked_on" (ptr "struct rt_mutex_waiter")
    ▸ field "journal_info" (ptr "void")
    ▸ field "bio_list" (ptr "struct bio_list")
    ▸ field "plug" (ptr "struct blk_plug")
    ▸ field "reclaim_state" (ptr "struct reclaim_state")
    ▸ field "backing_dev_info" (ptr "struct backing_dev_info")
    ▸ field "io_context" (ptr "struct io_context")
    ▸ field "capture_control" (ptr "struct capture_control")
    ▸ field "ptrace_message" long_unsigned_int
    ▸ field "last_siginfo" (ptr "kernel_siginfo_t")
    ▸ field "ioac" task_io_accounting
    ▸ field "psi_flags" unsigned_int
    ▸ field "acct_rss_mem1" u64
    ▸ field "acct_vm_mem1" u64
    ▸ field "acct_timexpd" u64
    ▸ field "mems_allowed" nodemask_t
    ▸ field "mems_allowed_seq" seqcount_spinlock_t
    ▸ field "cpuset_mem_spread_rotor" int
    ▸ field "cpuset_slab_spread_rotor" int
    ▸ field "cgroups" (ptr "struct css_set")
    ▸ field "cg_list" list_head
    ▸ field "closid" u32
    ▸ field "rmid" u32
    ▸ field "robust_list" (ptr "struct robust_list_head")
    ▸ field "compat_robust_list" (ptr "struct compat_robust_list_head")
    ▸ field "pi_state_list" list_head
    ▸ field "pi_state_cache" (ptr "struct futex_pi_state")
    ▸ field "futex_exit_mutex" mutex
    ▸ field "futex_state" unsigned_int
    ▸ field "perf_event_ctxp" (array (ptr "struct perf_event_context") 2)
    ▸ field "perf_event_mutex" mutex
    ▸ field "perf_event_list" list_head
    ▸ field "preempt_disable_ip" long_unsigned_int
    ▸ field "mempolicy" (ptr "struct mempolicy")
    ▸ field "il_prev" short_int
    ▸ field "pref_node_fork" short_int
    ▸ field "numa_scan_seq" int
    ▸ field "numa_scan_period" unsigned_int
    ▸ field "numa_scan_period_max" unsigned_int
    ▸ field "numa_preferred_nid" int
    ▸ field "numa_migrate_retry" long_unsigned_int
    ▸ field "node_stamp" u64
    ▸ field "last_task_numa_placement" u64
    ▸ field "last_sum_exec_runtime" u64
    ▸ field "numa_work" callback_head
    ▸ field "numa_group" (ptr "struct numa_group")
    ▸ field "numa_faults" (ptr "long unsigned int")
    ▸ field "total_numa_faults" long_unsigned_int
    ▸ field "numa_faults_locality" (array long_unsigned_int 3)
    ▸ field "numa_pages_migrated" long_unsigned_int
    ▸ field "rseq" (ptr "struct rseq")
    ▸ task_struct_accounting
