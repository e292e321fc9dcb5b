-- ===== src/Vmlinux/Groups.antt =====
-- pkg/ebpf/include/amd64/vmlinux.h: control groups.
use kapprofiler.Layout.{CType, array, end, field, ptr, struct, ◌▸◌}
use kapprofiler.Vmlinux.Scalars.{
  atomic_t, bool, int, long_long_unsigned_int, long_unsigned_int, u16, u32, u64, unsigned_int,
}
use kapprofiler.Vmlinux.Basic.{
  callback_head, hlist_node, list_head, mutex, refcount_struct, refcount_t,
}
use kapprofiler.Vmlinux.Sched.{prev_cputime}
use kapprofiler.Vmlinux.Parts.{timer_list}
use kapprofiler.Vmlinux.Namespaces.{wait_queue_head, wait_queue_head_t}
use kapprofiler.Vmlinux.Memory.{work_struct}

unfoldable pub css_set : CType
unfolding list_head hlist_node callback_head refcount_struct
css_set = struct (
    field "subsys" (array (ptr "struct cgroup_subsys_state") 14)
    ▸ field "refcount" refcount_t
    ▸ field "dom_cset" (ptr "struct css_set")
    ▸ field "dfl_cgrp" (ptr "struct cgroup")
    ▸ field "nr_tasks" int
    ▸ field "tasks" list_head
    ▸ field "mg_tasks" list_head
    ▸ field "dying_tasks" list_head
    ▸ field "task_iters" list_head
    ▸ field "e_cset_node" (array list_head 14)
    ▸ field "threaded_csets" list_head
    ▸ field "threaded_csets_node" list_head
    ▸ field "hlist" hlist_node
    ▸ field "cgrp_links" list_head
    ▸ field "mg_preload_node" list_head
    ▸ field "mg_node" list_head
    ▸ field "mg_src_cgrp" (ptr "struct cgroup")
    ▸ field "mg_dst_cgrp" (ptr "struct cgroup")
    ▸ field "mg_dst_cset" (ptr "struct css_set")
    ▸ field "dead" bool
    ▸ field "callback_head" callback_head
    ▸ end)

unfoldable pub percpu_ref : CType
percpu_ref =
    struct (
      field "percpu_count_ptr" long_unsigned_int
      ▸ field "data" (ptr "struct percpu_ref_data")
      ▸ end)

unfoldable pub rcu_work : CType
unfolding work_struct callback_head
rcu_work = struct (
    field "work" work_struct
    ▸ field "rcu" callback_head
    ▸ field "wq" (ptr "struct workqueue_struct")
    ▸ end)

unfoldable pub cgroup_subsys_state : CType
unfolding percpu_ref list_head atomic_t work_struct rcu_work
cgroup_subsys_state = struct (
    field "cgroup" (ptr "struct cgroup")
    ▸ field "ss" (ptr "struct cgroup_subsys")
    ▸ field "refcnt" percpu_ref
    ▸ field "sibling" list_head
    ▸ field "children" list_head
    ▸ field "rstat_css_node" list_head
    ▸ field "id" int
    ▸ field "flags" unsigned_int
    ▸ field "serial_nr" u64
    ▸ field "online_cnt" atomic_t
    ▸ field "destroy_work" work_struct
    ▸ field "destroy_rwork" rcu_work
    ▸ field "parent" (ptr "struct cgroup_subsys_state")
    ▸ end)

unfoldable pub cgroup_file : CType
unfolding timer_list
cgroup_file = struct (
    field "kn" (ptr "struct kernfs_node")
    ▸ field "notified_at" long_unsigned_int
    ▸ field "notify_timer" timer_list
    ▸ end)

unfoldable pub task_cputime : CType
task_cputime =
    struct (
      field "stime" u64 ▸ field "utime" u64 ▸ field "sum_exec_runtime" long_long_unsigned_int ▸ end)

unfoldable pub cgroup_base_stat : CType
unfolding task_cputime
cgroup_base_stat = struct (field "cputime" task_cputime ▸ end)

unfoldable pub delayed_work : CType
unfolding work_struct timer_list
delayed_work = struct (
    field "work" work_struct
    ▸ field "timer" timer_list
    ▸ field "wq" (ptr "struct workqueue_struct")
    ▸ field "cpu" int
    ▸ end)

unfoldable pub psi_group : CType
unfolding mutex delayed_work timer_list atomic_t list_head wait_queue_head
psi_group = struct (
    field "avgs_lock" mutex
    ▸ field "pcpu" (ptr "struct psi_group_cpu")
    ▸ field "avg_total" (array u64 6)
    ▸ field "avg_last_update" u64
    ▸ field "avg_next_update" u64
    ▸ field "avgs_work" delayed_work
    ▸ field "total" (array u64 12)
    ▸ field "avg" (array long_unsigned_int 18)
    ▸ field "poll_task" (ptr "struct task_struct")
    ▸ field "poll_timer" timer_list
    ▸ field "poll_wait" wait_queue_head_t
    ▸ field "poll_wakeup" atomic_t
    ▸ field "trigger_lock" mutex
    ▸ field "triggers" list_head
    ▸ field "nr_triggers" (array u32 6)
    ▸ field "poll_states" u32
    ▸ field "poll_min_period" u64
    ▸ field "polling_total" (array u64 6)
    ▸ field "polling_next_update" u64
    ▸ field "polling_until" u64
    ▸ end)

unfoldable pub cgroup_bpf : CType
unfolding list_head percpu_ref work_struct
cgroup_bpf = struct (
    field "effective" (array (ptr "struct bpf_prog_array") 23)
    ▸ field "progs" (array list_head 23)
    ▸ field "flags" (array u32 23)
    ▸ field "storages" list_head
    ▸ field "inactive" (ptr "struct bpf_prog_array")
    ▸ field "refcnt" percpu_ref
    ▸ field "release_work" work_struct
    ▸ end)

unfoldable pub cgroup_freezer_state : CType
cgroup_freezer_state = struct (
    field "freeze" bool
    ▸ field "e_freeze" int
    ▸ field "nr_frozen_descendants" int
    ▸ field "nr_frozen_tasks" int
    ▸ end)

unfoldable pub cgroup : CType
unfolding cgroup_subsys_state cgroup_file list_head cgroup_base_stat prev_cputime mutex work_struct
    psi_group cgroup_bpf atomic_t cgroup_freezer_state wait_queue_head
cgroup = struct (
    field "self" cgroup_subsys_state
    ▸ field "flags" long_unsigned_int
    ▸ field "level" int
    ▸ field "max_depth" int
    ▸ field "nr_descendants" int
    ▸ field "nr_dying_descendants" int
    ▸ field "max_descendants" int
    ▸ field "nr_populated_csets" int
    ▸ field "nr_populated_domain_children" int
    ▸ field "nr_populated_threaded_children" int
    ▸ field "nr_threaded_children" int
    ▸ field "kn" (ptr "struct kernfs_node")
    ▸ field "procs_file" cgroup_file
    ▸ field "events_file" cgroup_file
    ▸ field "subtree_control" u16
    ▸ field "subtree_ss_mask" u16
    ▸ field "old_subtree_control" u16
    ▸ field "old_subtree_ss_mask" u16
    ▸ field "subsys" (array (ptr "struct cgroup_subsys_state") 14)
    ▸ field "root" (ptr "struct cgroup_root")
    ▸ field "cset_links" list_head
    ▸ field "e_csets" (array list_head 14)
    ▸ field "dom_cgrp" (ptr "struct cgroup")
    ▸ field "old_dom_cgrp" (ptr "struct cgroup")
    ▸ field "rstat_cpu" (ptr "struct cgroup_rstat_cpu")
    ▸ field "rstat_css_list" list_head
    ▸ field "last_bstat" cgroup_base_stat
    ▸ field "bstat" cgroup_base_stat
    ▸ field "prev_cputime" prev_cputime
    ▸ field "pidlists" list_head
    ▸ field "pidlist_mutex" mutex
    ▸ field "offline_waitq" wait_queue_head_t
    ▸ field "release_agent_work" work_struct
    ▸ field "psi" psi_group
    ▸ field "bpf" cgroup_bpf
    ▸ field "congestion_count" atomic_t
    ▸ field "freezer" cgroup_freezer_state
    ▸ field "ancestor_ids" (array u64 0)
    ▸ end)
