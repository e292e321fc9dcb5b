-- ===== src/Vmlinux/Ipc.antt =====
-- pkg/ebpf/include/amd64/vmlinux.h: the namespace of inter-process communication.
use kapprofiler.Layout.{CType, array, end, field, ptr, struct, ◌▸◌}
use kapprofiler.Vmlinux.Scalars.{
  atomic_t, bool, int, long_unsigned_int, short_unsigned_int, size_t, u16, unsigned_int,
}
use kapprofiler.Vmlinux.Basic.{mutex, spinlock, spinlock_t}
use kapprofiler.Vmlinux.Sched.{llist_node}
use kapprofiler.Vmlinux.Namespaces.{ns_common}
use kapprofiler.Vmlinux.Signals.{rw_semaphore}
use kapprofiler.Vmlinux.Proxies.{idr}
use kapprofiler.Vmlinux.Memory.{work_struct}
use kapprofiler.Vmlinux.Users.{ctl_table_set}

abbrev pub rht_hashfn_t : CType
rht_hashfn_t = ptr "u32 (const void *, u32, u32)"

abbrev pub rht_obj_hashfn_t : CType
rht_obj_hashfn_t = ptr "u32 (const void *, u32, u32)"

abbrev pub rht_obj_cmpfn_t : CType
rht_obj_cmpfn_t = ptr "int (struct rhashtable_compare_arg *, const void *)"

unfoldable pub rhashtable_params : CType
rhashtable_params = struct (
    field "nelem_hint" u16
    ▸ field "key_len" u16
    ▸ field "key_offset" u16
    ▸ field "head_offset" u16
    ▸ field "max_size" unsigned_int
    ▸ field "min_size" u16
    ▸ field "automatic_shrinking" bool
    ▸ field "hashfn" rht_hashfn_t
    ▸ field "obj_hashfn" rht_obj_hashfn_t
    ▸ field "obj_cmpfn" rht_obj_cmpfn_t
    ▸ end)

unfoldable pub rhashtable : CType
unfolding rhashtable_params work_struct mutex atomic_t spinlock
rhashtable = struct (
    field "tbl" (ptr "struct bucket_table")
    ▸ field "key_len" unsigned_int
    ▸ field "max_elems" unsigned_int
    ▸ field "p" rhashtable_params
    ▸ field "rhlist" bool
    ▸ field "run_work" work_struct
    ▸ field "mutex" mutex
    ▸ field "lock" spinlock_t
    ▸ field "nelems" atomic_t
    ▸ end)

unfoldable pub ipc_ids : CType
unfolding rw_semaphore idr rhashtable
ipc_ids = struct (
    field "in_use" int
    ▸ field "seq" short_unsigned_int
    ▸ field "rwsem" rw_semaphore
    ▸ field "ipcs_idr" idr
    ▸ field "max_idx" int
    ▸ field "last_idx" int
    ▸ field "next_id" int
    ▸ field "key_ht" rhashtable
    ▸ end)

abbrev pub notifier_fn_t : CType
notifier_fn_t = ptr "int (struct notifier_block *, long unsigned int, void *)"

unfoldable pub notifier_block : CType
notifier_block = struct (
    field "notifier_call" notifier_fn_t
    ▸ field "next" (ptr "struct notifier_block")
    ▸ field "priority" int
    ▸ end)

unfoldable pub ipc_namespace : CType
unfolding ipc_ids atomic_t notifier_block ctl_table_set llist_node ns_common
ipc_namespace = struct (
    field "ids" (array ipc_ids 3)
    ▸ field "sem_ctls" (array int 4)
    ▸ field "used_sems" int
    ▸ field "msg_ctlmax" unsigned_int
    ▸ field "msg_ctlmnb" unsigned_int
    ▸ field "msg_ctlmni" unsigned_int
    ▸ field "msg_bytes" atomic_t
    ▸ field "msg_hdrs" atomic_t
    ▸ field "shm_ctlmax" size_t
    ▸ field "shm_ctlall" size_t
    ▸ field "shm_tot" long_unsigned_int
    ▸ field "shm_ctlmni" int
    ▸ field "shm_rmid_forced" int
    ▸ field "ipcns_nb" notifier_block
    ▸ field "mq_mnt" (ptr "struct vfsmount")
    ▸ field "mq_queues_count" unsigned_int
    ▸ field "mq_queues_max" unsigned_int
    ▸ field "mq_msg_max" unsigned_int
    ▸ field "mq_msgsize_max" unsigned_int
    ▸ field "mq_msg_default" unsigned_int
    ▸ field "mq_msgsize_default" unsigned_int
    ▸ field "mq_set" ctl_table_set
    ▸ field "mq_sysctls" (ptr "struct ctl_table_header")
    ▸ field "ipc_set" ctl_table_set
    ▸ field "ipc_sysctls" (ptr "struct ctl_table_header")
    ▸ field "user_ns" (ptr "struct user_namespace")
    ▸ field "ucounts" (ptr "struct ucounts")
    ▸ field "mnt_llist" llist_node
    ▸ field "ns" ns_common
    ▸ end)
