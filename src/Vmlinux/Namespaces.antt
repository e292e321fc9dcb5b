-- ===== src/Vmlinux/Namespaces.antt =====
-- pkg/ebpf/include/amd64/vmlinux.h: namespaces, on the path from a task to its mount namespace number.
use kapprofiler.Layout.{CType, end, field, ptr, struct, ◌▸◌}
use kapprofiler.Vmlinux.Scalars.{atomic64_t, atomic_t, u64, unsigned_int}
use kapprofiler.Vmlinux.Basic.{
  atomic_long_t, list_head, refcount_struct, refcount_t, spinlock, spinlock_t,
}

unfoldable pub ns_common : CType
unfolding atomic64_t refcount_struct
ns_common = struct (
    field "stashed" atomic_long_t
    ▸ field "ops" (ptr "const struct proc_ns_operations")
    ▸ field "inum" unsigned_int
    ▸ field "count" refcount_t
    ▸ end)

unfoldable pub wait_queue_head : CType
unfolding list_head spinlock
wait_queue_head = struct (field "lock" spinlock_t ▸ field "head" list_head ▸ end)

abbrev pub wait_queue_head_t : CType
wait_queue_head_t = wait_queue_head

unfoldable pub mnt_namespace : CType
unfolding ns_common list_head spinlock wait_queue_head
mnt_namespace = struct (
    field "ns" ns_common
    ▸ field "root" (ptr "struct mount")
    ▸ field "list" list_head
    ▸ field "ns_lock" spinlock_t
    ▸ field "user_ns" (ptr "struct user_namespace")
    ▸ field "ucounts" (ptr "struct ucounts")
    ▸ field "seq" u64
    ▸ field "poll" wait_queue_head_t
    ▸ field "event" u64
    ▸ field "mounts" unsigned_int
    ▸ field "pending_mounts" unsigned_int
    ▸ end)

unfoldable pub nsproxy : CType
unfolding atomic_t
nsproxy = struct (
    field "count" atomic_t
    ▸ field "uts_ns" (ptr "struct uts_namespace")
    ▸ field "ipc_ns" (ptr "struct ipc_namespace")
    ▸ field "mnt_ns" (ptr "struct mnt_namespace")
    ▸ field "pid_ns_for_children" (ptr "struct pid_namespace")
    ▸ field "net_ns" (ptr "struct net")
    ▸ field "time_ns" (ptr "struct time_namespace")
    ▸ field "time_ns_for_children" (ptr "struct time_namespace")
    ▸ field "cgroup_ns" (ptr "struct cgroup_namespace")
    ▸ end)
