-- ===== src/Vmlinux/Users.antt =====
-- pkg/ebpf/include/amd64/vmlinux.h: process identifiers, users and user namespaces.
use kapprofiler.Layout.{CType, anon, array, end, field, ptr, struct, union, ◌▸◌}
use kapprofiler.Vmlinux.Scalars.{
  atomic64_t, atomic_t, bool, int, long_int, long_unsigned_int, s64, u32, unsigned_int,
}
use kapprofiler.Vmlinux.Basic.{
  atomic_long_t, callback_head, hlist_head, hlist_node, list_head, raw_spinlock, raw_spinlock_t,
  refcount_struct, refcount_t, spinlock, spinlock_t,
}
use kapprofiler.Vmlinux.Sched.{rb_root}
use kapprofiler.Vmlinux.Parts.{kuid_t}
use kapprofiler.Vmlinux.Namespaces.{ns_common, wait_queue_head, wait_queue_head_t}
use kapprofiler.Vmlinux.Credentials.{kgid_t}
use kapprofiler.Vmlinux.Signals.{rw_semaphore}
use kapprofiler.Vmlinux.Memory.{work_struct}

unfoldable pub upid : CType
upid = struct (field "nr" int ▸ field "ns" (ptr "struct pid_namespace") ▸ end)

unfoldable pub pid : CType
unfolding hlist_head callback_head upid refcount_struct spinlock wait_queue_head
pid = struct (
    field "count" refcount_t
    ▸ field "level" unsigned_int
    ▸ field "lock" spinlock_t
    ▸ field "tasks" (array hlist_head 4)
    ▸ field "inodes" hlist_head
    ▸ field "wait_pidfd" wait_queue_head_t
    ▸ field "rcu" callback_head
    ▸ field "numbers" (array upid 1)
    ▸ end)

unfoldable pub uid_gid_extent : CType
uid_gid_extent = struct (field "first" u32 ▸ field "lower_first" u32 ▸ field "count" u32 ▸ end)

unfoldable pub uid_gid_map : CType
unfolding uid_gid_extent
uid_gid_map = struct (
    field "nr_extents" u32
    ▸ anon (
        union (
          field "extent" (array uid_gid_extent 5)
          ▸ anon (
              struct (
                field "forward" (ptr "struct uid_gid_extent")
                ▸ field "reverse" (ptr "struct uid_gid_extent")
                ▸ end))
          ▸ end))
    ▸ end)

unfoldable pub ctl_table_header : CType
unfolding callback_head hlist_head
ctl_table_header = struct (
    anon (
      union (
        anon (
          struct (
            field "ctl_table" (ptr "struct ctl_table")
            ▸ field "used" int
            ▸ field "count" int
            ▸ field "nreg" int
            ▸ end))
        ▸ field "rcu" callback_head
        ▸ end))
    ▸ field "unregistering" (ptr "struct completion")
    ▸ field "ctl_table_arg" (ptr "struct ctl_table")
    ▸ field "root" (ptr "struct ctl_table_root")
    ▸ field "set" (ptr "struct ctl_table_set")
    ▸ field "parent" (ptr "struct ctl_dir")
    ▸ field "node" (ptr "struct ctl_node")
    ▸ field "inodes" hlist_head
    ▸ end)

unfoldable pub ctl_dir : CType
unfolding ctl_table_header rb_root
ctl_dir = struct (field "header" ctl_table_header ▸ field "root" rb_root ▸ end)

unfoldable pub ctl_table_set : CType
unfolding ctl_dir
ctl_table_set =
    struct (field "is_seen" (ptr "int (struct ctl_table_set *)") ▸ field "dir" ctl_dir ▸ end)

unfoldable pub user_namespace : CType
unfolding uid_gid_map kuid_t kgid_t ns_common list_head rw_semaphore work_struct ctl_table_set
user_namespace = struct (
    field "uid_map" uid_gid_map
    ▸ field "gid_map" uid_gid_map
    ▸ field "projid_map" uid_gid_map
    ▸ field "parent" (ptr "struct user_namespace")
    ▸ field "level" int
    ▸ field "owner" kuid_t
    ▸ field "group" kgid_t
    ▸ field "ns" ns_common
    ▸ field "flags" long_unsigned_int
    ▸ field "parent_could_setfcap" bool
    ▸ field "keyring_name_list" list_head
    ▸ field "user_keyring_register" (ptr "struct key")
    ▸ field "keyring_sem" rw_semaphore
    ▸ field "persistent_keyring_register" (ptr "struct key")
    ▸ field "work" work_struct
    ▸ field "set" ctl_table_set
    ▸ field "sysctls" (ptr "struct ctl_table_header")
    ▸ field "ucounts" (ptr "struct ucounts")
    ▸ field "ucount_max" (array long_int 16)
    ▸ end)

unfoldable pub percpu_counter : CType
unfolding list_head raw_spinlock
percpu_counter = struct (
    field "lock" raw_spinlock_t
    ▸ field "count" s64
    ▸ field "list" list_head
    ▸ field "counters" (ptr "s32")
    ▸ end)

unfoldable pub ratelimit_state : CType
unfolding raw_spinlock
ratelimit_state = struct (
    field "lock" raw_spinlock_t
    ▸ field "interval" int
    ▸ field "burst" int
    ▸ field "printed" int
    ▸ field "missed" int
    ▸ field "begin" long_unsigned_int
    ▸ field "flags" long_unsigned_int
    ▸ end)

unfoldable pub user_struct : CType
unfolding percpu_counter hlist_node kuid_t atomic_t ratelimit_state atomic64_t refcount_struct
user_struct = struct (
    field "__count" refcount_t
    ▸ field "epoll_watches" percpu_counter
    ▸ field "unix_inflight" long_unsigned_int
    ▸ field "pipe_bufs" atomic_long_t
    ▸ field "uidhash_node" hlist_node
    ▸ field "uid" kuid_t
    ▸ field "locked_vm" atomic_long_t
    ▸ field "nr_watches" atomic_t
    ▸ field "ratelimit" ratelimit_state
    ▸ end)

unfoldable pub group_info : CType
unfolding atomic_t kgid_t
group_info =
    struct (field "usage" atomic_t ▸ field "ngroups" int ▸ field "gid" (array kgid_t 0) ▸ end)
