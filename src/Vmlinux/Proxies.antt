-- ===== src/Vmlinux/Proxies.antt =====
-- pkg/ebpf/include/amd64/vmlinux.h: the other namespaces and the directories that a task points to.
use kapprofiler.Layout.{CType, array, end, field, ptr, struct, ◌▸◌}
use kapprofiler.Vmlinux.Scalars.{__s64, bool, char, gfp_t, int, long_int, unsigned_int}
use kapprofiler.Vmlinux.Basic.{
  callback_head, seqcount_spinlock, seqcount_spinlock_t, spinlock, spinlock_t,
}
use kapprofiler.Vmlinux.Namespaces.{ns_common}

unfoldable pub path : CType
path = struct (field "mnt" (ptr "struct vfsmount") ▸ field "dentry" (ptr "struct dentry") ▸ end)

unfoldable pub fs_struct : CType
unfolding path seqcount_spinlock spinlock
fs_struct = struct (
    field "users" int
    ▸ field "lock" spinlock_t
    ▸ field "seq" seqcount_spinlock_t
    ▸ field "umask" int
    ▸ field "in_exec" int
    ▸ field "root" path
    ▸ field "pwd" path
    ▸ end)

unfoldable pub new_utsname : CType
new_utsname = struct (
    field "sysname" (array char 65)
    ▸ field "nodename" (array char 65)
    ▸ field "release" (array char 65)
    ▸ field "version" (array char 65)
    ▸ field "machine" (array char 65)
    ▸ field "domainname" (array char 65)
    ▸ end)

unfoldable pub uts_namespace : CType
unfolding new_utsname ns_common
uts_namespace = struct (
    field "name" new_utsname
    ▸ field "user_ns" (ptr "struct user_namespace")
    ▸ field "ucounts" (ptr "struct ucounts")
    ▸ field "ns" ns_common
    ▸ end)

unfoldable pub xarray : CType
unfolding spinlock
xarray =
    struct
      (field "xa_lock" spinlock_t ▸ field "xa_flags" gfp_t ▸ field "xa_head" (ptr "void") ▸ end)

unfoldable pub idr : CType
unfolding xarray
idr =
    struct
      (field "idr_rt" xarray ▸ field "idr_base" unsigned_int ▸ field "idr_next" unsigned_int ▸ end)

unfoldable pub pid_namespace : CType
unfolding idr callback_head ns_common
pid_namespace = struct (
    field "idr" idr
    ▸ field "rcu" callback_head
    ▸ field "pid_allocated" unsigned_int
    ▸ field "child_reaper" (ptr "struct task_struct")
    ▸ field "pid_cachep" (ptr "struct kmem_cache")
    ▸ field "level" unsigned_int
    ▸ field "parent" (ptr "struct pid_namespace")
    ▸ field "bacct" (ptr "struct fs_pin")
    ▸ field "user_ns" (ptr "struct user_namespace")
    ▸ field "ucounts" (ptr "struct ucounts")
    ▸ field "reboot" int
    ▸ field "ns" ns_common
    ▸ end)

unfoldable pub cgroup_namespace : CType
unfolding ns_common
cgroup_namespace = struct (
    field "ns" ns_common
    ▸ field "user_ns" (ptr "struct user_namespace")
    ▸ field "ucounts" (ptr "struct ucounts")
    ▸ field "root_cset" (ptr "struct css_set")
    ▸ end)

abbrev pub time64_t : CType
time64_t = __s64

unfoldable pub timespec64 : CType
timespec64 = struct (field "tv_sec" time64_t ▸ field "tv_nsec" long_int ▸ end)

unfoldable pub timens_offsets : CType
unfolding timespec64
timens_offsets = struct (field "monotonic" timespec64 ▸ field "boottime" timespec64 ▸ end)

unfoldable pub time_namespace : CType
unfolding ns_common timens_offsets
time_namespace = struct (
    field "user_ns" (ptr "struct user_namespace")
    ▸ field "ucounts" (ptr "struct ucounts")
    ▸ field "ns" ns_common
    ▸ field "offsets" timens_offsets
    ▸ field "vvar_page" (ptr "struct page")
    ▸ field "frozen_offsets" bool
    ▸ end)
