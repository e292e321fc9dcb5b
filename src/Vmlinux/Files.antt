-- ===== src/Vmlinux/Files.antt =====
-- pkg/ebpf/include/amd64/vmlinux.h: open files.
use kapprofiler.Layout.{CType, anon, array, end, enum, field, pad, ptr, struct, union, ◌▸◌}
use kapprofiler.Base.{[], ◌∷◌}
use kapprofiler.Vmlinux.Scalars.{
  atomic64_t, atomic_t, bool, int, long_int, long_unsigned_int, u64, u8, unsigned_int,
}
use kapprofiler.Vmlinux.Basic.{
  arch_spinlock_t, atomic_long_t, callback_head, mutex, qspinlock, spinlock, spinlock_t,
}
use kapprofiler.Vmlinux.Sched.{llist_node}
use kapprofiler.Vmlinux.Parts.{kuid_t}
use kapprofiler.Vmlinux.Namespaces.{wait_queue_head, wait_queue_head_t}
use kapprofiler.Vmlinux.Proxies.{path}
use kapprofiler.Vmlinux.Inodes.{errseq_t, loff_t}

unfoldable pub fdtable : CType
unfolding callback_head
fdtable = struct (
    field "max_fds" unsigned_int
    ▸ field "fd" (ptr "struct file *")
    ▸ field "close_on_exec" (ptr "long unsigned int")
    ▸ field "open_fds" (ptr "long unsigned int")
    ▸ field "full_fds_bits" (ptr "long unsigned int")
    ▸ field "rcu" callback_head
    ▸ end)

unfoldable pub files_struct : CType
unfolding atomic_t fdtable spinlock wait_queue_head
files_struct = struct (
    field "count" atomic_t
    ▸ field "resize_in_progress" bool
    ▸ field "resize_wait" wait_queue_head_t
    ▸ field "fdt" (ptr "struct fdtable")
    ▸ field "fdtab" fdtable
    ▸ pad long_int 64
    ▸ pad long_int 64
    ▸ pad long_int 64
    ▸ pad long_int 64
    ▸ field "file_lock" spinlock_t
    ▸ field "next_fd" unsigned_int
    ▸ field "close_on_exec_init" (array long_unsigned_int 1)
    ▸ field "open_fds_init" (array long_unsigned_int 1)
    ▸ field "full_fds_bits_init" (array long_unsigned_int 1)
    ▸ field "fd_array" (array (ptr "struct file") 64)
    ▸ pad long_int 64
    ▸ pad long_int 64
    ▸ pad long_int 64
    ▸ pad long_int 64
    ▸ end)

abbrev pub fmode_t : CType
fmode_t = unsigned_int

unfoldable pub qrwlock : CType
unfolding atomic_t qspinlock
qrwlock = struct (
    anon (
      union (
        field "cnts" atomic_t
        ▸ anon (struct (field "wlocked" u8 ▸ field "__lstate" (array u8 3) ▸ end))
        ▸ end))
    ▸ field "wait_lock" arch_spinlock_t
    ▸ end)

abbrev pub arch_rwlock_t : CType
arch_rwlock_t = qrwlock

unfoldable pub rwlock_t : CType
unfolding qrwlock
rwlock_t = struct (field "raw_lock" arch_rwlock_t ▸ end)

unfoldable pub pid_type : CType
pid_type = enum (
    ("PIDTYPE_PID", 0)
    ∷ ("PIDTYPE_TGID", 1)
    ∷ ("PIDTYPE_PGID", 2)
    ∷ ("PIDTYPE_SID", 3)
    ∷ ("PIDTYPE_MAX", 4)
    ∷ [])

unfoldable pub fown_struct : CType
unfolding rwlock_t pid_type kuid_t
fown_struct = struct (
    field "lock" rwlock_t
    ▸ field "pid" (ptr "struct pid")
    ▸ field "pid_type" pid_type
    ▸ field "uid" kuid_t
    ▸ field "euid" kuid_t
    ▸ field "signum" int
    ▸ end)

unfoldable pub file_ra_state : CType
file_ra_state = struct (
    field "start" long_unsigned_int
    ▸ field "size" unsigned_int
    ▸ field "async_size" unsigned_int
    ▸ field "ra_pages" unsigned_int
    ▸ field "mmap_miss" unsigned_int
    ▸ field "prev_pos" loff_t
    ▸ end)

unfoldable pub file : CType
unfolding llist_node callback_head path mutex fown_struct file_ra_state atomic64_t spinlock
file = struct (
    field "f_u" (union (field "fu_llist" llist_node ▸ field "fu_rcuhead" callback_head ▸ end))
    ▸ field "f_path" path
    ▸ field "f_inode" (ptr "struct inode")
    ▸ field "f_op" (ptr "const struct file_operations")
    ▸ field "f_lock" spinlock_t
    ▸ field "f_count" atomic_long_t
    ▸ field "f_flags" unsigned_int
    ▸ field "f_mode" fmode_t
    ▸ field "f_pos_lock" mutex
    ▸ field "f_pos" loff_t
    ▸ field "f_owner" fown_struct
    ▸ field "f_cred" (ptr "const struct cred")
    ▸ field "f_ra" file_ra_state
    ▸ field "f_version" u64
    ▸ field "f_security" (ptr "void")
    ▸ field "private_data" (ptr "void")
    ▸ field "f_ep" (ptr "struct hlist_head")
    ▸ field "f_mapping" (ptr "struct address_space")
    ▸ field "f_wb_err" errseq_t
    ▸ field "f_sb_err" errseq_t
    ▸ end)
