-- ===== src/Vmlinux/Parts.antt =====
-- pkg/ebpf/include/amd64/vmlinux.h: the smaller records that a task embeds.
use kapprofiler.Layout.{CType, anon, array, end, enum, field, ptr, struct, union, ◌▸◌}
use kapprofiler.Base.{[], ◌∷◌}
use kapprofiler.Vmlinux.Scalars.{
  __u32, atomic_t, bool, clockid_t, int, long_unsigned_int, u32, u64, uid_t, unsigned_int,
}
use kapprofiler.Vmlinux.Basic.{callback_head, hlist_node, list_head}
use kapprofiler.Vmlinux.Sched.{cpumask, rb_root}

unfoldable pub thread_info : CType
thread_info = struct (
    field "flags" long_unsigned_int
    ▸ field "syscall_work" long_unsigned_int
    ▸ field "status" u32
    ▸ field "cpu" u32
    ▸ end)

unfoldable pub timespec_type : CType
timespec_type = enum (("TT_NONE", 0) ∷ ("TT_NATIVE", 1) ∷ ("TT_COMPAT", 2) ∷ [])

unfoldable pub restart_block : CType
unfolding timespec_type
restart_block = struct (
    field "arch_data" long_unsigned_int
    ▸ field "fn" (ptr "long int (struct restart_block *)")
    ▸ anon (
        union (
          field "futex" (
            struct (
              field "uaddr" (ptr "u32")
              ▸ field "val" u32
              ▸ field "flags" u32
              ▸ field "bitset" u32
              ▸ field "time" u64
              ▸ field "uaddr2" (ptr "u32")
              ▸ end))
          ▸ field "nanosleep" (
              struct (
                field "clockid" clockid_t
                ▸ field "type" timespec_type
                ▸ anon (
                    union (
                      field "rmtp" (ptr "struct __kernel_timespec")
                      ▸ field "compat_rmtp" (ptr "struct old_timespec32")
                      ▸ end))
                ▸ field "expires" u64
                ▸ end))
          ▸ field "poll" (
              struct (
                field "ufds" (ptr "struct pollfd")
                ▸ field "nfds" int
                ▸ field "has_timeout" int
                ▸ field "tv_sec" long_unsigned_int
                ▸ field "tv_nsec" long_unsigned_int
                ▸ end))
          ▸ end))
    ▸ end)

unfoldable pub rb_root_cached : CType
unfolding rb_root
rb_root_cached = struct (field "rb_root" rb_root ▸ field "rb_leftmost" (ptr "struct rb_node") ▸ end)

unfoldable pub timerqueue_head : CType
unfolding rb_root_cached
timerqueue_head = struct (field "rb_root" rb_root_cached ▸ end)

unfoldable pub posix_cputimer_base : CType
unfolding timerqueue_head
posix_cputimer_base = struct (field "nextevt" u64 ▸ field "tqhead" timerqueue_head ▸ end)

unfoldable pub posix_cputimers : CType
unfolding posix_cputimer_base
posix_cputimers = struct (
    field "bases" (array posix_cputimer_base 3)
    ▸ field "timers_active" unsigned_int
    ▸ field "expiry_active" unsigned_int
    ▸ end)

unfoldable pub posix_cputimers_work : CType
unfolding callback_head
posix_cputimers_work = struct (field "work" callback_head ▸ field "scheduled" unsigned_int ▸ end)

unfoldable pub sysv_sem : CType
sysv_sem = struct (field "undo_list" (ptr "struct sem_undo_list") ▸ end)

unfoldable pub sysv_shm : CType
unfolding list_head
sysv_shm = struct (field "shm_clist" list_head ▸ end)

unfoldable pub sigset_t : CType
sigset_t = struct (field "sig" (array long_unsigned_int 1) ▸ end)

unfoldable pub sigpending : CType
unfolding list_head sigset_t
sigpending = struct (field "list" list_head ▸ field "signal" sigset_t ▸ end)

unfoldable pub kuid_t : CType
kuid_t = struct (field "val" uid_t ▸ end)

unfoldable pub seccomp : CType
unfolding atomic_t
seccomp = struct (
    field "mode" int
    ▸ field "filter_count" atomic_t
    ▸ field "filter" (ptr "struct seccomp_filter")
    ▸ end)

unfoldable pub syscall_user_dispatch : CType
syscall_user_dispatch = struct (
    field "selector" (ptr "char")
    ▸ field "offset" long_unsigned_int
    ▸ field "len" long_unsigned_int
    ▸ field "on_dispatch" bool
    ▸ end)

unfoldable pub wake_q_node : CType
wake_q_node = struct (field "next" (ptr "struct wake_q_node") ▸ end)

unfoldable pub task_io_accounting : CType
task_io_accounting = struct (
    field "rchar" u64
    ▸ field "wchar" u64
    ▸ field "syscr" u64
    ▸ field "syscw" u64
    ▸ field "read_bytes" u64
    ▸ field "write_bytes" u64
    ▸ field "cancelled_write_bytes" u64
    ▸ end)

unfoldable pub nodemask_t : CType
nodemask_t = struct (field "bits" (array long_unsigned_int 16) ▸ end)

unfoldable pub arch_tlbflush_unmap_batch : CType
unfolding cpumask
arch_tlbflush_unmap_batch = struct (field "cpumask" cpumask ▸ end)

unfoldable pub tlbflush_unmap_batch : CType
unfolding arch_tlbflush_unmap_batch
tlbflush_unmap_batch = struct (
    field "arch" arch_tlbflush_unmap_batch
    ▸ field "flush_required" bool
    ▸ field "writable" bool
    ▸ end)

unfoldable pub page_frag : CType
page_frag =
    struct (field "page" (ptr "struct page") ▸ field "offset" __u32 ▸ field "size" __u32 ▸ end)

unfoldable pub kmap_ctrl : CType
kmap_ctrl = struct (end)

unfoldable pub timer_list : CType
unfolding hlist_node
timer_list = struct (
    field "entry" hlist_node
    ▸ field "expires" long_unsigned_int
    ▸ field "function" (ptr "void (struct timer_list *)")
    ▸ field "flags" u32
    ▸ end)

unfoldable pub llist_head : CType
llist_head = struct (field "first" (ptr "struct llist_node") ▸ end)
