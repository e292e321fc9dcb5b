-- ===== src/Vmlinux/Basic.antt =====
-- pkg/ebpf/include/amd64/vmlinux.h: lists, atomics, locks and counters.
use kapprofiler.Layout.{CType, anon, end, field, ptr, struct, union, ◌▸◌}
use kapprofiler.Vmlinux.Scalars.{atomic64_t, atomic_t, u16, u8, unsigned_int}

unfoldable pub refcount_struct : CType
unfolding atomic_t
refcount_struct = struct (field "refs" atomic_t ▸ end)

abbrev pub refcount_t : CType
refcount_t = refcount_struct

unfoldable pub list_head : CType
list_head =
    struct (field "next" (ptr "struct list_head") ▸ field "prev" (ptr "struct list_head") ▸ end)

unfoldable pub hlist_head : CType
hlist_head = struct (field "first" (ptr "struct hlist_node") ▸ end)

unfoldable pub hlist_node : CType
hlist_node =
    struct
      (field "next" (ptr "struct hlist_node") ▸ field "pprev" (ptr "struct hlist_node *") ▸ end)

unfoldable pub qspinlock : CType
unfolding atomic_t
qspinlock = struct (
    anon (
      union (
        field "val" atomic_t
        ▸ anon (struct (field "locked" u8 ▸ field "pending" u8 ▸ end))
        ▸ anon (struct (field "locked_pending" u16 ▸ field "tail" u16 ▸ end))
        ▸ end))
    ▸ end)

abbrev pub arch_spinlock_t : CType
arch_spinlock_t = qspinlock

unfoldable pub raw_spinlock : CType
unfolding qspinlock
raw_spinlock = struct (field "raw_lock" arch_spinlock_t ▸ end)

abbrev pub raw_spinlock_t : CType
raw_spinlock_t = raw_spinlock

unfoldable pub callback_head : CType
callback_head = struct (
    field "next" (ptr "struct callback_head")
    ▸ field "func" (ptr "void (struct callback_head *)")
    ▸ end)

unfoldable pub spinlock : CType
unfolding raw_spinlock
spinlock = struct (anon (union (field "rlock" raw_spinlock ▸ end)) ▸ end)

abbrev pub spinlock_t : CType
spinlock_t = spinlock

unfoldable pub seqcount : CType
seqcount = struct (field "sequence" unsigned_int ▸ end)

abbrev pub seqcount_t : CType
seqcount_t = seqcount

unfoldable pub seqcount_spinlock : CType
unfolding seqcount
seqcount_spinlock = struct (field "seqcount" seqcount_t ▸ end)

abbrev pub seqcount_spinlock_t : CType
seqcount_spinlock_t = seqcount_spinlock

abbrev pub atomic_long_t : CType
atomic_long_t = atomic64_t

unfoldable pub optimistic_spin_queue : CType
unfolding atomic_t
optimistic_spin_queue = struct (field "tail" atomic_t ▸ end)

unfoldable pub mutex : CType
unfolding optimistic_spin_queue list_head atomic64_t raw_spinlock
mutex = struct (
    field "owner" atomic_long_t
    ▸ field "wait_lock" raw_spinlock_t
    ▸ field "osq" optimistic_spin_queue
    ▸ field "wait_list" list_head
    ▸ end)
