-- ===== src/Vmlinux/Memory.antt =====
-- pkg/ebpf/include/amd64/vmlinux.h: the address space of a process.
use kapprofiler.Layout.{CType, anon, array, end, field, ptr, struct, ◌▸◌}
use kapprofiler.Vmlinux.Scalars.{
  atomic64_t, atomic_t, int, long_unsigned_int, short_int, short_unsigned_int, u16, u32, u64,
}
use kapprofiler.Vmlinux.Basic.{
  atomic_long_t, list_head, mutex, seqcount, seqcount_t, spinlock, spinlock_t,
}
use kapprofiler.Vmlinux.Sched.{rb_root}
use kapprofiler.Vmlinux.Signals.{rw_semaphore}

unfoldable pub mm_rss_stat : CType
unfolding atomic64_t
mm_rss_stat = struct (field "count" (array atomic_long_t 4) ▸ end)

abbrev pub __s16 : CType
__s16 = short_int

abbrev pub s16 : CType
s16 = __s16

unfoldable pub mm_context_t : CType
unfolding atomic64_t rw_semaphore mutex atomic_t
mm_context_t = struct (
    field "ctx_id" u64
    ▸ field "tlb_gen" atomic64_t
    ▸ field "ldt_usr_sem" rw_semaphore
    ▸ field "ldt" (ptr "struct ldt_struct")
    ▸ field "flags" short_unsigned_int
    ▸ field "lock" mutex
    ▸ field "vdso" (ptr "void")
    ▸ field "vdso_image" (ptr "const struct vdso_image")
    ▸ field "perf_rdpmc_allowed" atomic_t
    ▸ field "pkey_allocation_map" u16
    ▸ field "execute_only_pkey" s16
    ▸ end)

unfoldable pub uprobes_state : CType
uprobes_state = struct (field "xol_area" (ptr "struct xol_area") ▸ end)

abbrev pub work_func_t : CType
work_func_t = ptr "void (struct work_struct *)"

unfoldable pub work_struct : CType
unfolding list_head atomic64_t
work_struct =
    struct (field "data" atomic_long_t ▸ field "entry" list_head ▸ field "func" work_func_t ▸ end)

unfoldable pub mm_struct : CType
unfolding rb_root atomic_t rw_semaphore list_head atomic64_t mm_rss_stat mm_context_t uprobes_state
    work_struct seqcount spinlock
mm_struct = struct (
    anon (
      struct (
        field "mmap" (ptr "struct vm_area_struct")
        ▸ field "mm_rb" rb_root
        ▸ field "vmacache_seqnum" u64
        ▸ field "get_unmapped_area" (
            ptr
              "long unsigned int (struct file *, long unsigned int, long unsigned int, long unsigned int, long unsigned int)")
        ▸ field "mmap_base" long_unsigned_int
        ▸ field "mmap_legacy_base" long_unsigned_int
        ▸ field "mmap_compat_base" long_unsigned_int
        ▸ field "mmap_compat_legacy_base" long_unsigned_int
        ▸ field "task_size" long_unsigned_int
        ▸ field "highest_vm_end" long_unsigned_int
        ▸ field "pgd" (ptr "pgd_t")
        ▸ field "membarrier_state" atomic_t
        ▸ field "mm_users" atomic_t
        ▸ field "mm_count" atomic_t
        ▸ field "pgtables_bytes" atomic_long_t
        ▸ field "map_count" int
        ▸ field "page_table_lock" spinlock_t
        ▸ field "mmap_lock" rw_semaphore
        ▸ field "mmlist" list_head
        ▸ field "hiwater_rss" long_unsigned_int
        ▸ field "hiwater_vm" long_unsigned_int
        ▸ field "total_vm" long_unsigned_int
        ▸ field "locked_vm" long_unsigned_int
        ▸ field "pinned_vm" atomic64_t
        ▸ field "data_vm" long_unsigned_int
        ▸ field "exec_vm" long_unsigned_int
        ▸ field "stack_vm" long_unsigned_int
        ▸ field "def_flags" long_unsigned_int
        ▸ field "write_protect_seq" seqcount_t
        ▸ field "arg_lock" spinlock_t
        ▸ field "start_code" long_unsigned_int
        ▸ field "end_code" long_unsigned_int
        ▸ field "start_data" long_unsigned_int
        ▸ field "end_data" long_unsigned_int
        ▸ field "start_brk" long_unsigned_int
        ▸ field "brk" long_unsigned_int
        ▸ field "start_stack" long_unsigned_int
        ▸ field "arg_start" long_unsigned_int
        ▸ field "arg_end" long_unsigned_int
        ▸ field "env_start" long_unsigned_int
        ▸ field "env_end" long_unsigned_int
        ▸ field "saved_auxv" (array long_unsigned_int 48)
        ▸ field "rss_stat" mm_rss_stat
        ▸ field "binfmt" (ptr "struct linux_binfmt")
        ▸ field "context" mm_context_t
        ▸ field "flags" long_unsigned_int
        ▸ field "ioctx_lock" spinlock_t
        ▸ field "ioctx_table" (ptr "struct kioctx_table")
        ▸ field "owner" (ptr "struct task_struct")
        ▸ field "user_ns" (ptr "struct user_namespace")
        ▸ field "exe_file" (ptr "struct file")
        ▸ field "notifier_subscriptions" (ptr "struct mmu_notifier_subscriptions")
        ▸ field "numa_next_scan" long_unsigned_int
        ▸ field "numa_scan_offset" long_unsigned_int
        ▸ field "numa_scan_seq" int
        ▸ field "tlb_flush_pending" atomic_t
        ▸ field "tlb_flush_batched" atomic_t
        ▸ field "uprobes_state" uprobes_state
        ▸ field "hugetlb_usage" atomic_long_t
        ▸ field "async_put_work" work_struct
        ▸ field "pasid" u32
        ▸ field "ksm_merging_pages" long_unsigned_int
        ▸ end))
    ▸ field "cpu_bitmap" (array long_unsigned_int 0)
    ▸ end)
