-- ===== src/Vmlinux/Supers.antt =====
-- pkg/ebpf/include/amd64/vmlinux.h: super blocks.
use kapprofiler.Layout.{CType, array, end, field, pad, ptr, struct, ◌▸◌}
use kapprofiler.Vmlinux.Scalars.{
  __u16, __u32, __u8, atomic64_t, atomic_t, bool, char, int, long_int, long_long_int,
  long_unsigned_int, u32, unsigned_char, unsigned_int,
}
use kapprofiler.Vmlinux.Basic.{
  atomic_long_t, callback_head, hlist_head, hlist_node, list_head, mutex, spinlock, spinlock_t,
}
use kapprofiler.Vmlinux.Namespaces.{wait_queue_head, wait_queue_head_t}
use kapprofiler.Vmlinux.Signals.{rw_semaphore}
use kapprofiler.Vmlinux.Proxies.{time64_t, xarray}
use kapprofiler.Vmlinux.Memory.{work_struct}
use kapprofiler.Vmlinux.Inodes.{dev_t, errseq_t, loff_t}
use kapprofiler.Vmlinux.Files.{fmode_t}

unfoldable pub hlist_bl_head : CType
hlist_bl_head = struct (field "first" (ptr "struct hlist_bl_node") ▸ end)

abbrev pub qsize_t : CType
qsize_t = long_long_int

unfoldable pub mem_dqinfo : CType
unfolding list_head
mem_dqinfo = struct (
    field "dqi_format" (ptr "struct quota_format_type")
    ▸ field "dqi_fmt_id" int
    ▸ field "dqi_dirty_list" list_head
    ▸ field "dqi_flags" long_unsigned_int
    ▸ field "dqi_bgrace" unsigned_int
    ▸ field "dqi_igrace" unsigned_int
    ▸ field "dqi_max_spc_limit" qsize_t
    ▸ field "dqi_max_ino_limit" qsize_t
    ▸ field "dqi_priv" (ptr "void")
    ▸ end)

unfoldable pub quota_info : CType
unfolding rw_semaphore mem_dqinfo
quota_info = struct (
    field "flags" unsigned_int
    ▸ field "dqio_sem" rw_semaphore
    ▸ field "files" (array (ptr "struct inode") 3)
    ▸ field "info" (array mem_dqinfo 3)
    ▸ field "ops" (array (ptr "const struct quota_format_ops") 3)
    ▸ end)

unfoldable pub rcu_sync : CType
unfolding callback_head wait_queue_head
rcu_sync = struct (
    field "gp_state" int
    ▸ field "gp_count" int
    ▸ field "gp_wait" wait_queue_head_t
    ▸ field "cb_head" callback_head
    ▸ end)

unfoldable pub rcuwait : CType
rcuwait = struct (field "task" (ptr "struct task_struct") ▸ end)

unfoldable pub percpu_rw_semaphore : CType
unfolding rcu_sync rcuwait atomic_t wait_queue_head
percpu_rw_semaphore = struct (
    field "rss" rcu_sync
    ▸ field "read_count" (ptr "unsigned int")
    ▸ field "writer" rcuwait
    ▸ field "waiters" wait_queue_head_t
    ▸ field "block" atomic_t
    ▸ end)

unfoldable pub sb_writers : CType
unfolding percpu_rw_semaphore wait_queue_head
sb_writers = struct (
    field "frozen" int
    ▸ field "wait_unfrozen" wait_queue_head_t
    ▸ field "rw_sem" (array percpu_rw_semaphore 3)
    ▸ end)

unfoldable pub uuid_t : CType
uuid_t = struct (field "b" (array __u8 16) ▸ end)

unfoldable pub shrinker : CType
unfolding list_head
shrinker = struct (
    field "count_objects" (ptr "long unsigned int (struct shrinker *, struct shrink_control *)")
    ▸ field "scan_objects" (ptr "long unsigned int (struct shrinker *, struct shrink_control *)")
    ▸ field "batch" long_int
    ▸ field "seeks" int
    ▸ field "flags" unsigned_int
    ▸ field "list" list_head
    ▸ field "id" int
    ▸ field "nr_deferred" (ptr "atomic_long_t")
    ▸ end)

unfoldable pub list_lru : CType
unfolding list_head xarray
list_lru = struct (
    field "node" (ptr "struct list_lru_node")
    ▸ field "list" list_head
    ▸ field "shrinker_id" int
    ▸ field "memcg_aware" bool
    ▸ field "xa" xarray
    ▸ end)

unfoldable pub super_block : CType
unfolding list_head rw_semaphore atomic_t hlist_bl_head hlist_node quota_info sb_writers uuid_t
    mutex shrinker hlist_head list_lru callback_head work_struct atomic64_t spinlock
super_block = struct (
    field "s_list" list_head
    ▸ field "s_dev" dev_t
    ▸ field "s_blocksize_bits" unsigned_char
    ▸ field "s_blocksize" long_unsigned_int
    ▸ field "s_maxbytes" loff_t
    ▸ field "s_type" (ptr "struct file_system_type")
    ▸ field "s_op" (ptr "const struct super_operations")
    ▸ field "dq_op" (ptr "const struct dquot_operations")
    ▸ field "s_qcop" (ptr "const struct quotactl_ops")
    ▸ field "s_export_op" (ptr "const struct export_operations")
    ▸ field "s_flags" long_unsigned_int
    ▸ field "s_iflags" long_unsigned_int
    ▸ field "s_magic" long_unsigned_int
    ▸ field "s_root" (ptr "struct dentry")
    ▸ field "s_umount" rw_semaphore
    ▸ field "s_count" int
    ▸ field "s_active" atomic_t
    ▸ field "s_security" (ptr "void")
    ▸ field "s_xattr" (ptr "const struct xattr_handler *")
    ▸ field "s_cop" (ptr "const struct fscrypt_operations")
    ▸ field "s_master_keys" (ptr "struct key")
    ▸ field "s_vop" (ptr "const struct fsverity_operations")
    ▸ field "s_encoding" (ptr "struct unicode_map")
    ▸ field "s_encoding_flags" __u16
    ▸ field "s_roots" hlist_bl_head
    ▸ field "s_mounts" list_head
    ▸ field "s_bdev" (ptr "struct block_device")
    ▸ field "s_bdi" (ptr "struct backing_dev_info")
    ▸ field "s_mtd" (ptr "struct mtd_info")
    ▸ field "s_instances" hlist_node
    ▸ field "s_quota_types" unsigned_int
    ▸ field "s_dquot" quota_info
    ▸ field "s_writers" sb_writers
    ▸ field "s_fs_info" (ptr "void")
    ▸ field "s_time_gran" u32
    ▸ field "s_time_min" time64_t
    ▸ field "s_time_max" time64_t
    ▸ field "s_fsnotify_mask" __u32
    ▸ field "s_fsnotify_marks" (ptr "struct fsnotify_mark_connector")
    ▸ field "s_id" (array char 32)
    ▸ field "s_uuid" uuid_t
    ▸ field "s_max_links" unsigned_int
    ▸ field "s_mode" fmode_t
    ▸ field "s_vfs_rename_mutex" mutex
    ▸ field "s_subtype" (ptr "const char")
    ▸ field "s_d_op" (ptr "const struct dentry_operations")
    ▸ field "s_shrink" shrinker
    ▸ field "s_remove_count" atomic_long_t
    ▸ field "s_fsnotify_connectors" atomic_long_t
    ▸ field "s_readonly_remount" int
    ▸ field "s_wb_err" errseq_t
    ▸ field "s_dio_done_wq" (ptr "struct workqueue_struct")
    ▸ field "s_pins" hlist_head
    ▸ field "s_user_ns" (ptr "struct user_namespace")
    ▸ field "s_dentry_lru" list_lru
    ▸ field "s_inode_lru" list_lru
    ▸ field "rcu" callback_head
    ▸ field "destroy_work" work_struct
    ▸ field "s_sync_lock" mutex
    ▸ field "s_stack_depth" int
    ▸ pad long_int 32
    ▸ pad long_int 64
    ▸ pad long_int 64
    ▸ pad long_int 64
    ▸ pad long_int 64
    ▸ pad long_int 64
    ▸ field "s_inode_list_lock" spinlock_t
    ▸ field "s_inodes" list_head
    ▸ field "s_inode_wblist_lock" spinlock_t
    ▸ field "s_inodes_wb" list_head
    ▸ pad long_int 64
    ▸ pad long_int 64
    ▸ end)
