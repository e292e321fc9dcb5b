-- ===== src/Vmlinux/Inodes.antt =====
-- pkg/ebpf/include/amd64/vmlinux.h: inodes and directory entries.
use kapprofiler.Layout.{CType, anon, array, end, field, ptr, struct, union, ◌▸◌}
use kapprofiler.Vmlinux.Scalars.{
  __u32, __u64, atomic64_t, atomic_t, gfp_t, int, long_long_int, long_unsigned_int,
  short_unsigned_int, u16, u32, u64, u8, unsigned_char, unsigned_int,
}
use kapprofiler.Vmlinux.Basic.{
  callback_head, hlist_head, hlist_node, list_head, seqcount_spinlock, seqcount_spinlock_t,
  spinlock, spinlock_t,
}
use kapprofiler.Vmlinux.Parts.{kuid_t, rb_root_cached}
use kapprofiler.Vmlinux.Credentials.{kgid_t}
use kapprofiler.Vmlinux.Signals.{rw_semaphore}
use kapprofiler.Vmlinux.Proxies.{timespec64, xarray}

abbrev pub __kernel_loff_t : CType
__kernel_loff_t = long_long_int

abbrev pub loff_t : CType
loff_t = __kernel_loff_t

abbrev pub errseq_t : CType
errseq_t = u32

unfoldable pub hlist_bl_node : CType
hlist_bl_node =
    struct (
      field "next" (ptr "struct hlist_bl_node")
      ▸ field "pprev" (ptr "struct hlist_bl_node *")
      ▸ end)

unfoldable pub qstr : CType
qstr = struct (
    anon (
      union (anon (struct (field "hash" u32 ▸ field "len" u32 ▸ end)) ▸ field "hash_len" u64 ▸ end))
    ▸ field "name" (ptr "const unsigned char")
    ▸ end)

unfoldable pub lockref : CType
unfolding spinlock
lockref = struct (
    anon (
      union (
        field "lock_count" __u64
        ▸ anon (struct (field "lock" spinlock_t ▸ field "count" int ▸ end))
        ▸ end))
    ▸ end)

unfoldable pub dentry : CType
unfolding hlist_bl_node qstr lockref list_head hlist_node callback_head seqcount_spinlock
dentry = struct (
    field "d_flags" unsigned_int
    ▸ field "d_seq" seqcount_spinlock_t
    ▸ field "d_hash" hlist_bl_node
    ▸ field "d_parent" (ptr "struct dentry")
    ▸ field "d_name" qstr
    ▸ field "d_inode" (ptr "struct inode")
    ▸ field "d_iname" (array unsigned_char 32)
    ▸ field "d_lockref" lockref
    ▸ field "d_op" (ptr "const struct dentry_operations")
    ▸ field "d_sb" (ptr "struct super_block")
    ▸ field "d_time" long_unsigned_int
    ▸ field "d_fsdata" (ptr "void")
    ▸ anon (union (field "d_lru" list_head ▸ field "d_wait" (ptr "wait_queue_head_t") ▸ end))
    ▸ field "d_child" list_head
    ▸ field "d_subdirs" list_head
    ▸ field "d_u" (
        union (
          field "d_alias" hlist_node
          ▸ field "d_in_lookup_hash" hlist_bl_node
          ▸ field "d_rcu" callback_head
          ▸ end))
    ▸ end)

abbrev pub umode_t : CType
umode_t = short_unsigned_int

abbrev pub __kernel_dev_t : CType
__kernel_dev_t = u32

abbrev pub dev_t : CType
dev_t = __kernel_dev_t

abbrev pub blkcnt_t : CType
blkcnt_t = u64

unfoldable pub address_space : CType
unfolding xarray rw_semaphore atomic_t rb_root_cached list_head spinlock
address_space = struct (
    field "host" (ptr "struct inode")
    ▸ field "i_pages" xarray
    ▸ field "invalidate_lock" rw_semaphore
    ▸ field "gfp_mask" gfp_t
    ▸ field "i_mmap_writable" atomic_t
    ▸ field "i_mmap" rb_root_cached
    ▸ field "i_mmap_rwsem" rw_semaphore
    ▸ field "nrpages" long_unsigned_int
    ▸ field "writeback_index" long_unsigned_int
    ▸ field "a_ops" (ptr "const struct address_space_operations")
    ▸ field "flags" long_unsigned_int
    ▸ field "wb_err" errseq_t
    ▸ field "private_lock" spinlock_t
    ▸ field "private_list" list_head
    ▸ field "private_data" (ptr "void")
    ▸ end)

unfoldable pub inode : CType
unfolding kuid_t kgid_t timespec64 rw_semaphore hlist_node list_head hlist_head callback_head
    atomic64_t atomic_t address_space spinlock
inode = struct (
    field "i_mode" umode_t
    ▸ field "i_opflags" short_unsigned_int
    ▸ field "i_uid" kuid_t
    ▸ field "i_gid" kgid_t
    ▸ field "i_flags" unsigned_int
    ▸ field "i_acl" (ptr "struct posix_acl")
    ▸ field "i_default_acl" (ptr "struct posix_acl")
    ▸ field "i_op" (ptr "const struct inode_operations")
    ▸ field "i_sb" (ptr "struct super_block")
    ▸ field "i_mapping" (ptr "struct address_space")
    ▸ field "i_security" (ptr "void")
    ▸ field "i_ino" long_unsigned_int
    ▸ anon (union (field "i_nlink" unsigned_int ▸ field "__i_nlink" unsigned_int ▸ end))
    ▸ field "i_rdev" dev_t
    ▸ field "i_size" loff_t
    ▸ field "i_atime" timespec64
    ▸ field "i_mtime" timespec64
    ▸ field "i_ctime" timespec64
    ▸ field "i_lock" spinlock_t
    ▸ field "i_bytes" short_unsigned_int
    ▸ field "i_blkbits" u8
    ▸ field "i_write_hint" u8
    ▸ field "i_blocks" blkcnt_t
    ▸ field "i_state" long_unsigned_int
    ▸ field "i_rwsem" rw_semaphore
    ▸ field "dirtied_when" long_unsigned_int
    ▸ field "dirtied_time_when" long_unsigned_int
    ▸ field "i_hash" hlist_node
    ▸ field "i_io_list" list_head
    ▸ field "i_wb" (ptr "struct bdi_writeback")
    ▸ field "i_wb_frn_winner" int
    ▸ field "i_wb_frn_avg_time" u16
    ▸ field "i_wb_frn_history" u16
    ▸ field "i_lru" list_head
    ▸ field "i_sb_list" list_head
    ▸ field "i_wb_list" list_head
    ▸ anon (union (field "i_dentry" hlist_head ▸ field "i_rcu" callback_head ▸ end))
    ▸ field "i_version" atomic64_t
    ▸ field "i_sequence" atomic64_t
    ▸ field "i_count" atomic_t
    ▸ field "i_dio_count" atomic_t
    ▸ field "i_writecount" atomic_t
    ▸ field "i_readcount" atomic_t
    ▸ anon (
        union (
          field "i_fop" (ptr "const struct file_operations")
          ▸ field "free_inode" (ptr "void (struct inode *)")
          ▸ end))
    ▸ field "i_flctx" (ptr "struct file_lock_context")
    ▸ field "i_data" address_space
    ▸ field "i_devices" list_head
    ▸ anon (
        union (
          field "i_pipe" (ptr "struct pipe_inode_info")
          ▸ field "i_cdev" (ptr "struct cdev")
          ▸ field "i_link" (ptr "char")
          ▸ field "i_dir_seq" unsigned_int
          ▸ end))
    ▸ field "i_generation" __u32
    ▸ field "i_fsnotify_mask" __u32
    ▸ field "i_fsnotify_marks" (ptr "struct fsnotify_mark_connector")
    ▸ field "i_crypt_info" (ptr "struct fscrypt_info")
    ▸ field "i_verity_info" (ptr "struct fsverity_info")
    ▸ field "i_private" (ptr "void")
    ▸ end)
