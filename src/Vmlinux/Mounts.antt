-- ===== src/Vmlinux/Mounts.antt =====
-- pkg/ebpf/include/amd64/vmlinux.h: mounts and the walk of a path.
use kapprofiler.Layout.{CType, anon, array, end, field, ptr, struct, union, ◌▸◌}
use kapprofiler.Vmlinux.Scalars.{__u32, int, unsigned_int}
use kapprofiler.Vmlinux.Basic.{callback_head, hlist_head, hlist_node, list_head}
use kapprofiler.Vmlinux.Sched.{llist_node}
use kapprofiler.Vmlinux.Parts.{kuid_t}
use kapprofiler.Vmlinux.Proxies.{path}
use kapprofiler.Vmlinux.Inodes.{qstr, umode_t}

unfoldable pub vfsmount : CType
vfsmount = struct (
    field "mnt_root" (ptr "struct dentry")
    ▸ field "mnt_sb" (ptr "struct super_block")
    ▸ field "mnt_flags" int
    ▸ field "mnt_userns" (ptr "struct user_namespace")
    ▸ end)

unfoldable pub mount : CType
unfolding hlist_node vfsmount callback_head llist_node list_head hlist_head
mount = struct (
    field "mnt_hash" hlist_node
    ▸ field "mnt_parent" (ptr "struct mount")
    ▸ field "mnt_mountpoint" (ptr "struct dentry")
    ▸ field "mnt" vfsmount
    ▸ anon (union (field "mnt_rcu" callback_head ▸ field "mnt_llist" llist_node ▸ end))
    ▸ field "mnt_pcp" (ptr "struct mnt_pcp")
    ▸ field "mnt_mounts" list_head
    ▸ field "mnt_child" list_head
    ▸ field "mnt_instance" list_head
    ▸ field "mnt_devname" (ptr "const char")
    ▸ field "mnt_list" list_head
    ▸ field "mnt_expire" list_head
    ▸ field "mnt_share" list_head
    ▸ field "mnt_slave_list" list_head
    ▸ field "mnt_slave" list_head
    ▸ field "mnt_master" (ptr "struct mount")
    ▸ field "mnt_ns" (ptr "struct mnt_namespace")
    ▸ field "mnt_mp" (ptr "struct mountpoint")
    ▸ anon (union (field "mnt_mp_list" hlist_node ▸ field "mnt_umount" hlist_node ▸ end))
    ▸ field "mnt_umounting" list_head
    ▸ field "mnt_fsnotify_marks" (ptr "struct fsnotify_mark_connector")
    ▸ field "mnt_fsnotify_mask" __u32
    ▸ field "mnt_id" int
    ▸ field "mnt_group_id" int
    ▸ field "mnt_expiry_mark" int
    ▸ field "mnt_pins" hlist_head
    ▸ field "mnt_stuck_children" hlist_head
    ▸ end)

unfoldable pub delayed_call : CType
delayed_call = struct (field "fn" (ptr "void (void *)") ▸ field "arg" (ptr "void") ▸ end)

unfoldable pub saved : CType
unfolding path delayed_call
saved = struct (
    field "link" path
    ▸ field "done" delayed_call
    ▸ field "name" (ptr "const char")
    ▸ field "seq" unsigned_int
    ▸ end)

unfoldable pub nameidata : CType
unfolding path qstr saved kuid_t
nameidata = struct (
    field "path" path
    ▸ field "last" qstr
    ▸ field "root" path
    ▸ field "inode" (ptr "struct inode")
    ▸ field "flags" unsigned_int
    ▸ field "state" unsigned_int
    ▸ field "seq" unsigned_int
    ▸ field "m_seq" unsigned_int
    ▸ field "r_seq" unsigned_int
    ▸ field "last_type" int
    ▸ field "depth" unsigned_int
    ▸ field "total_link_count" int
    ▸ field "stack" (ptr "struct saved")
    ▸ field "internal" (array saved 2)
    ▸ field "name" (ptr "struct filename")
    ▸ field "saved" (ptr "struct nameidata")
    ▸ field "root_seq" unsigned_int
    ▸ field "dfd" int
    ▸ field "dir_uid" kuid_t
    ▸ field "dir_mode" umode_t
    ▸ end)
