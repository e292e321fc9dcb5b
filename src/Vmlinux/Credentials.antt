-- ===== src/Vmlinux/Credentials.antt =====
-- pkg/ebpf/include/amd64/vmlinux.h: the credentials that the user and group numbers of a task stand in.
use kapprofiler.Layout.{CType, anon, array, end, field, ptr, struct, union, ◌▸◌}
use kapprofiler.Vmlinux.Scalars.{__u32, atomic_t, int, unsigned_char, unsigned_int}
use kapprofiler.Vmlinux.Basic.{callback_head}
use kapprofiler.Vmlinux.Parts.{kuid_t}

abbrev pub __kernel_gid32_t : CType
__kernel_gid32_t = unsigned_int

abbrev pub gid_t : CType
gid_t = __kernel_gid32_t

unfoldable pub kgid_t : CType
kgid_t = struct (field "val" gid_t ▸ end)

unfoldable pub kernel_cap_struct : CType
kernel_cap_struct = struct (field "cap" (array __u32 2) ▸ end)

abbrev pub kernel_cap_t : CType
kernel_cap_t = kernel_cap_struct

unfoldable pub cred : CType
unfolding atomic_t kuid_t kgid_t callback_head kernel_cap_struct
cred = struct (
    field "usage" atomic_t
    ▸ field "uid" kuid_t
    ▸ field "gid" kgid_t
    ▸ field "suid" kuid_t
    ▸ field "sgid" kgid_t
    ▸ field "euid" kuid_t
    ▸ field "egid" kgid_t
    ▸ field "fsuid" kuid_t
    ▸ field "fsgid" kgid_t
    ▸ field "securebits" unsigned_int
    ▸ field "cap_inheritable" kernel_cap_t
    ▸ field "cap_permitted" kernel_cap_t
    ▸ field "cap_effective" kernel_cap_t
    ▸ field "cap_bset" kernel_cap_t
    ▸ field "cap_ambient" kernel_cap_t
    ▸ field "jit_keyring" unsigned_char
    ▸ field "session_keyring" (ptr "struct key")
    ▸ field "process_keyring" (ptr "struct key")
    ▸ field "thread_keyring" (ptr "struct key")
    ▸ field "request_key_auth" (ptr "struct key")
    ▸ field "security" (ptr "void")
    ▸ field "user" (ptr "struct user_struct")
    ▸ field "user_ns" (ptr "struct user_namespace")
    ▸ field "ucounts" (ptr "struct ucounts")
    ▸ field "group_info" (ptr "struct group_info")
    ▸ anon (union (field "non_rcu" int ▸ field "rcu" callback_head ▸ end))
    ▸ end)
