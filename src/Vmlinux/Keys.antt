-- ===== src/Vmlinux/Keys.antt =====
-- pkg/ebpf/include/amd64/vmlinux.h: keys and keyrings.
use kapprofiler.Layout.{CType, anon, array, end, field, ptr, struct, union, ◌▸◌}
use kapprofiler.Vmlinux.Scalars.{
  char, int, long_unsigned_int, short_int, short_unsigned_int, u16, u32,
}
use kapprofiler.Vmlinux.Basic.{list_head, refcount_struct, refcount_t}
use kapprofiler.Vmlinux.Sched.{rb_node}
use kapprofiler.Vmlinux.Parts.{kuid_t}
use kapprofiler.Vmlinux.Credentials.{kgid_t}
use kapprofiler.Vmlinux.Signals.{rw_semaphore}
use kapprofiler.Vmlinux.Proxies.{time64_t}

abbrev pub __s32 : CType
__s32 = int

abbrev pub s32 : CType
s32 = __s32

abbrev pub int32_t : CType
int32_t = s32

abbrev pub key_serial_t : CType
key_serial_t = int32_t

abbrev pub uint32_t : CType
uint32_t = u32

abbrev pub key_perm_t : CType
key_perm_t = uint32_t

unfoldable pub keyring_index_key : CType
keyring_index_key = struct (
    field "hash" long_unsigned_int
    ▸ anon (
        union (
          anon (struct (field "desc_len" u16 ▸ field "desc" (array char 6) ▸ end))
          ▸ field "x" long_unsigned_int
          ▸ end))
    ▸ field "type" (ptr "struct key_type")
    ▸ field "domain_tag" (ptr "struct key_tag")
    ▸ field "description" (ptr "const char")
    ▸ end)

unfoldable pub key_payload : CType
key_payload = union (field "rcu_data0" (ptr "void") ▸ field "data" (array (ptr "void") 4) ▸ end)

unfoldable pub assoc_array : CType
assoc_array = struct (
    field "root" (ptr "struct assoc_array_ptr") ▸ field "nr_leaves_on_tree" long_unsigned_int ▸ end)

unfoldable pub key : CType
unfolding list_head rb_node rw_semaphore kuid_t kgid_t keyring_index_key key_payload assoc_array
    refcount_struct
key = struct (
    field "usage" refcount_t
    ▸ field "serial" key_serial_t
    ▸ anon (union (field "graveyard_link" list_head ▸ field "serial_node" rb_node ▸ end))
    ▸ field "watchers" (ptr "struct watch_list")
    ▸ field "sem" rw_semaphore
    ▸ field "user" (ptr "struct key_user")
    ▸ field "security" (ptr "void")
    ▸ anon (union (field "expiry" time64_t ▸ field "revoked_at" time64_t ▸ end))
    ▸ field "last_used_at" time64_t
    ▸ field "uid" kuid_t
    ▸ field "gid" kgid_t
    ▸ field "perm" key_perm_t
    ▸ field "quotalen" short_unsigned_int
    ▸ field "datalen" short_unsigned_int
    ▸ field "state" short_int
    ▸ field "flags" long_unsigned_int
    ▸ anon (
        union (
          field "index_key" keyring_index_key
          ▸ anon (
              struct (
                field "hash" long_unsigned_int
                ▸ field "len_desc" long_unsigned_int
                ▸ field "type" (ptr "struct key_type")
                ▸ field "domain_tag" (ptr "struct key_tag")
                ▸ field "description" (ptr "char")
                ▸ end))
          ▸ end))
    ▸ anon (
        union (
          field "payload" key_payload
          ▸ anon (struct (field "name_link" list_head ▸ field "keys" assoc_array ▸ end))
          ▸ end))
    ▸ field "restrict_link" (ptr "struct key_restriction")
    ▸ end)
