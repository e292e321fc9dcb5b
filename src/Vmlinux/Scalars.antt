-- ===== src/Vmlinux/Scalars.antt =====
-- pkg/ebpf/include/amd64/vmlinux.h: integer types and typedefs.
use kapprofiler.Layout.{CType, end, field, scalar, struct, ◌▸◌}

-- The integer types of C, at their sizes on x86-64.
abbrev pub char : CType
char = scalar 1

abbrev pub signed_char : CType
signed_char = scalar 1

abbrev pub unsigned_char : CType
unsigned_char = scalar 1

abbrev pub short_int : CType
short_int = scalar 2

abbrev pub short_unsigned_int : CType
short_unsigned_int = scalar 2

abbrev pub int : CType
int = scalar 4

abbrev pub unsigned_int : CType
unsigned_int = scalar 4

abbrev pub long_int : CType
long_int = scalar 8

abbrev pub long_unsigned_int : CType
long_unsigned_int = scalar 8

abbrev pub long_long_int : CType
long_long_int = scalar 8

abbrev pub long_long_unsigned_int : CType
long_long_unsigned_int = scalar 8

abbrev pub c_bool : CType
c_bool = scalar 1

abbrev pub __u32 : CType
__u32 = unsigned_int

abbrev pub u32 : CType
u32 = __u32

unfoldable pub atomic_t : CType
atomic_t = struct (field "counter" int ▸ end)

abbrev pub __u16 : CType
__u16 = short_unsigned_int

abbrev pub u16 : CType
u16 = __u16

abbrev pub __u64 : CType
__u64 = long_long_unsigned_int

abbrev pub u64 : CType
u64 = __u64

abbrev pub __s64 : CType
__s64 = long_long_int

abbrev pub s64 : CType
s64 = __s64

abbrev pub __u8 : CType
__u8 = unsigned_char

abbrev pub u8 : CType
u8 = __u8

abbrev pub bool : CType
bool = c_bool

abbrev pub __kernel_clockid_t : CType
__kernel_clockid_t = int

abbrev pub clockid_t : CType
clockid_t = __kernel_clockid_t

abbrev pub __kernel_pid_t : CType
__kernel_pid_t = int

abbrev pub pid_t : CType
pid_t = __kernel_pid_t

abbrev pub __kernel_ulong_t : CType
__kernel_ulong_t = long_unsigned_int

abbrev pub __kernel_size_t : CType
__kernel_size_t = __kernel_ulong_t

abbrev pub size_t : CType
size_t = __kernel_size_t

abbrev pub __kernel_uid32_t : CType
__kernel_uid32_t = unsigned_int

abbrev pub uid_t : CType
uid_t = __kernel_uid32_t

unfoldable pub atomic64_t : CType
atomic64_t = struct (field "counter" s64 ▸ end)

abbrev pub gfp_t : CType
gfp_t = unsigned_int
