-- ===== src/Vmlinux/Fpu.antt =====
-- pkg/ebpf/include/amd64/vmlinux.h: the FPU register state and the thread record that embeds it.
use kapprofiler.Layout.{CType, anon, array, bits, end, field, pad, ptr, struct, union, ◌▸◌}
use kapprofiler.Vmlinux.Scalars.{
  long_int, long_unsigned_int, short_unsigned_int, u16, u32, u64, u8, unsigned_int,
}

unfoldable pub desc_struct : CType
desc_struct = struct (
    field "limit0" u16
    ▸ field "base0" u16
    ▸ bits "base1" u16 8
    ▸ bits "type" u16 4
    ▸ bits "s" u16 1
    ▸ bits "dpl" u16 2
    ▸ bits "p" u16 1
    ▸ bits "limit1" u16 4
    ▸ bits "avl" u16 1
    ▸ bits "l" u16 1
    ▸ bits "d" u16 1
    ▸ bits "g" u16 1
    ▸ bits "base2" u16 8
    ▸ end)

unfoldable pub fpu_state_perm : CType
fpu_state_perm = struct (
    field "__state_perm" u64
    ▸ field "__state_size" unsigned_int
    ▸ field "__user_state_size" unsigned_int
    ▸ end)

unfoldable pub fregs_state : CType
fregs_state = struct (
    field "cwd" u32
    ▸ field "swd" u32
    ▸ field "twd" u32
    ▸ field "fip" u32
    ▸ field "fcs" u32
    ▸ field "foo" u32
    ▸ field "fos" u32
    ▸ field "st_space" (array u32 20)
    ▸ field "status" u32
    ▸ end)

unfoldable pub fxregs_state : CType
fxregs_state = struct (
    field "cwd" u16
    ▸ field "swd" u16
    ▸ field "twd" u16
    ▸ field "fop" u16
    ▸ anon (
        union (
          anon (struct (field "rip" u64 ▸ field "rdp" u64 ▸ end))
          ▸ anon
              (struct (field "fip" u32 ▸ field "fcs" u32 ▸ field "foo" u32 ▸ field "fos" u32 ▸ end))
          ▸ end))
    ▸ field "mxcsr" u32
    ▸ field "mxcsr_mask" u32
    ▸ field "st_space" (array u32 32)
    ▸ field "xmm_space" (array u32 64)
    ▸ field "padding" (array u32 12)
    ▸ anon (union (field "padding1" (array u32 12) ▸ field "sw_reserved" (array u32 12) ▸ end))
    ▸ end)

unfoldable pub swregs_state : CType
swregs_state = struct (
    field "cwd" u32
    ▸ field "swd" u32
    ▸ field "twd" u32
    ▸ field "fip" u32
    ▸ field "fcs" u32
    ▸ field "foo" u32
    ▸ field "fos" u32
    ▸ field "st_space" (array u32 20)
    ▸ field "ftop" u8
    ▸ field "changed" u8
    ▸ field "lookahead" u8
    ▸ field "no_update" u8
    ▸ field "rm" u8
    ▸ field "alimit" u8
    ▸ field "info" (ptr "struct math_emu_info")
    ▸ field "entry_eip" u32
    ▸ end)

unfoldable pub xstate_header : CType
xstate_header =
    struct (field "xfeatures" u64 ▸ field "xcomp_bv" u64 ▸ field "reserved" (array u64 6) ▸ end)

unfoldable pub xregs_state : CType
unfolding fxregs_state xstate_header
xregs_state = struct (
    field "i387" fxregs_state
    ▸ field "header" xstate_header
    ▸ field "extended_state_area" (array u8 0)
    ▸ end)

unfoldable pub fpregs_state : CType
unfolding fregs_state fxregs_state swregs_state xregs_state
fpregs_state = union (
    field "fsave" fregs_state
    ▸ field "fxsave" fxregs_state
    ▸ field "soft" swregs_state
    ▸ field "xsave" xregs_state
    ▸ field "__padding" (array u8 4096)
    ▸ end)

unfoldable pub fpstate : CType
unfolding fpregs_state
fpstate = struct (
    field "size" unsigned_int
    ▸ field "user_size" unsigned_int
    ▸ field "xfeatures" u64
    ▸ field "user_xfeatures" u64
    ▸ field "xfd" u64
    ▸ bits "is_valloc" unsigned_int 1
    ▸ bits "is_guest" unsigned_int 1
    ▸ bits "is_confidential" unsigned_int 1
    ▸ bits "in_use" unsigned_int 1
    ▸ pad long_int 60
    ▸ pad long_int 64
    ▸ pad long_int 64
    ▸ pad long_int 64
    ▸ field "regs" fpregs_state
    ▸ end)

unfoldable pub fpu : CType
unfolding fpu_state_perm fpstate
fpu = struct (
    field "last_cpu" unsigned_int
    ▸ field "avx512_timestamp" long_unsigned_int
    ▸ field "fpstate" (ptr "struct fpstate")
    ▸ field "__task_fpstate" (ptr "struct fpstate")
    ▸ field "perm" fpu_state_perm
    ▸ field "guest_perm" fpu_state_perm
    ▸ field "__fpstate" fpstate
    ▸ end)

unfoldable pub thread_struct : CType
unfolding desc_struct fpu
thread_struct = struct (
    field "tls_array" (array desc_struct 3)
    ▸ field "sp" long_unsigned_int
    ▸ field "es" short_unsigned_int
    ▸ field "ds" short_unsigned_int
    ▸ field "fsindex" short_unsigned_int
    ▸ field "gsindex" short_unsigned_int
    ▸ field "fsbase" long_unsigned_int
    ▸ field "gsbase" long_unsigned_int
    ▸ field "ptrace_bps" (array (ptr "struct perf_event") 4)
    ▸ field "virtual_dr6" long_unsigned_int
    ▸ field "ptrace_dr7" long_unsigned_int
    ▸ field "cr2" long_unsigned_int
    ▸ field "trap_nr" long_unsigned_int
    ▸ field "error_code" long_unsigned_int
    ▸ field "io_bitmap" (ptr "struct io_bitmap")
    ▸ field "iopl_emul" long_unsigned_int
    ▸ bits "iopl_warn" unsigned_int 1
    ▸ bits "sig_on_uaccess_err" unsigned_int 1
    ▸ field "pkru" u32
    ▸ pad long_int 64
    ▸ pad long_int 64
    ▸ pad long_int 64
    ▸ pad long_int 64
    ▸ pad long_int 64
    ▸ field "fpu" fpu
    ▸ end)
