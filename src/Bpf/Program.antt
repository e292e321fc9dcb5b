-- ===== src/Bpf/Program.antt =====
-- pkg/ebpf/gadgets/randomx/tracer/bpf/randomx.bpf.c and randomx.h.
use Prim.Native.Nat.{bit_and}
use kapprofiler.Base.{
  ℕ, ◌/◌, ◌%◌, ◌^◌, ◌-◌, Bool, not, ◌&&◌, Option, none, some, List, [], ◌∷◌, eqb, leb,
  if◌then◌else◌,
}
use kapprofiler.Layout.{CType, field, pad, struct, end, ◌▸◌}
use kapprofiler.Bpf.Kernel.{Kernel, core_read}
use kapprofiler.Bpf.Filter.{read_mntns_id, gadget_should_discard_mntns_id}
use kapprofiler.Vmlinux.Scalars.{unsigned_int, unsigned_char, long_int}
use kapprofiler.Vmlinux.Fpu.{fpu, fpstate, fpregs_state}
use kapprofiler.Vmlinux.Task.{task_struct}
use kapprofiler.Vmlinux.Trace.{trace_event_raw_x86_fpu}

-- `((uid_t)-1)`
abbrev pub invalid_uid : ℕ
invalid_uid = 2 ^ 32 - 1

unfoldable pub valid_uid : ℕ → Bool
valid_uid uid = not (eqb uid invalid_uid)

unfoldable pub old_fpu : CType
unfolding fpregs_state
old_fpu = struct (
    field "last_cpu" unsigned_int
    ▸ field "initialized" unsigned_char
    ▸ pad long_int 24
    ▸ pad long_int 64
    ▸ pad long_int 64
    ▸ pad long_int 64
    ▸ pad long_int 64
    ▸ pad long_int 64
    ▸ pad long_int 64
    ▸ pad long_int 64
    ▸ field "state" fpregs_state
    ▸ end)

-- In `#if LINUX_KERNEL_VERSION <= …` the name is no macro but a variable that the loader fills
-- in, and the preprocessor reads a name that is no macro as 0.
abbrev pub linux_kernel_version : ℕ
linux_kernel_version = 0

-- The two ways to the MXCSR register. The one that is compiled in is chosen by `#if`.
unfoldable pub read_mxcsr : Kernel → ℕ → ℕ
read_mxcsr k p =
    if leb linux_kernel_version (k.kernel_version 5 15 0)
    then core_read k old_fpu ("state" ∷ "xsave" ∷ "i387" ∷ "mxcsr" ∷ []) p
    else core_read k fpstate ("regs" ∷ "xsave" ∷ "i387" ∷ "mxcsr" ∷ [])
        (core_read k fpu ("fpstate" ∷ []) p)

-- The program's variables that the loader sets before it starts, and its filter map.
pub record Config : Type 0 where
  pub targ_uid : ℕ
  pub gadget_filter_by_mntns : Bool
  pub gadget_mntns_filter_map : List (ℕ × ℕ)

pub record Event : Type 0 where
  pub timestamp : ℕ
  pub mntns_id : ℕ
  pub pid : ℕ
  pub ppid : ℕ
  pub uid : ℕ
  pub gid : ℕ
  pub comm : List ℕ

-- `(mxcsr & 0x6000) >> 13`
unfoldable pub fpcr_of : ℕ → ℕ
fpcr_of mxcsr = bit_and mxcsr 0x6000 / 2 ^ 13

-- `BPF_CORE_READ(current_task, real_parent, pid)`
unfoldable pub read_ppid : Kernel → ℕ → ℕ
read_ppid k task =
    core_read k task_struct ("pid" ∷ []) (core_read k task_struct ("real_parent" ∷ []) task)

-- `BPF_CORE_READ(ctx, fpu)`
unfoldable pub read_fpu : Kernel → ℕ → ℕ
read_fpu k ctx = core_read k trace_event_raw_x86_fpu ("fpu" ∷ []) ctx

-- The assignments to `event` before it is put out.
unfoldable pub fill_event : Kernel → ℕ → ℕ → Event
fill_event k uid_gid mntns_id = record {
  timestamp = k.ktime_boot_ns;
  mntns_id = mntns_id;
  pid = k.current_pid_tgid / 2 ^ 32;
  ppid = read_ppid k k.current_task;
  uid = uid_gid % 2 ^ 32;
  gid = uid_gid / 2 ^ 32;
  comm = k.current_comm;
}

-- What a run of the program puts out; it returns 0 in any case.
unfoldable pub x86_fpu_regs_deactivated : Config → Kernel → ℕ → Option Event
unfolding valid_uid gadget_should_discard_mntns_id fill_event
x86_fpu_regs_deactivated c k ctx =
    let uid_gid = k.current_uid_gid in
    let uid = uid_gid % 2 ^ 32 in
    let mntns_id = read_mntns_id k k.current_task in
    let p = read_fpu k ctx in
    let fpcr = fpcr_of (read_mxcsr k p) in
    if eqb k.current_task 0
    then none
    else if valid_uid c.targ_uid && not (eqb c.targ_uid uid)
    then none
    else if gadget_should_discard_mntns_id c.gadget_filter_by_mntns c.gadget_mntns_filter_map
        mntns_id
    then none
    else if eqb p 0
    then none
    else if eqb fpcr 0
    then none
    else some (fill_event k uid_gid mntns_id)
