-- ===== src/Tests/Bpf.antt =====
-- The BPF program on small kernels.
use kapprofiler.Base.{
  ℕ, ◌+◌, ◌*◌, ◌%◌, ◌^◌, ◌≡◌, refl, true, none, some, List, [], ◌∷◌, ltb, if◌then◌else◌, arith,
  lookup, nat_comparable, inl, inr,
}
use kapprofiler.Layout.{find_path, size_of}
use kapprofiler.Vmlinux.Task.{task_struct}
use kapprofiler.Vmlinux.Fpu.{fpu}
use kapprofiler.Vmlinux.Namespaces.{nsproxy, mnt_namespace}
use kapprofiler.Vmlinux.Trace.{trace_event_raw_x86_fpu}
use kapprofiler.Vmlinux.Enums.{bpf_func_id}
use kapprofiler.Bpf.Kernel.{Kernel, load, member_at, core_read, bpf_probe_read_kernel, get_or}
use kapprofiler.Bpf.Filter.{read_mntns_id}
use kapprofiler.Bpf.Buffer.{
  bpf_core_enum_value_exists, gadget_reserve_buf, gadget_submit_buf, gadget_discard_buf,
  ringbuf_reserve, ringbuf_submit, ringbuf_discard,
}
use kapprofiler.Bpf.Program.{
  Config, Event, read_mxcsr, fpcr_of, read_fpu, old_fpu, read_ppid, x86_fpu_regs_deactivated,
  invalid_uid,
}
use kapprofiler.Bpf.Event.{event_bytes, bpf_event}
use kapprofiler.Bpf.Mxcsr
use kapprofiler.Bpf.Emission
use kapprofiler.Bpf.Emission.{IsWanted, event_of}
use kapprofiler.Bpf.Transport

-- A task at 4096, its namespaces at 20480, its mount namespace, of number 7, at 24576; a
-- tracepoint record at 28672 and an FPU record at 32768, all other bytes 0.
abbrev cells : List (ℕ × ℕ)
cells =
    (4096 + 3057, 80)
    ∷ (20480 + 25, 96)
    ∷ (24576 + 16, 7)
    ∷ (28672 + 9, 128)
    ∷ (32768 + 89, 96)
    ∷ (4096 + 2513, 16)
    ∷ (4096 + 2496, 42)
    ∷ []

abbrev kernel : Kernel
kernel = record {
  memory = λ a. if ltb a 65536 then some (get_or (lookup a cells) 0) else none;
  current_task = 4096;
  current_uid_gid = 1000;
  current_pid_tgid = 42 * 2 ^ 32 + 43;
  ktime_boot_ns = 5;
  current_comm = 120 ∷ [];
  bpf_func_ids = bpf_func_id;
  kernel_version = λ a b c. a * 65536 + b * 256 + c;
}

abbrev config : Config
config = record {
  targ_uid = invalid_uid;
  gadget_filter_by_mntns = true;
  gadget_mntns_filter_map = (7, 0) ∷ [];
}

reads : Unit {0}
unfolding lookup find_path size_of task_struct nsproxy mnt_namespace trace_event_raw_x86_fpu load
    core_read member_at bpf_probe_read_kernel read_mntns_id read_fpu read_mxcsr old_fpu fpcr_of
    read_ppid fpu
reads = tt

kernel_reads :
    (read_mntns_id kernel 4096 ≡ 7) × (read_fpu kernel 28672 ≡ 32768) × (read_ppid kernel 4096 ≡ 42)
unfolding reads
kernel_reads = (refl, refl, refl)

wanted : IsWanted config kernel 28672 1000
unfolding reads
wanted = record {
  task = λ h. omega arith;
  user = inl refl;
  mount = inr (0, refl);
  fpu = λ h. omega arith;
  mode = λ h. omega arith;
}

abbrev the_event : Event
the_event = event_of kernel 42 1000 0

x86_fpu_regs_deactivated_iff_example : x86_fpu_regs_deactivated config kernel 28672 ≡ some the_event
x86_fpu_regs_deactivated_iff_example =
    (Emission.x86_fpu_regs_deactivated_iff config kernel 28672 42 43 1000 0 the_event refl
        (omega arith) refl (omega arith)).1
      (wanted, refl)

-- A memory whose bytes are their addresses.
abbrev counting : Kernel
counting = record kernel { memory = λ a. some (a % 256) }

counting-HasBytes : Mxcsr.HasBytes counting
counting-HasBytes a b h = ground arith

read_mxcsr-eq-xfd_example : read_mxcsr counting 0 ≡ 1532647768
unfolding reads
read_mxcsr-eq-xfd_example =
    Mxcsr.read_mxcsr-eq-xfd counting 0 6872032732664977752 counting-HasBytes refl

abbrev some_event : Event
some_event = record {
  timestamp = 2 ^ 63 + 5;
  mntns_id = 4026531840;
  pid = 300;
  ppid = 1;
  uid = 1000;
  gid = 1000;
  comm = 120 ∷ 109 ∷ 114 ∷ 105 ∷ 103 ∷ 0 ∷ 0 ∷ 0 ∷ 0 ∷ 0 ∷ 0 ∷ 0 ∷ 0 ∷ 0 ∷ 0 ∷ 0 ∷ [];
}

some_event-IsInRange : Transport.IsInRange some_event
some_event-IsInRange = record {
  timestamp = omega arith;
  mntns_id = omega arith;
  pid = omega arith;
  ppid = omega arith;
  uid = omega arith;
  gid = omega arith;
  comm = refl;
}

bpf_event-event_bytes_example : bpf_event (event_bytes some_event) ≡ record {
  timestamp = 2 ^ 63 + 5;
  mntns_id = 4026531840;
  pid = 300;
  ppid = 1;
  uid = 1000;
  gid = 1000;
  comm = some_event.comm;
}
bpf_event-event_bytes_example = Transport.bpf_event-event_bytes some_event some_event-IsInRange

-- vmlinux.h has the ring buffer's helpers.
ringbuf_helpers :
    (gadget_reserve_buf kernel 48 ≡ ringbuf_reserve 48)
    × ((gadget_submit_buf kernel 48 ≡ ringbuf_submit)
        × (gadget_discard_buf kernel ≡ some ringbuf_discard))
unfolding gadget_reserve_buf gadget_submit_buf gadget_discard_buf bpf_core_enum_value_exists lookup
    bpf_func_id
ringbuf_helpers = (refl, (refl, refl))
