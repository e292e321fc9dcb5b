-- ===== src/Bpf/Emission.antt =====
-- When the program puts an event out, and which, in terms of the kernel's memory.
use kapprofiler.Base.{
  ℕ, ◌+◌, ◌-◌, ◌*◌, ◌/◌, ◌%◌, ◌^◌, ◌<◌, ◌≡◌, refl, ◌≢◌, ◌↔◌, ◌⊎◌, inl, inr, Bool, true, false, some,
  arith, lookup, Option-cases, List, nat_comparable, ap, ◌∙◌,
}
use kapprofiler.Bpf.Kernel.{Kernel}
use kapprofiler.Bpf.Filter.{read_mntns_id, gadget_should_discard_mntns_id}
use kapprofiler.Bpf.Program.{
  Config, Event, fpcr_of, read_mxcsr, read_fpu, fill_event, x86_fpu_regs_deactivated,
}
use kapprofiler.Bpf.Mxcsr.{read_mxcsr_lem}
use kapprofiler.Bpf.Raw.{
  int_at, mount_of, parent_pid_of, fpu_of, read_mntns_id-mount_of, read_ppid-parent_pid_of,
  read_fpu-fpu_of, fpcr_of-bits,
}

-- There is a task, its user is the one that is looked for (or none is), its mount namespace is in
-- the filter map (or none is asked for), the FPU record is known, and the bits 13 and 14 of the four
-- bytes at its offset 88 are not both 0.
pub record IsWanted (c : Config) (k : Kernel) (ctx uid : ℕ) : Type 0 where
  pub task : k.current_task ≢ 0
  pub user : (c.targ_uid ≡ 2 ^ 32 - 1) ⊎ (c.targ_uid ≡ uid)
  pub mount :
      (c.gadget_filter_by_mntns ≡ false)
      ⊎ ((v : ℕ) × (lookup (mount_of k k.current_task) c.gadget_mntns_filter_map ≡ some v))
  pub fpu : fpu_of k ctx ≢ 0
  pub mode : int_at k (fpu_of k ctx + 88) / 2 ^ 13 % 4 ≢ 0

-- The event of a process, its user and its group.
abbrev pub event_of : Kernel → ℕ → ℕ → ℕ → Event
event_of k pid uid gid = record {
  timestamp = k.ktime_boot_ns;
  mntns_id = mount_of k k.current_task;
  pid = pid;
  ppid = parent_pid_of k k.current_task;
  uid = uid;
  gid = gid;
  comm = k.current_comm;
}

kept_iff :
    (f : Bool) (m : List (ℕ × ℕ)) (i : ℕ)
    → (gadget_should_discard_mntns_id f m i ≡ false)
      ↔ ((f ≡ false) ⊎ ((v : ℕ) × (lookup i m ≡ some v)))
unfolding gadget_should_discard_mntns_id
kept_iff false m i = (λ _. inl refl, λ _. refl)
kept_iff true m i = elim (Option-cases (lookup i m)) [
  | inl e ↦ (λ h. absurd (ground arith), λ h. absurd (ground arith))
  | inr (v, e) ↦ (λ _. inr (v, e), λ _. rw e)
]

fill_event-event_of :
    (k : Kernel) (pid tid uid gid : ℕ)
    → k.current_pid_tgid ≡ pid * 2 ^ 32 + tid
    → tid < 2 ^ 32
    → k.current_uid_gid ≡ gid * 2 ^ 32 + uid
    → uid < 2 ^ 32
    → fill_event k k.current_uid_gid (read_mntns_id k k.current_task) ≡ event_of k pid uid gid
unfolding fill_event
fill_event-event_of k pid tid uid gid process low user small =
    let pid_of : k.current_pid_tgid / 2 ^ 32 ≡ pid = omega arith in
    let uid_of : k.current_uid_gid % 2 ^ 32 ≡ uid = omega arith in
    let gid_of : k.current_uid_gid / 2 ^ 32 ≡ gid = omega arith in
    λ i. record {
      timestamp = k.ktime_boot_ns;
      mntns_id = read_mntns_id-mount_of k k.current_task i;
      pid = pid_of i;
      ppid = read_ppid-parent_pid_of k k.current_task i;
      uid = uid_of i;
      gid = gid_of i;
      comm = k.current_comm;
    }

mode-bits :
    (k : Kernel) (ctx : ℕ)
    → fpcr_of (read_mxcsr k (read_fpu k ctx)) ≡ int_at k (fpu_of k ctx + 88) / 2 ^ 13 % 4
mode-bits k ctx =
    ap (λ p. fpcr_of (read_mxcsr k p)) (read_fpu-fpu_of k ctx)
    ∙ ap fpcr_of (read_mxcsr_lem k (fpu_of k ctx))
    ∙ fpcr_of-bits (int_at k (fpu_of k ctx + 88))

-- Let the current task have the process id `pid`, the user `uid` and the group `gid`, as the
-- kernel's helpers pack them into two words. On the kernel of vmlinux.h the program puts out an
-- event exactly if there is a task, its user is the one that is looked for or none is, the inode
-- number of its mount namespace is in the filter map or the filter is off, the FPU record of the
-- tracepoint is known, and the bits 13 and 14 of the four bytes at offset 88 of that record are not
-- both 0. The event then has those ids, that inode number, the process id of the parent of the
-- task, and the time and the name that the helpers give.
pub x86_fpu_regs_deactivated_iff :
    (c : Config) (k : Kernel) (ctx pid tid uid gid : ℕ) (e : Event)
    → k.current_pid_tgid ≡ pid * 2 ^ 32 + tid
    → tid < 2 ^ 32
    → k.current_uid_gid ≡ gid * 2 ^ 32 + uid
    → uid < 2 ^ 32
    → (x86_fpu_regs_deactivated c k ctx ≡ some e)
      ↔ (IsWanted c k ctx uid × (e ≡ event_of k pid uid gid))
unfolding x86_fpu_regs_deactivated
x86_fpu_regs_deactivated_iff c k ctx pid tid uid gid e process low user small =
    let kept =
      kept_iff c.gadget_filter_by_mntns c.gadget_mntns_filter_map (mount_of k k.current_task) in
    let mount =
      ap (gadget_should_discard_mntns_id c.gadget_filter_by_mntns c.gadget_mntns_filter_map)
        (read_mntns_id-mount_of k k.current_task) in
    let fpu = read_fpu-fpu_of k ctx in
    let mode = mode-bits k ctx in
    let event = fill_event-event_of k pid tid uid gid process low user small in
    let uid_of : k.current_uid_gid % 2 ^ 32 ≡ uid = omega arith in
    (
      λ h. ground (arith, kept.0, mount, fpu, mode, event, uid_of, h),
      λ h. ground (
        arith,
        kept.1 h.0.mount,
        mount,
        fpu,
        mode,
        event,
        uid_of,
        h.0.task,
        h.0.user,
        h.0.fpu,
        h.0.mode,
        h.1,
      ),
    )
