-- ===== src/Tests/Gadgets.antt =====
-- A tracer whose second start fails at the DNS gadget, and the randomx program beside it.
use kapprofiler.Base.{
  ◌≡◌, refl, true, false, none, some, List, [], ◌∷◌, ◌==◌, if◌then◌else◌, insert, nat_comparable,
}
use kapprofiler.Bpf.Kernel.{Kernel}
use kapprofiler.Bpf.Program.{Config, x86_fpu_regs_deactivated}
use kapprofiler.Tracing.Events.{
  dns_event_type, open_event_type, random_x_event_type, event_type_comparable, same_type,
}
use kapprofiler.Tracing.Defs.{Tracer, EbpfPut, set_state}
use kapprofiler.Tracing.Gadgets.{
  Outcomes, with_gadget, start, stop, start_app_behavior_tracing, start_gadget,
  start_systemcall_tracing, start_dns_tracing, start_network_tracing, new_tracer, install,
  setup_container_collection, stop_container_collection, stop_app_behavior_tracing, stop_each,
  stop_tracing,
}
use kapprofiler.Tracing.Leaks.{Action, starts, stops, machine_after, is_running, left_over, Holds}
use kapprofiler.Tracing.Counts as Counts
use kapprofiler.Tracing.Balance
use kapprofiler.Tracing.Peek
use kapprofiler.Base.{every}
use kapprofiler.Tracing.Leaks.{goes_well}
use kapprofiler.Tracing.Silent
use kapprofiler.Tracing.Silent.{traced}

abbrev well : Outcomes
well = record {
  collection = true;
  makes_map = λ k. true;
  makes_tracer = λ k. true;
  runs_workaround = true;
}

abbrev no_dns : Outcomes
no_dns = record well { makes_tracer = λ k. if k == dns_event_type then false else true }

abbrev calls : List Action
calls = starts well ∷ starts no_dns ∷ stops ∷ starts well ∷ []

Holds-machine_after_example :
    Holds true (is_running true calls) (λ k. left_over true k calls) (machine_after true calls)
Holds-machine_after_example = Balance.Holds-machine_after true calls

-- The open gadget that the failed start left runs beside the one of the start after it.
two_open_gadgets : (machine_after true calls).alive open_event_type ≡ 2
unfolding machine_after start stop start_app_behavior_tracing start_gadget start_systemcall_tracing
    start_dns_tracing start_network_tracing new_tracer install setup_container_collection
    stop_container_collection stop_app_behavior_tracing stop_each stop_tracing same_type set_state
two_open_gadgets = refl

abbrev tracer : Tracer
tracer = record { running = true; tracing_state = λ k. with_gadget }

abbrev kernel : Kernel
kernel = record {
  memory = λ a. some 255;
  current_task = 4096;
  current_uid_gid = 0;
  current_pid_tgid = 1;
  ktime_boot_ns = 5;
  current_comm = [];
  bpf_func_ids = [];
  kernel_version = λ a b c. 0;
}

abbrev hash_put : EbpfPut
hash_put k v m = insert k v m

abbrev config : Config
config = record {
  targ_uid = 0;
  gadget_filter_by_mntns = true;
  gadget_mntns_filter_map =
      ((traced hash_put tracer (Counts.starts 7 30 ∷ [])).tracing_state
        random_x_event_type).ebpf_container_filter_map;
}

x86_fpu_regs_deactivated-traced_example : x86_fpu_regs_deactivated config kernel 28672 ≡ none
x86_fpu_regs_deactivated-traced_example =
    Silent.x86_fpu_regs_deactivated-traced hash_put tracer (Counts.starts 7 30 ∷ []) config kernel
      28672 refl refl refl

-- After the failed start and a stop the next start goes well, so the syscall gadget is asked.
peek_syscall_in_container-machine_after_example :
    Peek.peek_syscall_in_container (λ i. true) (some (machine_after true calls).tracer) 7
    ≡ (if is_running true calls then Peek.answered (true) else Peek.not_running)
peek_syscall_in_container-machine_after_example =
    Peek.peek_syscall_in_container-machine_after (λ i. true) true calls 7

peek_running : is_running true calls ≡ true
unfolding is_running goes_well every same_type
peek_running = refl
