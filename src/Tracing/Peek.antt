-- ===== src/Tracing/Peek.antt =====
-- `PeekSyscallInContainer` of pkg/tracing/tracing.go.
use kapprofiler.Base.{
  none, some, ℕ, ◌≡◌, refl, List, Bool, true, false, if◌then◌else◌, not, Option, some, arith,
}
use kapprofiler.Tracing.Events.{syscall_event_type, same_type}
use kapprofiler.Tracing.Defs.{Tracer}
use kapprofiler.Tracing.Kinds.{mem}
use kapprofiler.Tracing.Starts.{kinds_of}
use kapprofiler.Tracing.Leaks.{Action, machine_after, is_running}
use kapprofiler.Tracing.Balance.{Holds-machine_after}

-- The two errors, and what the syscall gadget answers, which may be an error of its own.
pub data Peeked {ℓ} (A : Type ℓ) : Type ℓ where
  not_running : Peeked A
  not_started : Peeked A
  answered : A → Peeked A

abbrev peek_into {ℓ} : {A : Type ℓ} → (ℕ → A) → Tracer → ℕ → Peeked A
peek_into peek t ns_mount_id =
    if not t.running
    then not_running
    else if not (t.tracing_state syscall_event_type).peekable
    then not_started
    else answered (peek ns_mount_id)

-- `peek` is the method of the gadget, and no tracer stands for a `t` that is nil.
unfoldable pub peek_syscall_in_container {ℓ} : {A : Type ℓ} → (ℕ → A) → Option Tracer → ℕ → Peeked A
peek_syscall_in_container peek none ns_mount_id = not_running
peek_syscall_in_container peek (some t) ns_mount_id = peek_into peek t ns_mount_id

syscall-started : (amd64 : Bool) → mem syscall_event_type (kinds_of amd64) ≡ true
unfolding mem same_type
syscall-started true = refl
syscall-started false = refl

-- After any history of `Start` and `Stop`, whatever fails in it, peeking asks the syscall gadget
-- exactly while the tracer runs, that is, if a start that went well came after the last stop. Else
-- the error is that it does not run: the second error of the code never comes out.
pub peek_syscall_in_container-machine_after {ℓ} :
    {A : Type ℓ} (peek : ℕ → A) (amd64 : Bool) (h : List Action) (ns_mount_id : ℕ)
    → peek_syscall_in_container peek (some (machine_after amd64 h).tracer) ns_mount_id
      ≡ (if is_running amd64 h then answered (peek ns_mount_id) else not_running)
unfolding peek_syscall_in_container
peek_syscall_in_container-machine_after peek amd64 h ns_mount_id =
    let state = Holds-machine_after amd64 h in
    ground (arith, state.runs, state.all syscall_event_type, syscall-started amd64)
