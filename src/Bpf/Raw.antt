-- ===== src/Bpf/Raw.antt =====
-- The reads of randomx.bpf.c at numbers: what stands at which offset on the kernel of vmlinux.h,
-- and the bits of the mask.
use Prim.Native.Nat.{digits, bit_and, bit_and-bitwise}
use kapprofiler.Base.{ℕ, zero, suc, ◌+◌, ◌*◌, ◌/◌, ◌%◌, ◌^◌, ◌≤◌, min, ◌≡◌, refl, ap, ◌∙◌, arith}
use kapprofiler.Layout.{find_path, size_of}
use kapprofiler.Bpf.Kernel.{Kernel, bpf_probe_read_kernel, core_read, member_at}
use kapprofiler.Bpf.Filter.{read_mntns_id}
use kapprofiler.Bpf.Program.{read_fpu, read_ppid, fpcr_of}
use kapprofiler.Vmlinux.Task.{task_struct}
use kapprofiler.Vmlinux.Namespaces.{nsproxy, mnt_namespace}
use kapprofiler.Vmlinux.Trace.{trace_event_raw_x86_fpu}

-- Pointers have eight bytes, an `unsigned int` and an `int` four.
abbrev pub pointer_at : Kernel → ℕ → ℕ
pointer_at k a = bpf_probe_read_kernel k 8 a

abbrev pub int_at : Kernel → ℕ → ℕ
int_at k a = bpf_probe_read_kernel k 4 a

-- The inode number of the mount namespace of a task, the process id of its parent, and the FPU
-- record of the tracepoint.
abbrev pub mount_of : Kernel → ℕ → ℕ
mount_of k task = int_at k (pointer_at k (pointer_at k (task + 3056) + 24) + 16)

abbrev pub parent_pid_of : Kernel → ℕ → ℕ
parent_pid_of k task = int_at k (pointer_at k (task + 2512) + 2496)

abbrev pub fpu_of : Kernel → ℕ → ℕ
fpu_of k ctx = pointer_at k (ctx + 8)

pub read_mntns_id-mount_of : (k : Kernel) (task : ℕ) → read_mntns_id k task ≡ mount_of k task
unfolding read_mntns_id core_read member_at find_path size_of task_struct nsproxy mnt_namespace
read_mntns_id-mount_of k task = refl

pub read_ppid-parent_pid_of : (k : Kernel) (task : ℕ) → read_ppid k task ≡ parent_pid_of k task
unfolding read_ppid core_read member_at find_path size_of task_struct
read_ppid-parent_pid_of k task = refl

pub read_fpu-fpu_of : (k : Kernel) (ctx : ℕ) → read_fpu k ctx ≡ fpu_of k ctx
unfolding read_fpu core_read member_at find_path size_of trace_event_raw_x86_fpu
read_fpu-fpu_of k ctx = refl

abbrev and_digits : ℕ → ℕ → ℕ → ℕ
and_digits = digits (λ b. zero) min

and_digits-zero : (n b : ℕ) → and_digits n 0 b ≡ 0
and_digits-zero zero b = refl
and_digits-zero (suc n) b = refl

and_digits-none : (n a : ℕ) → and_digits n a 0 ≡ 0
and_digits-none zero a = refl
and_digits-none (suc n) zero = refl
and_digits-none (suc n) (suc a) = omega (arith, and_digits-none n (suc a / 2))

-- One binary digit of a conjunction, with the count of digits that are still to go.
and_digits-halves :
    (n a b : ℕ)
    → a ≤ n
    → (m : ℕ) × ((a / 2 ≤ m)
        × (and_digits n a b ≡ and_digits m (a / 2) (b / 2) * 2 + min (a % 2) (b % 2)))
and_digits-halves zero zero b h = (0, (omega arith, omega arith))
and_digits-halves zero (suc a) b h = absurd (omega arith)
and_digits-halves (suc n) zero b h = (n, (omega arith, omega (arith, and_digits-zero n (b / 2))))
and_digits-halves (suc n) (suc a) b h = (n, (omega arith, refl))

-- A digit 0 of the mask.
and_digits-even :
    (n a b : ℕ)
    → a ≤ n
    → (m : ℕ) × ((a / 2 ≤ m) × (and_digits n a (2 * b) ≡ and_digits m (a / 2) b * 2))
and_digits-even n a b h =
    let (m, (room, halves)) = and_digits-halves n a (2 * b) h in
    let half : 2 * b / 2 ≡ b = omega arith in
    let same : and_digits m (a / 2) (2 * b / 2) ≡ and_digits m (a / 2) b =
      ap (and_digits m (a / 2)) half in
    (m, (room, omega (arith, halves, same)))

abbrev halved : ℕ → ℕ → ℕ
halved zero a = a
halved (suc j) a = halved j (a / 2)

abbrev doubled : ℕ → ℕ → ℕ
doubled zero b = b
doubled (suc j) b = doubled j b * 2

and_digits-zeros :
    (j n a b : ℕ)
    → a ≤ n
    → (m : ℕ) × ((halved j a ≤ m)
        × (and_digits n a (doubled j b) ≡ doubled j (and_digits m (halved j a) b)))
and_digits-zeros zero n a b h = (n, (h, refl))
and_digits-zeros (suc j) n a b h =
    let (l, (room, even)) = and_digits-even n a (doubled j b) h in
    let (m, (rest, zeros)) = and_digits-zeros j l (a / 2) b room in
    let same : and_digits n a (doubled j b * 2) ≡ and_digits n a (2 * doubled j b) =
      ap (and_digits n a) (omega arith) in
    (m, (rest, same ∙ even ∙ ap (λ d. d * 2) zeros))

-- The mask 0x6000 leaves the digits 13 and 14.
pub fpcr_of-bits : (mxcsr : ℕ) → fpcr_of mxcsr ≡ mxcsr / 2 ^ 13 % 4
unfolding fpcr_of
fpcr_of-bits mxcsr =
    let (m, (room, zeros)) = and_digits-zeros 13 mxcsr mxcsr 3 (omega arith) in
    let top = halved 13 mxcsr in
    let (n, (fits, low)) = and_digits-halves m top 3 room in
    let (o, (left, high)) = and_digits-halves n (top / 2) 1 fits in
    let whole : bit_and mxcsr 0x6000 ≡ doubled 13 (and_digits m top 3) =
      bit_and-bitwise mxcsr 0x6000 ∙ zeros in
    let eighths : top ≡ mxcsr / 8192 = omega arith in
    let digits_of : and_digits m top 3 ≡ top % 4 =
      omega (arith, low, high, and_digits-none o (top / 2 / 2)) in
    omega (arith, whole, digits_of, eighths)
