-- ===== src/Bpf/Kernel.antt =====
-- What the BPF program takes from the kernel and from libbpf: memory, and the helpers' results.
use kapprofiler.Base.{ℕ, zero, suc, ◌+◌, ◌*◌, ◌/◌, ◌%◌, ◌^◌, String, Option, none, some, List}
use kapprofiler.Layout.{CType, find_path, size_of}

-- `memory a` is the byte at address `a`, if it can be read. `current_task` is the result of
-- `bpf_get_current_task()`, and so on; `bpf_func_ids` is the running kernel's
-- `enum bpf_func_id`, and `kernel_version` libbpf's macro `KERNEL_VERSION`.
pub record Kernel : Type 0 where
  pub memory : ℕ → Option ℕ
  pub current_task : ℕ
  pub current_uid_gid : ℕ
  pub current_pid_tgid : ℕ
  pub ktime_boot_ns : ℕ
  pub current_comm : List ℕ
  pub bpf_func_ids : List (String × ℕ)
  pub kernel_version : ℕ → ℕ → ℕ → ℕ

-- `n` bytes from an address on, little-endian.
unfoldable pub load : (ℕ → Option ℕ) → ℕ → ℕ → Option ℕ
load memory zero a = some 0
load memory (suc n) a = elim (memory a) [
  | none ↦ none
  | some b ↦ elim (load memory n (a + 1)) [ none ↦ none | some r ↦ some (b + 256 * r) ]
]

abbrev pub get_or {ℓ} : {A : Type ℓ} → Option A → A → A
get_or none d = d
get_or (some a) d = a

-- `bpf_probe_read_kernel` fills its destination with zeros if the source cannot be read.
unfoldable pub bpf_probe_read_kernel : Kernel → ℕ → ℕ → ℕ
bpf_probe_read_kernel k n a = get_or (load k.memory n (a % 2 ^ 64)) 0

-- `&((T *)base)->path`, with the size of what stands there.
unfoldable pub member_at : CType → List String → ℕ → ℕ × ℕ
unfolding find_path size_of
member_at t path base = elim (find_path t path 0) [
  | none ↦ (base, 0)
  | some (start, u) ↦ (base + start / 8, size_of u)
]

-- One step of `BPF_CORE_READ(base, path)`, with `base` a `T *`.
unfoldable pub core_read : Kernel → CType → List String → ℕ → ℕ
core_read k t path base = let at = member_at t path base in bpf_probe_read_kernel k at.1 at.0
