-- ===== src/Bpf/Mxcsr.antt =====
-- Where the program really looks for the MXCSR register.
use kapprofiler.Base.{
  ℕ, suc, ◌+◌, ◌*◌, ◌%◌, ◌^◌, ◌<◌, ◌≡◌, refl, inl, inr, Option, some, leb, true, ap, ◌∙◌, [], ◌∷◌,
  arith, Option-cases,
}
use kapprofiler.Bpf.Kernel.{Kernel, load, member_at, bpf_probe_read_kernel, core_read}
use kapprofiler.Bpf.Program.{read_mxcsr, old_fpu}
use kapprofiler.Vmlinux.Fpu.{fpu}

-- A readable byte of memory is a byte.
abbrev pub HasBytes : Kernel → Type 0
HasBytes k = (a b : ℕ) → k.memory a ≡ some b → b < 256

load-suc :
    (m : ℕ → Option ℕ) (n a x : ℕ)
    → load m (suc n) a ≡ some x
    → (b : ℕ) × (r : ℕ) × (m a ≡ some b) × (load m n (a + 1) ≡ some r) × (x ≡ b + 256 * r)
unfolding load
load-suc m n a x h = elim (Option-cases (m a)) [
  | inl e ↦ absurd (ground arith)
  | inr (b, e) ↦ elim (Option-cases (load m n (a + 1))) [
    | inl f ↦ absurd (ground arith)
    | inr (r, f) ↦ (b, r, e, f, ground arith)
  ]
]

load_cons :
    (m : ℕ → Option ℕ) (n a b r : ℕ)
    → m a ≡ some b
    → load m n (a + 1) ≡ some r
    → load m (suc n) a ≡ some (b + 256 * r)
unfolding load
load_cons m n a b r e f = ground arith

low_half :
    (b c d e u x : ℕ)
    → b < 256
    → c < 256
    → d < 256
    → e < 256
    → x ≡ b + 256 * (c + 256 * (d + 256 * (e + 256 * u)))
    → b + 256 * (c + 256 * (d + 256 * (e + 256 * 0))) ≡ x % 2 ^ 32
low_half b c d e u x hb hc hd he h = omega arith

-- The low half of eight readable bytes are the first four.
load_low_half :
    (m : ℕ → Option ℕ) (a x : ℕ)
    → ((i b : ℕ) → m i ≡ some b → b < 256)
    → load m 8 a ≡ some x
    → load m 4 a ≡ some (x % 2 ^ 32)
unfolding load
load_low_half m a x byte h =
    let (b, r, mb, lr, e) = load-suc m 7 a x h in
    let (c, s, mc, ls, f) = load-suc m 6 (a + 1) r lr in
    let (d, t, md, lt, g) = load-suc m 5 (a + 1 + 1) s ls in
    let (d', u, md', lu, g') = load-suc m 4 (a + 1 + 1 + 1) t lt in
    let low = b + 256 * (c + 256 * (d + 256 * (d' + 256 * 0))) in
    let all : load m 4 a ≡ some low =
      load_cons m 3 a b _ mb
        (load_cons m 2 _ c _ mc (load_cons m 1 _ d _ md (load_cons m 0 _ d' 0 md' refl))) in
    all
    ∙ ap (λ (z : ℕ). some z)
        (low_half b c d d' u x (byte _ _ mb) (byte _ _ mc) (byte _ _ md) (byte _ _ md')
          (omega arith))

leb_zero : (n : ℕ) → leb 0 n ≡ true
leb_zero n = ground arith

-- The branch for kernels up to 5.15 is the one that is compiled in, on every kernel.
pub read_mxcsr_lem : (k : Kernel) (p : ℕ) → read_mxcsr k p ≡ bpf_probe_read_kernel k 4 (p + 88)
unfolding read_mxcsr core_read member_at old_fpu
read_mxcsr_lem k p = rw (leb_zero (k.kernel_version 5 15 0))

-- On the kernel of vmlinux.h, whatever the kernel's version and memory: if the eight bytes of
-- the member `__fpstate.xfd` of the `struct fpu` at `p` can be read and stand for `x`, the program
-- takes the low half of `x` for the MXCSR register.
pub read_mxcsr-eq-xfd :
    (k : Kernel) (p x : ℕ)
    → HasBytes k
    → load k.memory 8 ((member_at fpu ("__fpstate" ∷ "xfd" ∷ []) p).0 % 2 ^ 64) ≡ some x
    → read_mxcsr k p ≡ x % 2 ^ 32
unfolding bpf_probe_read_kernel member_at fpu
read_mxcsr-eq-xfd k p x bytes h = rw (read_mxcsr_lem k p, load_low_half k.memory _ x bytes h)
