-- ===== src/Bpf/Access.antt =====
-- The addresses that `BPF_CORE_READ` reads.
use kapprofiler.Base.{ℕ, ◌+◌, ◌*◌, ◌≤◌, String, some, List, arith, Option-cases, inl, inr, subst}
use kapprofiler.Layout.{CType, size_of, find_path}
use kapprofiler.Layout.Within.{EndsBy, find_path-EndsBy}
use kapprofiler.Bpf.Kernel.{member_at}

-- A step of `BPF_CORE_READ` along any path of members, through anonymous structs and unions, reads
-- bytes of the record at its base only.
pub member_at-within :
    (t : CType) (path : List String) (base : ℕ)
    → (base ≤ (member_at t path base).0)
      × ((member_at t path base).0 + (member_at t path base).1 ≤ base + size_of t)
unfolding member_at
member_at-within t path base = elim (Option-cases (find_path t path 0)) [
  | inl e ↦ rw (e, member_at) (omega arith, omega arith)
  | inr ((start, u), e) ↦
      let ends : EndsBy (0 + 8 * size_of t) (some (start, u)) =
        subst (EndsBy (0 + 8 * size_of t)) e (find_path-EndsBy t path 0) in
      rw (e, member_at) (omega arith, omega arith)
]
