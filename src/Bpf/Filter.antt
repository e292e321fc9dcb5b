-- ===== src/Bpf/Filter.antt =====
-- pkg/ebpf/include/mntns_filter.h and mntns.h: the mount namespace of a task, and the filter map
-- by which events are kept.
use kapprofiler.Base.{
  ℕ, Bool, true, false, not, ◌&&◌, List, [], ◌∷◌, Option, none, some, lookup, nat_comparable,
}
use kapprofiler.Bpf.Kernel.{Kernel, core_read}
use kapprofiler.Vmlinux.Task.{task_struct}
use kapprofiler.Vmlinux.Namespaces.{nsproxy, mnt_namespace}

-- `BPF_CORE_READ(task, nsproxy, mnt_ns, ns.inum)`
unfoldable pub read_mntns_id : Kernel → ℕ → ℕ
read_mntns_id k task =
    core_read k mnt_namespace ("ns" ∷ "inum" ∷ [])
      (core_read k nsproxy ("mnt_ns" ∷ []) (core_read k task_struct ("nsproxy" ∷ []) task))

unfoldable pub gadget_get_mntns_id : Kernel → ℕ
gadget_get_mntns_id k = read_mntns_id k k.current_task

-- `bpf_map_lookup_elem(map, &key) != NULL`
abbrev pub is_some {ℓ} : {A : Type ℓ} → Option A → Bool
is_some none = false
is_some (some a) = true

unfoldable pub gadget_should_discard_mntns_id : Bool → List (ℕ × ℕ) → ℕ → Bool
unfolding lookup
gadget_should_discard_mntns_id gadget_filter_by_mntns gadget_mntns_filter_map mntns_id =
    gadget_filter_by_mntns && not (is_some (lookup mntns_id gadget_mntns_filter_map))
