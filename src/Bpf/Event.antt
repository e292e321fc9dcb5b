-- ===== src/Bpf/Event.antt =====
-- The event record on its way from the BPF program to the tracer: `struct event` of
-- pkg/ebpf/gadgets/randomx/tracer/bpf/randomx.h, its typedefs of pkg/ebpf/include/types.h, and
-- `randomxEvent` of pkg/ebpf/gadgets/randomx/tracer/randomx_bpf.go, as which the tracer reads it.
use kapprofiler.Base.{
  ℕ, zero, suc, ◌+◌, ◌*◌, ◌/◌, ◌%◌, ◌++◌, String, none, some, List, [], ◌∷◌, length, take, drop,
}
use kapprofiler.Layout.{CType, scalar, array, field, struct, end, ◌▸◌, find, size_of}
use kapprofiler.Vmlinux.Scalars.{__u8, __u32, __u64}
use kapprofiler.Bpf.Program.{Event}

abbrev pub gadget_mntns_id : CType
gadget_mntns_id = __u64

abbrev pub gadget_timestamp : CType
gadget_timestamp = __u64

abbrev pub task_comm_len : ℕ
task_comm_len = 16

unfoldable pub event : CType
event = struct (
    field "timestamp" gadget_timestamp
    ▸ field "mntns_id" gadget_mntns_id
    ▸ field "pid" __u32
    ▸ field "ppid" __u32
    ▸ field "uid" __u32
    ▸ field "gid" __u32
    ▸ field "comm" (array __u8 task_comm_len)
    ▸ end)

-- The layout of the Go struct. Go aligns these integers as C does.
unfoldable pub randomx_event : CType
randomx_event = struct (
    field "Timestamp" (scalar 8)
    ▸ field "MntnsId" (scalar 8)
    ▸ field "Pid" (scalar 4)
    ▸ field "Ppid" (scalar 4)
    ▸ field "Uid" (scalar 4)
    ▸ field "Gid" (scalar 4)
    ▸ field "Comm" (array (scalar 1) 16)
    ▸ end)

-- A value of the Go struct.
pub record RandomxEvent : Type 0 where
  pub timestamp : ℕ
  pub mntns_id : ℕ
  pub pid : ℕ
  pub ppid : ℕ
  pub uid : ℕ
  pub gid : ℕ
  pub comm : List ℕ

-- In bytes.
unfoldable pub offset_of : CType → String → ℕ
unfolding find
offset_of t f = elim (find t f) [ none ↦ 0 | some (n, _) ↦ n / 8 ]

-- Little-endian.
unfoldable pub to_bytes : ℕ → ℕ → List ℕ
to_bytes zero v = []
to_bytes (suc n) v = v % 256 ∷ to_bytes n (v / 256)

unfoldable pub of_bytes : List ℕ → ℕ
of_bytes [] = 0
of_bytes (b ∷ bs) = b + 256 * of_bytes bs

abbrev replicate : ℕ → List ℕ
replicate zero = []
replicate (suc n) = 0 ∷ replicate n

abbrev store : ℕ → List ℕ → List ℕ → List ℕ
store at bs buffer = take at buffer ++ bs ++ drop (at + length bs) buffer

-- The bytes of `struct event`, as `event.f = …` leaves them in `struct event event = {}`, before
-- `bpf_get_current_comm` fills in the last member.
unfoldable pub event_words : Event → List ℕ
unfolding event offset_of to_bytes size_of
event_words e = store (offset_of event "gid") (to_bytes 4 e.gid) (
    store (offset_of event "uid") (to_bytes 4 e.uid) (
      store (offset_of event "ppid") (to_bytes 4 e.ppid) (
        store (offset_of event "pid") (to_bytes 4 e.pid) (
          store (offset_of event "mntns_id") (to_bytes 8 e.mntns_id) (
            store (offset_of event "timestamp") (to_bytes 8 e.timestamp)
              (replicate (size_of event)))))))

unfoldable pub event_bytes : Event → List ℕ
unfolding event_words
event_bytes e = store (offset_of event "comm") e.comm (event_words e)

abbrev slice : List ℕ → ℕ → ℕ → List ℕ
slice bs at n = take n (drop at bs)

-- `(*randomxEvent)(unsafe.Pointer(&record.RawSample[0]))`
unfoldable pub bpf_event : List ℕ → RandomxEvent
unfolding randomx_event offset_of of_bytes
bpf_event raw = record {
  timestamp = of_bytes (slice raw (offset_of randomx_event "Timestamp") 8);
  mntns_id = of_bytes (slice raw (offset_of randomx_event "MntnsId") 8);
  pid = of_bytes (slice raw (offset_of randomx_event "Pid") 4);
  ppid = of_bytes (slice raw (offset_of randomx_event "Ppid") 4);
  uid = of_bytes (slice raw (offset_of randomx_event "Uid") 4);
  gid = of_bytes (slice raw (offset_of randomx_event "Gid") 4);
  comm = slice raw (offset_of randomx_event "Comm") 16;
}
