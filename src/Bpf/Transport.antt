-- ===== src/Bpf/Transport.antt =====
-- The tracer reads the event that the program wrote.
use kapprofiler.Base.{
  ℕ, zero, suc, ◌^◌, ◌<◌, ◌≡◌, List, ◌++◌, length, take, take_append, arith, ◌/◌, drop, ◌+◌,
}
use kapprofiler.Bpf.Program.{Event}
use kapprofiler.Bpf.Event.{to_bytes, of_bytes, event_bytes, bpf_event, task_comm_len, event_words}
use native.Mathlib.Nat.{pow-suc}

pub record IsInRange (e : Event) : Type 0 where
  pub timestamp : e.timestamp < 2 ^ 64
  pub mntns_id : e.mntns_id < 2 ^ 64
  pub pid : e.pid < 2 ^ 32
  pub ppid : e.ppid < 2 ^ 32
  pub uid : e.uid < 2 ^ 32
  pub gid : e.gid < 2 ^ 32
  pub comm : length e.comm ≡ task_comm_len

of_bytes-to_bytes : (n v : ℕ) → v < 256 ^ n → of_bytes (to_bytes n v) ≡ v
unfolding of_bytes to_bytes
of_bytes-to_bytes zero v h = omega arith
of_bytes-to_bytes (suc n) v h = omega (arith, pow-suc 256 n, of_bytes-to_bytes n (v / 256))

take_exact : (xs ys : List ℕ) (n : ℕ) → length xs ≡ n → take n (xs ++ ys) ≡ xs
take_exact xs ys n h = rw (← h) (take_append xs ys)

-- Whatever the program fills in, within the ranges of the members' types, is what the tracer
-- reads from the record's bytes, member by member.
pub bpf_event-event_bytes :
    (e : Event)
    → IsInRange e
    → bpf_event (event_bytes e) ≡ record {
      timestamp = e.timestamp;
      mntns_id = e.mntns_id;
      pid = e.pid;
      ppid = e.ppid;
      uid = e.uid;
      gid = e.gid;
      comm = e.comm;
    }
unfolding bpf_event event_bytes of_bytes to_bytes
bpf_event-event_bytes e h = λ i. record {
  timestamp = of_bytes-to_bytes 8 e.timestamp h.timestamp i;
  mntns_id = of_bytes-to_bytes 8 e.mntns_id h.mntns_id i;
  pid = of_bytes-to_bytes 4 e.pid h.pid i;
  ppid = of_bytes-to_bytes 4 e.ppid h.ppid i;
  uid = of_bytes-to_bytes 4 e.uid h.uid i;
  gid = of_bytes-to_bytes 4 e.gid h.gid i;
  comm = take_exact e.comm (drop (32 + length e.comm) (event_words e)) 16 h.comm i;
}
