-- ===== src/Tracing/Events.antt =====
-- pkg/tracing/events.go: the events that the tracers send to the event sinks.
use kapprofiler.Base.{ℕ, Bool, String, List, Comparable, eqb, ◌≡◌, ◌↔◌, arith, true}

pub data EventType : Type 0 where
  execve_event_type : EventType
  open_event_type : EventType
  capabilities_event_type : EventType
  dns_event_type : EventType
  network_event_type : EventType
  syscall_event_type : EventType
  random_x_event_type : EventType
  all_event_type : EventType

-- The value that `iota` gives.
abbrev pub ordinal : EventType → ℕ
ordinal execve_event_type = 0
ordinal open_event_type = 1
ordinal capabilities_event_type = 2
ordinal dns_event_type = 3
ordinal network_event_type = 4
ordinal syscall_event_type = 5
ordinal random_x_event_type = 6
ordinal all_event_type = 7

unfoldable pub same_type : EventType → EventType → Bool
same_type a b = eqb (ordinal a) (ordinal b)

pub same_type_iff : (a b : EventType) → (same_type a b ≡ true) ↔ (a ≡ b)
unfolding same_type
same_type_iff a b = ground arith

instance abbrev pub event_type_comparable : Comparable EventType
event_type_comparable = record { equal = same_type; equal_iff = same_type_iff }

pub record ProcessDetails : Type 0 where
  pub pid : ℕ
  pub ppid : ℕ
  pub comm : String
  pub cwd : String
  pub uid : ℕ
  pub gid : ℕ

pub record GeneralEvent : Type 0 where
  pub process_details : ProcessDetails
  pub container_name : String
  pub container_id : String
  pub pod_name : String
  pub namespace : String
  pub mount_ns_id : ℕ
  pub timestamp : ℕ
  pub event_type : EventType

pub record ExecveEvent : Type 0 where
  pub general_event : GeneralEvent
  pub path_name : String
  pub upper_layer : Bool
  pub args : List String
  pub env : List String

pub record OpenEvent : Type 0 where
  pub general_event : GeneralEvent
  pub task_name : String
  pub task_id : ℕ
  pub path_name : String
  pub flags : List String

pub record CapabilitiesEvent : Type 0 where
  pub general_event : GeneralEvent
  pub syscall : String
  pub capability_name : String

pub record DnsEvent : Type 0 where
  pub general_event : GeneralEvent
  pub dns_name : String
  pub addresses : List String

pub record NetworkEvent : Type 0 where
  pub general_event : GeneralEvent
  pub packet_type : String
  pub protocol : String
  pub port : ℕ
  pub dst_endpoint : String

pub record RandomXEvent : Type 0 where
  pub general_event : GeneralEvent
