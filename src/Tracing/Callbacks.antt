-- ===== src/Tracing/Callbacks.antt =====
-- The callbacks of pkg/tracing/ig.go, by which the gadgets hand their events to the event sinks.
-- Of the gadgets' own types there is what the callbacks read. `enrich` stands for the methods of
-- the container collection that fill in the names of the container.
use kapprofiler.Base.{
  ℕ, Bool, true, false, ◌&&◌, String, Option, none, some, List, [], ◌∷◌, if◌then◌else◌,
}
use Prim.Native.String.{◌++◌ as joined}
use kapprofiler.Tracing.Events.{
  EventType, execve_event_type, open_event_type, capabilities_event_type, dns_event_type,
  network_event_type, random_x_event_type, GeneralEvent, ExecveEvent, OpenEvent, CapabilitiesEvent,
  DnsEvent, NetworkEvent, RandomXEvent,
}

-- A return value of a system call.
pub data ℤ : Type 0 where
  pos : ℕ → ℤ
  negsuc : ℕ → ℤ

-- `x > -1`
abbrev pub is_success : ℤ → Bool
is_success (pos n) = true
is_success (negsuc n) = false

-- The types of messages that the callbacks tell apart.
pub data MessageType : Type 0 where
  normal : MessageType
  err : MessageType
  other : MessageType

abbrev pub is_normal : MessageType → Bool
is_normal normal = true
is_normal message_type = false

abbrev pub is_err : MessageType → Bool
is_err err = true
is_err message_type = false

pub record CommonData : Type 0 where
  pub container_name : String
  pub container_id : String
  pub pod_name : String
  pub namespace : String

-- What the events of all gadgets have.
pub record GadgetEvent : Type 0 where
  pub message_type : MessageType
  pub message : String
  pub common : CommonData
  pub mount_ns_id : ℕ
  pub timestamp : ℕ
  pub pid : ℕ
  pub uid : ℕ
  pub gid : ℕ
  pub comm : String

-- A call of a method of a sink.
pub data SinkCall : Type 0 where
  send_execve : ExecveEvent → SinkCall
  send_open : OpenEvent → SinkCall
  send_capabilities : CapabilitiesEvent → SinkCall
  send_dns : DnsEvent → SinkCall
  send_network : NetworkEvent → SinkCall
  send_random_x : RandomXEvent → SinkCall
  report_error : EventType → String → SinkCall

-- The general part of the event that is sent; a parent and a directory are given where the
-- callback sets them, and have the zero value elsewhere.
unfoldable pub general_event_of : EventType → ℕ → String → GadgetEvent → GeneralEvent
general_event_of kind ppid cwd e = record {
  process_details = record {
    pid = e.pid;
    ppid = ppid;
    comm = e.comm;
    cwd = cwd;
    uid = e.uid;
    gid = e.gid;
  };
  container_name = e.common.container_name;
  container_id = e.common.container_id;
  pod_name = e.common.pod_name;
  namespace = e.common.namespace;
  mount_ns_id = e.mount_ns_id;
  timestamp = e.timestamp;
  event_type = kind;
}

-- `for _, eventSink := range t.eventSinks`
unfoldable pub to_sinks {ℓ} : {L : Type ℓ} → List L → SinkCall → List (L × SinkCall)
to_sinks [] call = []
to_sinks (sink ∷ sinks) call = (sink, call) ∷ to_sinks sinks call

-- The end of each callback: an error is reported, and anything else dropped.
unfoldable pub report_or_drop {ℓ} :
    {L : Type ℓ} → List L → EventType → String → GadgetEvent → List (L × SinkCall)
unfolding to_sinks
report_or_drop sinks kind prefix e =
    if is_err e.message_type
    then to_sinks sinks (report_error kind (joined prefix e.message))
    else []

unfoldable pub open_event_of_gadget : String → List String → GadgetEvent → OpenEvent
unfolding general_event_of
open_event_of_gadget full_path flags e = record {
  general_event = general_event_of open_event_type 0 "" e;
  task_name = e.comm;
  task_id = e.pid;
  path_name = full_path;
  flags = flags;
}

unfoldable pub open_event_callback {ℓ} :
    {L : Type ℓ} → List L → ℤ → String → List String → GadgetEvent → List (L × SinkCall)
unfolding to_sinks report_or_drop open_event_of_gadget
open_event_callback sinks ret full_path flags e =
    if is_normal e.message_type && is_success ret
    then to_sinks sinks (send_open (open_event_of_gadget full_path flags e))
    else report_or_drop sinks open_event_type "open ebpf error: " e

abbrev execve_event_of : ℕ → String → Bool → GadgetEvent → String → List String → ExecveEvent
execve_event_of ppid cwd upper_layer e path args = record {
  general_event = general_event_of execve_event_type ppid cwd e;
  path_name = path;
  upper_layer = upper_layer;
  args = args;
  env = [];
}

-- `event.Args[0]` panics for an event without arguments: then there is no answer.
abbrev send_exec {ℓ} :
    {L : Type ℓ}
    → List L
    → (String → List String → ExecveEvent)
    → List String
    → Option (List (L × SinkCall))
send_exec sinks event [] = none
send_exec sinks event (path ∷ args) = some (to_sinks sinks (send_execve (event path args)))

unfoldable pub exec_event_callback {ℓ} :
    {L : Type ℓ}
    → List L
    → ℤ
    → ℕ
    → String
    → Bool
    → List String
    → GadgetEvent
    → Option (List (L × SinkCall))
unfolding to_sinks report_or_drop general_event_of
exec_event_callback sinks retval ppid cwd upper_layer args e =
    if is_normal e.message_type && is_success retval
    then send_exec sinks (execve_event_of ppid cwd upper_layer e) args
    else some (report_or_drop sinks execve_event_type "execve ebpf error: " e)

unfoldable pub capabilities_event_callback {ℓ} :
    {L : Type ℓ} → List L → String → String → GadgetEvent → List (L × SinkCall)
unfolding to_sinks report_or_drop general_event_of
capabilities_event_callback sinks syscall cap_name e =
    if is_normal e.message_type
    then to_sinks sinks (
        send_capabilities (record {
          general_event = general_event_of capabilities_event_type 0 "" e;
          syscall = syscall;
          capability_name = cap_name;
        }))
    else report_or_drop sinks capabilities_event_type "capabilities ebpf error: " e

-- What the container collection makes of an event, by its namespaces.
abbrev pub Enrich : Type 0
Enrich = CommonData → CommonData

unfoldable pub dns_event_callback {ℓ} :
    {L : Type ℓ} → Enrich → List L → String → List String → GadgetEvent → List (L × SinkCall)
unfolding to_sinks report_or_drop general_event_of
dns_event_callback enrich sinks dns_name addresses e =
    if is_normal e.message_type
    then to_sinks sinks (
        send_dns (record {
          general_event =
              general_event_of dns_event_type 0 "" (record e { common = enrich e.common });
          dns_name = dns_name;
          addresses = addresses;
        }))
    else report_or_drop sinks dns_event_type "dns ebpf error: " e

unfoldable pub network_event_callback {ℓ} :
    {L : Type ℓ}
    → Enrich
    → List L
    → String
    → String
    → ℕ
    → String
    → GadgetEvent
    → List (L × SinkCall)
unfolding to_sinks report_or_drop general_event_of
network_event_callback enrich sinks pkt_type proto port dst_endpoint e =
    if is_normal e.message_type
    then to_sinks sinks (
        send_network (record {
          general_event =
              general_event_of network_event_type 0 "" (record e { common = enrich e.common });
          packet_type = pkt_type;
          protocol = proto;
          port = port;
          dst_endpoint = dst_endpoint;
        }))
    else report_or_drop sinks network_event_type "network ebpf error: " e

unfoldable pub randomx_event_callback {ℓ} :
    {L : Type ℓ} → Enrich → List L → ℕ → GadgetEvent → List (L × SinkCall)
unfolding to_sinks report_or_drop general_event_of
randomx_event_callback enrich sinks ppid e =
    if is_normal e.message_type
    then to_sinks sinks (
        send_random_x (record {
          general_event =
              general_event_of random_x_event_type ppid "" (record e { common = enrich e.common });
        }))
    else report_or_drop sinks random_x_event_type "randomx ebpf error: " e
