-- ===== src/Collector/Merge.antt =====
-- `mergeApplicationProfiles` of pkg/collector/collector.go: the profile of a container is merged
-- into that of the same name, or appended.
use kapprofiler.Base.{
  Bool, not, ◌&&◌, String, List, [], ◌∷◌, ◌++◌, length, ltb, ◌==◌, string_comparable,
  slices_contains, if◌then◌else◌, any,
}
use kapprofiler.Tracing.Events.{
  GeneralEvent, ExecveEvent, OpenEvent, DnsEvent, NetworkEvent, execve_event_type,
}
use kapprofiler.Collector.Calls.{
  ExecCalls, NetworkCalls, OpenCalls, CapabilitiesCalls, DnsCalls, ContainerProfile, OpenConfig,
  exec_event_exists, network_event_exists, dns_event_exists, should_include_open_event,
  max_network_events,
}

-- The zero value of the embedded part of the events that are made for the tests.
abbrev pub no_general_event : GeneralEvent
no_general_event = record {
  process_details = record { pid = 0; ppid = 0; comm = ""; cwd = ""; uid = 0; gid = 0 };
  container_name = "";
  container_id = "";
  pod_name = "";
  namespace = "";
  mount_ns_id = 0;
  timestamp = 0;
  event_type = execve_event_type;
}

abbrev pub exec_event_of : ExecCalls → ExecveEvent
exec_event_of exec = record {
  general_event = no_general_event;
  path_name = exec.path;
  upper_layer = exec.upper_layer;
  args = exec.args;
  env = exec.envs;
}

abbrev pub dns_event_of : DnsCalls → DnsEvent
dns_event_of dns = record {
  general_event = no_general_event;
  dns_name = dns.dns_name;
  addresses = dns.addresses;
}

abbrev pub open_event_of : OpenCalls → OpenEvent
open_event_of call = record {
  general_event = no_general_event;
  task_name = "";
  task_id = 0;
  path_name = call.path;
  flags = call.flags;
}

abbrev pub network_event_of : NetworkCalls → NetworkEvent
network_event_of call = record {
  general_event = no_general_event;
  packet_type = "";
  protocol = call.protocol;
  port = call.port;
  dst_endpoint = call.dst_endpoint;
}

-- The elements that a test keeps, in order: the loops that fill `filteredSyscalls` and so on.
unfoldable pub filtered {ℓ} : {A : Type ℓ} → (A → Bool) → List A → List A
filtered p [] = []
filtered p (x ∷ xs) = let rest = filtered p xs in if p x then x ∷ rest else rest

unfoldable pub merge_syscalls : List String → List String → List String
unfolding filtered slices_contains
merge_syscalls existing new = existing ++ filtered (λ s. not (slices_contains existing s)) new

unfoldable pub merge_execs : List ExecCalls → List ExecCalls → List ExecCalls
unfolding filtered exec_event_exists
merge_execs existing new =
    existing ++ filtered (λ exec. not (exec_event_exists (exec_event_of exec) existing)) new

unfoldable pub merge_dns : List DnsCalls → List DnsCalls → List DnsCalls
unfolding filtered dns_event_exists
merge_dns existing new =
    existing ++ filtered (λ dns. not (dns_event_exists (dns_event_of dns) existing)) new

unfoldable pub merge_opens :
    OpenConfig → List String → List OpenCalls → List OpenCalls → List OpenCalls
unfolding filtered should_include_open_event
merge_opens config mounts existing new =
    existing
    ++ filtered (λ call. should_include_open_event config (open_event_of call) existing mounts) new

-- The inner loop over the capabilities of an entry: each one that the entry did not have is
-- appended to what the entry had before the loop, and the result stored.
unfoldable pub merge_names : List String → List String → List String → List String
unfolding slices_contains
merge_names existing stored [] = stored
merge_names existing stored (cap ∷ caps) =
    merge_names existing (if slices_contains existing cap then stored else existing ++ cap ∷ [])
      caps

unfoldable pub merge_entry : List CapabilitiesCalls → CapabilitiesCalls → List CapabilitiesCalls
unfolding merge_names
merge_entry [] new = []
merge_entry (c ∷ cs) new =
    let rest = merge_entry cs new in
    if c.syscall == new.syscall
    then record c { capabilities = merge_names c.capabilities c.capabilities new.capabilities } ∷ cs
    else c ∷ rest

unfoldable pub has_entry : String → List CapabilitiesCalls → Bool
unfolding any
has_entry syscall cs = any (λ c. c.syscall == syscall) cs

-- The loop over the new entries: the entries so far and the new ones that wait to be appended.
unfoldable pub merge_entries :
    List CapabilitiesCalls
    → List CapabilitiesCalls
    → List CapabilitiesCalls
    → List CapabilitiesCalls
unfolding merge_entry has_entry
merge_entries existing waiting [] = existing ++ waiting
merge_entries existing waiting (c ∷ cs) =
    let known = merge_entries (merge_entry existing c) waiting cs in
    let unknown = merge_entries existing (waiting ++ c ∷ []) cs in
    if has_entry c.syscall existing then known else unknown

unfoldable pub merge_network : List NetworkCalls → List NetworkCalls → List NetworkCalls
unfolding network_event_exists
merge_network existing [] = existing
merge_network existing (call ∷ calls) =
    merge_network
      (if ltb (length existing) max_network_events
          && not (network_event_exists (network_event_of call) existing)
        then existing ++ call ∷ []
        else existing)
      calls

unfoldable pub merge_container :
    OpenConfig → List String → ContainerProfile → ContainerProfile → ContainerProfile
unfolding merge_syscalls merge_execs merge_dns merge_opens merge_entries merge_network
merge_container config mounts existing new = record {
  name = existing.name;
  execs = merge_execs existing.execs new.execs;
  opens = merge_opens config mounts existing.opens new.opens;
  network_activity = record {
    incoming = merge_network existing.network_activity.incoming new.network_activity.incoming;
    outgoing = merge_network existing.network_activity.outgoing new.network_activity.outgoing;
  };
  capabilities = merge_entries existing.capabilities [] new.capabilities;
  dns = merge_dns existing.dns new.dns;
  sys_calls = merge_syscalls existing.sys_calls new.sys_calls;
}

-- The containers of the merged application profile.
unfoldable pub merge_application_profiles :
    OpenConfig → List String → List ContainerProfile → ContainerProfile → List ContainerProfile
unfolding merge_container
merge_application_profiles config mounts [] new = new ∷ []
merge_application_profiles config mounts (existing ∷ rest) new =
    let others = merge_application_profiles config mounts rest new in
    if existing.name == new.name
    then merge_container config mounts existing new ∷ rest
    else existing ∷ others
