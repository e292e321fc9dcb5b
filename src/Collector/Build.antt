-- ===== src/Collector/Build.antt =====
-- The loops of `CollectContainerEvents` of pkg/collector/collector.go that make the profile of a
-- container of its events.
use kapprofiler.Base.{
  Bool, not, ◌||◌, String, List, [], ◌∷◌, ◌++◌, length, ltb, ◌==◌, string_comparable,
  slices_contains, if◌then◌else◌,
}
use kapprofiler.Tracing.Events.{ExecveEvent, OpenEvent, DnsEvent, NetworkEvent, CapabilitiesEvent}
use kapprofiler.Collector.Calls.{
  ExecCalls, NetworkCalls, NetworkActivity, OpenCalls, CapabilitiesCalls, DnsCalls,
  ContainerProfile, OpenConfig, exec_event_exists, network_event_exists, dns_event_exists,
  should_include_open_event,
}

pub record TotalEvents : Type 0 where
  pub exec_events : List ExecveEvent
  pub open_events : List OpenEvent
  pub syscall_events : List String
  pub capabilities_events : List CapabilitiesEvent
  pub dns_events : List DnsEvent
  pub network_events : List NetworkEvent

unfoldable pub should_process_events : TotalEvents → Bool
should_process_events t =
    ltb 0 (length t.exec_events)
    || (ltb 0 (length t.open_events)
        || (ltb 0 (length t.syscall_events)
            || (ltb 0 (length t.capabilities_events)
                || (ltb 0 (length t.dns_events) || ltb 0 (length t.network_events)))))

abbrev pub exec_call_of : ExecveEvent → ExecCalls
exec_call_of event = record {
  path = event.path_name;
  upper_layer = event.upper_layer;
  args = event.args;
  envs = event.env;
}

-- An event is added if it is new, and in any case if it has no path.
unfoldable pub add_exec : List ExecCalls → ExecveEvent → List ExecCalls
unfolding exec_event_exists
add_exec execs event =
    if not (exec_event_exists event execs) || event.path_name == ""
    then execs ++ exec_call_of event ∷ []
    else execs

unfoldable pub add_execs : List ExecCalls → List ExecveEvent → List ExecCalls
unfolding add_exec
add_execs execs [] = execs
add_execs execs (event ∷ events) = add_execs (add_exec execs event) events

unfoldable pub add_dns : List DnsCalls → List DnsEvent → List DnsCalls
unfolding dns_event_exists
add_dns dns [] = dns
add_dns dns (event ∷ events) =
    add_dns
      (if dns_event_exists event dns
        then dns
        else dns ++ record { dns_name = event.dns_name; addresses = event.addresses } ∷ [])
      events

-- The name goes into the first entry of the syscall of the event, or into a new one.
unfoldable pub add_capability : List CapabilitiesCalls → CapabilitiesEvent → List CapabilitiesCalls
unfolding slices_contains
add_capability [] event =
    record { capabilities = event.capability_name ∷ []; syscall = event.syscall } ∷ []
add_capability (c ∷ cs) event =
    let rest = add_capability cs event in
    if c.syscall == event.syscall
    then (if slices_contains c.capabilities event.capability_name
        then c
        else record c { capabilities = c.capabilities ++ event.capability_name ∷ [] })
      ∷ cs
    else c ∷ rest

unfoldable pub add_capabilities :
    List CapabilitiesCalls → List CapabilitiesEvent → List CapabilitiesCalls
unfolding add_capability
add_capabilities cs [] = cs
add_capabilities cs (event ∷ events) = add_capabilities (add_capability cs event) events

unfoldable pub add_open : OpenConfig → List String → List OpenCalls → OpenEvent → List OpenCalls
unfolding should_include_open_event
add_open config mounts opens event =
    if should_include_open_event config event opens mounts
    then opens ++ record { path = event.path_name; flags = event.flags } ∷ []
    else opens

unfoldable pub add_opens :
    OpenConfig → List String → List OpenCalls → List OpenEvent → List OpenCalls
unfolding add_open
add_opens config mounts opens [] = opens
add_opens config mounts opens (event ∷ events) =
    add_opens config mounts (add_open config mounts opens event) events

abbrev add_network_call : List NetworkCalls → NetworkEvent → List NetworkCalls
add_network_call calls event =
    if network_event_exists event calls
    then calls
    else calls
      ++ record { protocol = event.protocol; port = event.port; dst_endpoint = event.dst_endpoint }
        ∷ []

unfoldable pub add_network : NetworkActivity → NetworkEvent → NetworkActivity
unfolding network_event_exists
add_network activity event =
    if event.packet_type == "OUTGOING"
    then record activity { outgoing = add_network_call activity.outgoing event }
    else if event.packet_type == "HOST"
    then record activity { incoming = add_network_call activity.incoming event }
    else activity

unfoldable pub add_network_events : NetworkActivity → List NetworkEvent → NetworkActivity
unfolding add_network
add_network_events activity [] = activity
add_network_events activity (event ∷ events) =
    add_network_events (add_network activity event) events

unfoldable pub container_profile_of :
    OpenConfig → List String → String → TotalEvents → ContainerProfile
unfolding add_execs add_dns add_capabilities add_opens add_network_events
container_profile_of config mounts name t = record {
  name = name;
  execs = add_execs [] t.exec_events;
  opens = add_opens config mounts [] t.open_events;
  network_activity = add_network_events (record { incoming = []; outgoing = [] }) t.network_events;
  capabilities = add_capabilities [] t.capabilities_events;
  dns = add_dns [] t.dns_events;
  sys_calls = t.syscall_events;
}
