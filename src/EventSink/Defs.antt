-- ===== src/EventSink/Defs.antt =====
-- `EventSink` from `Start` on, and its methods. The five kinds of events go five equal ways.
use Prim.Native.String.{◌++◌ as str_append}
use kapprofiler.Base.{
  Bool, not, ◌&&◌, ◌||◌, String, string_comparable, List, [], ◌∷◌, ◌++◌, any, ◌==◌, if◌then◌else◌,
}
use kapprofiler.MapDb.Defs.{delete_key, close}
use kapprofiler.Tracing.Events.{
  EventType, all_event_type, execve_event_type, open_event_type, capabilities_event_type,
  dns_event_type, network_event_type, event_type_comparable, ExecveEvent, OpenEvent,
  CapabilitiesEvent, DnsEvent, NetworkEvent, GeneralEvent,
}
use kapprofiler.EventSink.Pipe.{
  Pipe, Outcome, done, blocked, panicked, make_pipe, send, work, collect, close_channel,
}

pub record EventSinkFilter : Type 0 where
  pub event_type : EventType
  pub container_id : String

pub record EventSink : Type 0 where
  pub filter_events : Bool
  pub execve_events : Pipe ExecveEvent
  pub open_events : Pipe OpenEvent
  pub capabilities_events : Pipe CapabilitiesEvent
  pub dns_events : Pipe DnsEvent
  pub network_events : Pipe NetworkEvent
  pub event_filters : List EventSinkFilter

-- `NewEventSink` and `Start`: empty channels and maps, and no filters.
unfoldable pub start : Bool → EventSink
unfolding make_pipe
start filter_events = record {
  filter_events = filter_events;
  execve_events = make_pipe;
  open_events = make_pipe;
  capabilities_events = make_pipe;
  dns_events = make_pipe;
  network_events = make_pipe;
  event_filters = [];
}

abbrev pub same_filter : EventSinkFilter → EventSinkFilter → Bool
same_filter f filter = f.event_type == filter.event_type && f.container_id == filter.container_id

unfoldable pub add_filter_to : List EventSinkFilter → EventSinkFilter → List EventSinkFilter
unfolding any
add_filter_to fs filter = if any (λ f. same_filter f filter) fs then fs else fs ++ filter ∷ []

unfoldable pub add_filter : EventSinkFilter → EventSink → EventSink
unfolding add_filter_to
add_filter filter es = record es { event_filters = add_filter_to es.event_filters filter }

abbrev pub is_removed_by : EventSinkFilter → EventSinkFilter → Bool
is_removed_by filter f =
    f.container_id == filter.container_id
    && (f.event_type == filter.event_type || filter.event_type == all_event_type)

-- The loop of `RemoveFilter`: the first filter that fits goes, and the loop ends.
unfoldable pub remove_filter_from : List EventSinkFilter → EventSinkFilter → List EventSinkFilter
remove_filter_from [] filter = []
remove_filter_from (f ∷ fs) filter =
    if is_removed_by filter f then fs else f ∷ remove_filter_from fs filter

unfoldable pub remove_filter : EventSinkFilter → EventSink → EventSink
unfolding remove_filter_from
remove_filter filter es = record es { event_filters = remove_filter_from es.event_filters filter }

-- The test of a filter in the methods that send an event of a kind.
abbrev pub admits : EventType → String → EventSinkFilter → Bool
admits kind container_id filter =
    filter.container_id == container_id
    && (filter.event_type == all_event_type || filter.event_type == kind)

unfoldable pub is_admitted : EventType → GeneralEvent → EventSink → Bool
unfolding any
is_admitted kind e es = not es.filter_events || any (admits kind e.container_id) es.event_filters

-- `fmt.Sprintf("kind-%s-%s-%s", namespace, podName, container)`
unfoldable pub bucket_of : String → String → String → String → String
bucket_of kind namespace pod_name container = str_append kind (
    str_append "-"
      (str_append namespace (str_append "-" (str_append pod_name (str_append "-" container)))))

abbrev pub event_bucket : String → GeneralEvent → String
event_bucket kind e = bucket_of kind e.namespace e.pod_name e.container_name

module _ {A : Type 0} where
  abbrev pub with_pipe : (Pipe A → EventSink) → Outcome (Pipe A) → Outcome EventSink
  with_pipe f (done p) = done (f p)
  with_pipe f blocked = blocked
  with_pipe f panicked = panicked

unfoldable pub send_execve_event : ExecveEvent → EventSink → Outcome EventSink
unfolding send is_admitted
send_execve_event event es =
    if is_admitted execve_event_type event.general_event es
    then with_pipe (λ p. record es { execve_events = p }) (send event es.execve_events)
    else done es

unfoldable pub send_open_event : OpenEvent → EventSink → Outcome EventSink
unfolding send is_admitted
send_open_event event es =
    if is_admitted open_event_type event.general_event es
    then with_pipe (λ p. record es { open_events = p }) (send event es.open_events)
    else done es

unfoldable pub send_capabilities_event : CapabilitiesEvent → EventSink → Outcome EventSink
unfolding send is_admitted
send_capabilities_event event es =
    if is_admitted capabilities_event_type event.general_event es
    then with_pipe (λ p. record es { capabilities_events = p }) (send event es.capabilities_events)
    else done es

unfoldable pub send_dns_event : DnsEvent → EventSink → Outcome EventSink
unfolding send is_admitted
send_dns_event event es =
    if is_admitted dns_event_type event.general_event es
    then with_pipe (λ p. record es { dns_events = p }) (send event es.dns_events)
    else done es

unfoldable pub send_network_event : NetworkEvent → EventSink → Outcome EventSink
unfolding send is_admitted
send_network_event event es =
    if is_admitted network_event_type event.general_event es
    then with_pipe (λ p. record es { network_events = p }) (send event es.network_events)
    else done es

-- One round of the worker's loop.
unfoldable pub execve_event_worker : EventSink → Outcome EventSink
unfolding work bucket_of
execve_event_worker es =
    with_pipe (λ p. record es { execve_events = p })
      (work (λ e. event_bucket "execve" e.general_event) es.execve_events)

-- One round of the worker's loop.
unfoldable pub open_event_worker : EventSink → Outcome EventSink
unfolding work bucket_of
open_event_worker es =
    with_pipe (λ p. record es { open_events = p })
      (work (λ e. event_bucket "open" e.general_event) es.open_events)

-- One round of the worker's loop.
unfoldable pub capabilities_event_worker : EventSink → Outcome EventSink
unfolding work bucket_of
capabilities_event_worker es =
    with_pipe (λ p. record es { capabilities_events = p })
      (work (λ e. event_bucket "capabilities" e.general_event) es.capabilities_events)

-- One round of the worker's loop.
unfoldable pub dns_event_worker : EventSink → Outcome EventSink
unfolding work bucket_of
dns_event_worker es =
    with_pipe (λ p. record es { dns_events = p })
      (work (λ e. event_bucket "dns" e.general_event) es.dns_events)

-- One round of the worker's loop.
unfoldable pub network_event_worker : EventSink → Outcome EventSink
unfolding work bucket_of
network_event_worker es =
    with_pipe (λ p. record es { network_events = p })
      (work (λ e. event_bucket "network" e.general_event) es.network_events)

unfoldable pub get_execve_events :
    String → String → String → EventSink → List ExecveEvent × EventSink
unfolding collect bucket_of
get_execve_events namespace pod_name container_id es =
    let (events, p) =
      collect (bucket_of "execve" namespace pod_name container_id) es.execve_events in
    (events, record es { execve_events = p })

unfoldable pub get_open_events : String → String → String → EventSink → List OpenEvent × EventSink
unfolding collect bucket_of
get_open_events namespace pod_name container_id es =
    let (events, p) = collect (bucket_of "open" namespace pod_name container_id) es.open_events in
    (events, record es { open_events = p })

unfoldable pub get_capabilities_events :
    String → String → String → EventSink → List CapabilitiesEvent × EventSink
unfolding collect bucket_of
get_capabilities_events namespace pod_name container_id es =
    let (events, p) =
      collect (bucket_of "capabilities" namespace pod_name container_id) es.capabilities_events in
    (events, record es { capabilities_events = p })

unfoldable pub get_dns_events : String → String → String → EventSink → List DnsEvent × EventSink
unfolding collect bucket_of
get_dns_events namespace pod_name container_id es =
    let (events, p) = collect (bucket_of "dns" namespace pod_name container_id) es.dns_events in
    (events, record es { dns_events = p })

unfoldable pub get_network_events :
    String → String → String → EventSink → List NetworkEvent × EventSink
unfolding collect bucket_of
get_network_events namespace pod_name container_id es =
    let (events, p) =
      collect (bucket_of "network" namespace pod_name container_id) es.network_events in
    (events, record es { network_events = p })

abbrev deleted : {A : Type 0} → String → Pipe A → Pipe A
deleted bucket p = record p { db = delete_key bucket p.db }

unfoldable pub cleanup_container : String → String → String → EventSink → EventSink
unfolding delete_key bucket_of
cleanup_container namespace pod_name container_id es = record es {
  execve_events = deleted (bucket_of "execve" namespace pod_name container_id) es.execve_events;
  open_events = deleted (bucket_of "open" namespace pod_name container_id) es.open_events;
  capabilities_events =
      deleted (bucket_of "capabilities" namespace pod_name container_id) es.capabilities_events;
  dns_events = deleted (bucket_of "dns" namespace pod_name container_id) es.dns_events;
  network_events = deleted (bucket_of "network" namespace pod_name container_id) es.network_events;
}

infixl 5 ◌>>=◌
abbrev pub ◌>>=◌ : {S T : Type 0} → Outcome S → (S → Outcome T) → Outcome T
done s >>= f = f s
blocked >>= f = blocked
panicked >>= f = panicked

-- The channels are closed one after another.
unfoldable pub stop : EventSink → Outcome EventSink
unfolding close_channel
stop es = do
  execve_closed ← close_channel es.execve_events
  open_closed ← close_channel es.open_events
  capabilities_closed ← close_channel es.capabilities_events
  dns_closed ← close_channel es.dns_events
  network_closed ← close_channel es.network_events
  done (record es {
    execve_events = execve_closed;
    open_events = open_closed;
    capabilities_events = capabilities_closed;
    dns_events = dns_closed;
    network_events = network_closed;
  })

abbrev closed_db : {A : Type 0} → Pipe A → Pipe A
closed_db p = record p { db = close p.db }

unfoldable pub close_sink : EventSink → EventSink
unfolding close
close_sink es = record es {
  execve_events = closed_db es.execve_events;
  open_events = closed_db es.open_events;
  capabilities_events = closed_db es.capabilities_events;
  dns_events = closed_db es.dns_events;
  network_events = closed_db es.network_events;
}
