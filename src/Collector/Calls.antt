-- ===== src/Collector/Calls.antt =====
-- The records of pkg/collector/types.go, and the tests of pkg/collector/collector.go whether an
-- event is among the calls that were recorded.
use kapprofiler.Base.{
  ℕ, Bool, true, false, not, ◌&&◌, String, List, [], ◌∷◌, any, length, eqb, ◌==◌, nat_comparable,
  string_comparable, slices_equal, slices_contains, if◌then◌else◌, ltb,
}
use text.Mathlib.Text.{starts_with}
use kapprofiler.Tracing.Events.{ExecveEvent, OpenEvent, DnsEvent, NetworkEvent}

pub record ExecCalls : Type 0 where
  pub path : String
  pub upper_layer : Bool
  pub args : List String
  pub envs : List String

pub record NetworkCalls : Type 0 where
  pub protocol : String
  pub port : ℕ
  pub dst_endpoint : String

pub record NetworkActivity : Type 0 where
  pub incoming : List NetworkCalls
  pub outgoing : List NetworkCalls

pub record OpenCalls : Type 0 where
  pub path : String
  pub flags : List String

pub record CapabilitiesCalls : Type 0 where
  pub capabilities : List String
  pub syscall : String

pub record DnsCalls : Type 0 where
  pub dns_name : String
  pub addresses : List String

pub record ContainerProfile : Type 0 where
  pub name : String
  pub execs : List ExecCalls
  pub opens : List OpenCalls
  pub network_activity : NetworkActivity
  pub capabilities : List CapabilitiesCalls
  pub dns : List DnsCalls
  pub sys_calls : List String

-- `MaxOpenEvents` and `MaxNetworkEvents`
abbrev pub max_open_events : ℕ
max_open_events = 10000

abbrev pub max_network_events : ℕ
max_network_events = 10000

abbrev pub same_bool : Bool → Bool → Bool
same_bool a b = if a then b else not b

-- The test of the loop of `execEventExists`.
unfoldable pub is_exec_call : ExecveEvent → ExecCalls → Bool
unfolding slices_equal
is_exec_call event call =
    event.path_name == call.path
    && (slices_equal event.args call.args
        && (slices_equal event.env call.envs && same_bool event.upper_layer call.upper_layer))

unfoldable pub exec_event_exists : ExecveEvent → List ExecCalls → Bool
unfolding any is_exec_call
exec_event_exists event calls = any (is_exec_call event) calls

abbrev pub is_network_call : NetworkEvent → NetworkCalls → Bool
is_network_call event call =
    event.dst_endpoint == call.dst_endpoint
    && (eqb event.port call.port && event.protocol == call.protocol)

unfoldable pub network_event_exists : NetworkEvent → List NetworkCalls → Bool
unfolding any
network_event_exists event calls = any (is_network_call event) calls

-- The loop appends the addresses to a copy of the call, so that only the answer remains.
unfoldable pub dns_event_exists : DnsEvent → List DnsCalls → Bool
unfolding any
dns_event_exists event calls = any (λ call. event.dns_name == call.dns_name) calls

unfoldable pub has_all_flags : List String → List String → Bool
unfolding slices_contains
has_all_flags [] flags = true
has_all_flags (flag ∷ rest) flags = slices_contains flags flag && has_all_flags rest flags

-- Whether there is a call with the path of the event, and whether such a call has all its flags.
unfoldable pub open_event_exists : OpenEvent → List OpenCalls → Bool × Bool
unfolding has_all_flags
open_event_exists event [] = (false, false)
open_event_exists event (element ∷ elements) =
    let rest = open_event_exists event elements in
    if element.path == event.path_name
    then (if has_all_flags event.flags element.flags then (true, true) else (true, rest.1))
    else rest

-- The part of the collector's configuration that decides on open events.
pub record OpenConfig : Type 0 where
  pub ignore_mounts : Bool
  pub ignore_prefixes : List String

-- `strings.HasPrefix` of the path for some prefix.
unfoldable pub has_some_prefix : String → List String → Bool
unfolding any
has_some_prefix path prefixes = any (λ prefix. starts_with path prefix) prefixes

unfoldable pub should_include_open_event :
    OpenConfig → OpenEvent → List OpenCalls → List String → Bool
unfolding has_some_prefix open_event_exists
should_include_open_event config event calls mounts =
    let found = open_event_exists event calls in
    if ltb max_open_events (length calls)
    then false
    else if has_some_prefix event.path_name config.ignore_prefixes
    then false
    else if found.0 && found.1
    then false
    else not (config.ignore_mounts && has_some_prefix event.path_name mounts)
