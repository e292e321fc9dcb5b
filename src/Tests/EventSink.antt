-- ===== src/Tests/EventSink.antt =====
-- The sink with a few events.
use kapprofiler.Base.{List, String, true, [], ◌∷◌, ◌≡◌, refl, any, arith}
use kapprofiler.Tracing.Events.{open_event_type}
use kapprofiler.EventSink.Pipe.{Pipe, make_pipe, send}
use kapprofiler.EventSink.Defs.{admits}
use kapprofiler.EventSink.Filters
use kapprofiler.EventSink.Filters.{adds, removes, filters_after, is_watched}
use kapprofiler.EventSink.Delivery
use kapprofiler.EventSink.Arrival
use kapprofiler.EventSink.Arrival.{Arrives}
use kapprofiler.EventSink.Defs.{EventSink, start, add_filter, add_filter_to, is_admitted}
use kapprofiler.Tracing.Events.{same_type, all_event_type}
use kapprofiler.Tracing.Callbacks.{
  GadgetEvent, normal, pos, open_event_callback, to_sinks, send_open, open_event_of_gadget,
  general_event_of,
}
use kapprofiler.EventSink.Worker
use kapprofiler.EventSink.Worker.{event_worker, ended, Drained}
use kapprofiler.EventSink.Delivery.{Reach, started, sent, worked, collected, flow, in_bucket}

filters_after-admits_example :
    any (admits open_event_type "c1") (filters_after (adds "c1" ∷ removes "c2" ∷ adds "c2" ∷ []))
    ≡ true
unfolding is_watched
filters_after-admits_example =
    Filters.filters_after-admits open_event_type "c1" (adds "c1" ∷ removes "c2" ∷ adds "c2" ∷ [])

abbrev own_name : String → String
own_name s = s

abbrev empty_pipe : Pipe String
unfolding make_pipe
empty_pipe = make_pipe

-- One event is sent.
abbrev one_event : Pipe String
unfolding make_pipe
one_event = record (empty_pipe) { channel = record (empty_pipe.channel) { buffer = "x" ∷ [] } }

Reach-flow_example : flow own_name "x" one_event [] ≡ "x" ∷ []
unfolding make_pipe send in_bucket
Reach-flow_example = Delivery.Reach-flow own_name "x" (sent "x" (started refl) refl refl)

abbrev waiting : Pipe String
unfolding make_pipe
waiting = record (empty_pipe) {
  channel = record (empty_pipe.channel) { buffer = "x" ∷ "y" ∷ []; is_closed = true };
}

event_worker-ends_example :
    (q : Pipe String) × ((event_worker own_name 3 waiting ≡ ended q) × Drained own_name waiting q)
unfolding make_pipe
event_worker-ends_example =
    Worker.event_worker-ends own_name 3 ("x" ∷ "y" ∷ []) waiting refl (ground arith) refl

abbrev opened : GadgetEvent
opened = record {
  message_type = normal;
  message = "";
  common = record {
    container_name = "nginx";
    container_id = "c1";
    pod_name = "web-1";
    namespace = "shop";
  };
  mount_ns_id = 7;
  timestamp = 5;
  pid = 30;
  uid = 0;
  gid = 0;
  comm = "nginx";
}

abbrev sinks : List String
sinks = "sink" ∷ []

abbrev sink : EventSink
unfolding start add_filter
sink = add_filter (record { event_type = all_event_type; container_id = "c1" }) (start true)

open_event_callback-Arrives_example :
    (open_event_callback sinks (pos 3) "/etc/passwd" ("O_RDONLY" ∷ []) opened
      ≡ to_sinks sinks (send_open (open_event_of_gadget "/etc/passwd" ("O_RDONLY" ∷ []) opened)))
    × Arrives (open_event_of_gadget "/etc/passwd" ("O_RDONLY" ∷ []) opened) opened sink
unfolding is_admitted make_pipe general_event_of add_filter_to sink same_type any
open_event_callback-Arrives_example =
    Arrival.open_event_callback-Arrives sinks (pos 3) "/etc/passwd" ("O_RDONLY" ∷ []) opened sink
      refl refl refl refl (ground arith) refl
