-- ===== src/EventSink/Arrival.antt =====
-- The way of an event from the callback of its gadget to the collector.
use kapprofiler.Base.{
  if_true, if_false, suc, ◌<◌, ◌≡◌, refl, true, false, String, string_comparable, List, [], ◌∷◌,
  ◌++◌, length, arith, ap, ◌∙◌, ◌==◌, ==_refl, sym,
}
use kapprofiler.MapDb.Defs.{get}
use kapprofiler.MapDb.Keys.{get_n_clean-get}
use kapprofiler.Tracing.Events.{OpenEvent, open_event_type}
use kapprofiler.Tracing.Callbacks.{
  SinkCall, send_execve, send_open, send_capabilities, send_dns, send_network, send_random_x,
  report_error, GadgetEvent, ℤ, is_success, is_normal, open_event_callback, open_event_of_gadget,
  to_sinks, general_event_of,
}
use kapprofiler.EventSink.Pipe.{Pipe, Outcome, done, send, collect}
use kapprofiler.EventSink.Defs.{
  with_pipe, EventSink, send_execve_event, send_open_event, send_capabilities_event, send_dns_event,
  send_network_event, is_admitted, bucket_of, event_bucket, get_open_events,
}
use kapprofiler.EventSink.Delivery.{in_bucket, in_bucket-append}
use kapprofiler.EventSink.Worker.{event_worker, event_worker-ends, waits, ended, is_open}

-- A call of a sink by a tracer: `SendRandomXEvent` does nothing, and `ReportError` only logs.
unfoldable pub deliver : SinkCall → EventSink → Outcome EventSink
unfolding send_execve_event send_open_event send_capabilities_event send_dns_event
    send_network_event
deliver (send_execve e) es = send_execve_event e es
deliver (send_open e) es = send_open_event e es
deliver (send_capabilities e) es = send_capabilities_event e es
deliver (send_dns e) es = send_dns_event e es
deliver (send_network e) es = send_network_event e es
deliver (send_random_x e) es = done es
deliver (report_error kind message) es = done es

abbrev pub open_bucket : OpenEvent → String
open_bucket e = event_bucket "open" e.general_event

abbrev with_sent : {A : Type 0} → Pipe A → A → Pipe A
with_sent p a = record p { channel = record (p.channel) { buffer = p.channel.buffer ++ a ∷ [] } }

send-room :
    {A : Type 0} (a : A) (p : Pipe A)
    → p.channel.is_closed ≡ false
    → length p.channel.buffer < p.channel.capacity
    → send a p ≡ done (with_sent p a)
unfolding send
send-room a p h k = ground arith

send_open_event-admitted :
    (e : OpenEvent) (es : EventSink)
    → is_admitted open_event_type e.general_event es ≡ true
    → es.open_events.channel.is_closed ≡ false
    → length es.open_events.channel.buffer < es.open_events.channel.capacity
    → send_open_event e es ≡ done (record es { open_events = with_sent es.open_events e })
unfolding send_open_event
send_open_event-admitted e es h k room =
    if_true (is_admitted open_event_type e.general_event es)
      (with_pipe (λ p. record es { open_events = p }) (send e es.open_events)) (done es) h
    ∙ ap (with_pipe (λ p. record es { open_events = p })) (send-room e es.open_events k room)

in_bucket-own :
    {A : Type 0} (bucket : A → String) (xs : List A) (a : A)
    → in_bucket bucket (bucket a) (xs ++ a ∷ []) ≡ in_bucket bucket (bucket a) xs ++ a ∷ []
unfolding in_bucket
in_bucket-own bucket xs a =
    in_bucket-append bucket (bucket a) xs (a ∷ [])
    ∙ ap (λ l. in_bucket bucket (bucket a) xs ++ l)
        (if_true (bucket a == bucket a) (a ∷ []) [] (==_refl (bucket a)))

-- What the collector reads after an event was sent and the worker has caught up.
sent-worked :
    {A : Type 0} (bucket : A → String) (a : A) (p : Pipe A)
    → p.channel.is_closed ≡ false
    → is_open p.db ≡ true
    → (q : Pipe A) × ((event_worker bucket
            (suc (length (p.channel.buffer ++ a ∷ [])))
            (with_sent p a)
          ≡ waits q)
        × ((collect (bucket a) q).0
            ≡ get (bucket a) p.db ++ (in_bucket bucket (bucket a) p.channel.buffer ++ a ∷ [])))
unfolding collect
sent-worked bucket a p h open_map =
    let (q, ends) =
      event_worker-ends bucket (suc (length (p.channel.buffer ++ a ∷ [])))
        (p.channel.buffer ++ a ∷ []) (with_sent p a) refl (omega arith) open_map in
    (
      q,
      (
        ends.0 ∙ if_false p.channel.is_closed (ended q) (waits q) h,
        get_n_clean-get (bucket a) q.db
            ∙ ends.1.stored (bucket a)
            ∙ ap (λ l. get (bucket a) p.db ++ l) (in_bucket-own bucket p.channel.buffer a),
      ),
    )

-- A sink takes an event, and the collector gets it once the worker has caught up.
pub record Arrives (event : OpenEvent) (e : GadgetEvent) (es : EventSink) : Type 0 where
  pub sent : EventSink
  pub caught_up : Pipe OpenEvent
  pub delivered : deliver (send_open event) es ≡ done sent
  pub worked :
      event_worker open_bucket
        (suc (length (es.open_events.channel.buffer ++ event ∷ [])))
        sent.open_events
      ≡ waits caught_up
  pub read :
      (get_open_events e.common.namespace e.common.pod_name e.common.container_name
        (record sent { open_events = caught_up })).0
      ≡ (get_open_events e.common.namespace e.common.pod_name e.common.container_name es).0
        ++ (in_bucket open_bucket
              (bucket_of "open" e.common.namespace e.common.pod_name e.common.container_name)
              es.open_events.channel.buffer
            ++ event ∷ [])

Arrives-open :
    (full_path : String) (flags : List String) (e : GadgetEvent) (es : EventSink)
    → is_admitted open_event_type (general_event_of open_event_type 0 "" e) es ≡ true
    → es.open_events.channel.is_closed ≡ false
    → length es.open_events.channel.buffer < es.open_events.channel.capacity
    → is_open es.open_events.db ≡ true
    → Arrives (open_event_of_gadget full_path flags e) e es
unfolding deliver get_open_events collect open_event_of_gadget general_event_of
Arrives-open full_path flags e es admitted not_closed room open_map =
    let event = open_event_of_gadget full_path flags e in
    let (q, a) = sent-worked open_bucket event es.open_events not_closed open_map in
    record {
      sent = record es { open_events = with_sent es.open_events event };
      caught_up = q;
      delivered = send_open_event-admitted event es admitted not_closed room;
      worked = a.0;
      read =
          a.1
          ∙ ap
              (λ l.
                l
                ++ (in_bucket open_bucket (open_bucket event) es.open_events.channel.buffer
                    ++ event ∷ []))
              (sym (get_n_clean-get (open_bucket event) es.open_events.db));
    }

normal-success :
    {L : Type 0} (sinks : List L) (ret : ℤ) (full_path : String) (flags : List String)
    (e : GadgetEvent)
    → is_normal e.message_type ≡ true
    → is_success ret ≡ true
    → open_event_callback sinks ret full_path flags e
      ≡ to_sinks sinks (send_open (open_event_of_gadget full_path flags e))
unfolding open_event_callback
normal-success sinks ret full_path flags e h k = rw (h, k, open_event_callback) refl

-- An open event of a gadget that is no error message, of an open that went well: the callback sends
-- it to each sink once, in order. In a sink that admits it, with room in its open channel, the
-- worker then waits again after as many rounds as events wait, and the collector reads for the pod
-- and the container of the event what it would have read before, then the other events of the
-- bucket that waited, then this one.
pub open_event_callback-Arrives :
    {L : Type 0} (sinks : List L) (ret : ℤ) (full_path : String) (flags : List String)
    (e : GadgetEvent) (es : EventSink)
    → is_normal e.message_type ≡ true
    → is_success ret ≡ true
    → is_admitted open_event_type (general_event_of open_event_type 0 "" e) es ≡ true
    → es.open_events.channel.is_closed ≡ false
    → length es.open_events.channel.buffer < es.open_events.channel.capacity
    → is_open es.open_events.db ≡ true
    → (open_event_callback sinks ret full_path flags e
        ≡ to_sinks sinks (send_open (open_event_of_gadget full_path flags e)))
      × Arrives (open_event_of_gadget full_path flags e) e es
open_event_callback-Arrives sinks ret full_path flags e es h k admitted not_closed room open_map = (
  normal-success sinks ret full_path flags e h k,
  Arrives-open full_path flags e es admitted not_closed room open_map,
)
