-- ===== src/EventSink.antt =====
-- pkg/eventsink/es.go: the sink takes the events of the traced containers, and its workers sort
-- them into buckets from which the collector takes them.
pub mod Pipe
pub mod Defs
pub mod Filters
pub mod Buckets
pub mod Delivery
pub mod Worker
pub mod Arrival
