-- ===== src/Tests.antt =====
-- The theorems at concrete inputs, and runs of the definitions.
mod Bpf
mod Randomx
mod MapDb
mod EventSink
mod Tracing
mod Collector
mod Finalizer
mod Manager
mod Watcher
mod Stops
mod Controller
mod Gadgets
mod Runtime
mod Main
