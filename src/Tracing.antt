-- ===== src/Tracing.antt =====
-- pkg/tracing: the events, and the tracer that starts and stops the tracing of containers.
pub mod Events
pub mod Defs
pub mod Counts
pub mod Kept
pub mod Kinds
pub mod Traces
pub mod Listeners
pub mod Gadgets
pub mod Runtime
pub mod Detected
pub mod Peek
pub mod Starts
pub mod Loop
pub mod Leaks
pub mod Balance
pub mod Silent
pub mod Callbacks
