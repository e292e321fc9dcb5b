-- ===== src/Finalizer.antt =====
-- pkg/collector/pod_finalizer.go: the table of the pods and the timers that finalize profiles.
pub mod Defs
pub mod Timers
pub mod Handlers
pub mod History
