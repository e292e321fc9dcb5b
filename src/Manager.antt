-- ===== src/Manager.antt =====
-- pkg/collector/collector.go: the containers that are recorded and the handlers of their events.
pub mod Defs
pub mod Collect
pub mod Running
pub mod History
