-- ===== src/Watcher.antt =====
-- pkg/watcher/watcher.go: the loop that passes on the events of a watch.
pub mod Defs
pub mod Versions
pub mod Listing
pub mod Stops
pub mod Stopped
