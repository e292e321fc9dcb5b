-- ===== src/Collector.antt =====
-- pkg/collector: the profile that is made of the events of a container, and its merging.
pub mod Calls
pub mod Build
pub mod Execs
pub mod Capabilities
pub mod Opens
pub mod Merge
pub mod Merged
pub mod Network
pub mod Again
pub mod Lost
pub mod Dns
pub mod Equals
pub mod Names
pub mod Exists
