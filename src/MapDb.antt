-- ===== src/MapDb.antt =====
-- pkg/inmemorymapdb/in-memory-map-db.go: a map from keys to growing lists of values. Every method
-- holds the lock from its first to its last line, so a run of several clients is a sequence of
-- whole calls.
pub mod Defs
pub mod Keys
pub mod Delivery
