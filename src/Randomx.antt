-- ===== src/Randomx.antt =====
-- pkg/ebpf/gadgets/randomx/tracer/tracer.go: the loop that reads the BPF program's events and
-- raises an alert for a mount namespace after a long enough burst of them.
pub mod Defs
pub mod Burst
pub mod Loop
