-- ===== src/Bpf.antt =====
-- The eBPF side: pkg/ebpf/gadgets/randomx/tracer/bpf and pkg/ebpf/include, without the generated
-- vmlinux.h. A program runs on a `Kernel`: what the BPF helpers return, and the kernel's memory.
pub mod Kernel
pub mod Access
pub mod Filter
pub mod Buffer
pub mod Program
pub mod Raw
pub mod Event
pub mod Mxcsr
pub mod Emission
pub mod Transport
