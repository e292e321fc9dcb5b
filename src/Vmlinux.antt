-- ===== src/Vmlinux.antt =====
-- The kernel types of pkg/ebpf/include/amd64/vmlinux.h that the BPF program reads, and every
-- type that those embed, as layouts.
pub mod Scalars
pub mod Basic
pub mod Sched
pub mod Parts
pub mod Fpu
pub mod TaskMembers
pub mod Task
pub mod Namespaces
pub mod Trace
pub mod Credentials
pub mod Signals
pub mod Proxies
pub mod Memory
pub mod Users
pub mod Keys
pub mod Inodes
pub mod Files
pub mod Mounts
pub mod Supers
pub mod Groups
pub mod Ipc
pub mod PerfParts
pub mod Perf
pub mod Enums
pub mod MapTypes
