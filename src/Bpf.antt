-- ===== src/Bpf.antt =====
-- internal/bpf: the Go side of the eBPF maps and programs.
pub mod Types
pub mod Kernel
pub mod Loader
