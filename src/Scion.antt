-- ===== src/Scion.antt =====
-- pkg/scion: the paths to a remote AS, their order, the path cache and the host context.
pub mod Paths
pub mod Host
pub mod Cache
