-- ===== src/Datapath.antt =====
-- The kernel programs under bpf: tc_egress.c, xdp_ingress.c and their headers.
pub mod Packet
pub mod Safe
pub mod Egress
pub mod Ingress
pub mod Arrival
