-- ===== src/M7mux.antt =====
-- src/stdlib/protocol/udp/m7mux: the UDP multiplexer.
pub mod Normalize
pub mod Inbox
pub mod Packet
pub mod Stream
pub mod Session
pub mod Egress
pub mod Outbox
pub mod Ingress
