-- ===== src/Udp.antt =====
-- udp.go: the datagrams of the relay (Udp/Relay) and its NAT table (Udp/Nat).
pub mod Relay
pub mod Nat
pub mod Runs
