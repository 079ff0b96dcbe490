-- ===== src/ShadowStream.antt =====
-- Package shadowstream: streams and packets under a stream cipher with no authentication.
pub mod Cipher
pub mod Stream
pub mod Conn
pub mod Packet
pub mod Runs
