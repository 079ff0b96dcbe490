-- ===== src/ShadowAead.antt =====
-- Package shadowaead: AEAD-protected streams and packets.
pub mod Aead
pub mod Nonce
pub mod Stream
pub mod Cipher
pub mod Packet
pub mod Conn
pub mod Runs
