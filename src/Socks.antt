-- ===== src/Socks.antt =====
-- Package socks (socks/socks.go): SOCKS addresses and the server side of the SOCKS5 handshake.
pub mod Text
pub mod Addr
pub mod Handshake
pub mod Runs
