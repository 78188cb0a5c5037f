-- ===== src/Client.antt =====
-- Quic::Connection::Client of ext/quic/connection_client.c, one module for each of its duties.
pub mod Objects
pub mod Callbacks
pub mod State
pub mod Picker
pub mod Packets
pub mod Io
pub mod Close
pub mod Frame
pub mod Pump
pub mod Read
pub mod Rand
pub mod Alpn
pub mod Config
pub mod Setup
pub mod Open
pub mod New
pub mod Accept
pub mod Stuck
