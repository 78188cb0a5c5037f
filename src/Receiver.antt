-- ===== src/Receiver.antt =====
-- The receiving side: bytes that ngtcp2 delivers until the application reads them, and streams of the
-- server until the application accepts them. The code is read_nonblock and eof? in ext/quic/stream.c,
-- the recv_stream_data callback in ext/quic/connection_client.c and the accept calls in
-- lib/quic/connection.rb.
pub mod Read
pub mod History
pub mod Collects
pub mod Steps
pub mod Session
pub mod Reading
pub mod Blocking
pub mod Waiting
pub mod Surfaces
pub mod Accept
