-- ===== src/Sender.antt =====
-- The sending side of a stream: from the bytes that the application writes to those that ngtcp2 frames.
-- The code is enqueue in ext/quic/stream.c, and the picker, the accounting and the acknowledgement
-- loop in ext/quic/connection_client.c.
pub mod Invariant
pub mod Chunks
pub mod Pick
pub mod Write
pub mod Ack
pub mod Account
pub mod Tracks
pub mod Callbacks
pub mod Choice
pub mod Keeps
pub mod Packet
pub mod Outbox
pub mod Flush
pub mod Accepted
pub mod Steps
pub mod Run
pub mod Retain
pub mod Idle
pub mod Writing
