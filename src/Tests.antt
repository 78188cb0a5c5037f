-- ===== src/Tests.antt =====
-- The theorems at concrete inputs, and runs of the definitions.
pub mod Peer
pub mod Sending
pub mod Runs
pub mod Retaining
pub mod Calls
pub mod Receiving
pub mod Ends
pub mod Limits
pub mod Blocking
pub mod Refining
pub mod Guards
pub mod Sessions
pub mod Ids
pub mod Writing
pub mod Refused
pub mod Opening
