-- ===== src/Sender/Invariant.antt =====
-- The invariant that ties a stream's queue and counters to the bytes accepted and framed so far.
use quic_ruby.Base.{ℕ, ◌≤◌, ◌<◌, ◌≡◌, true, List, length, take, drop, flatten, All, long_limit}
use quic_ruby.Stream.{Stream}

-- `accepted` are the bytes of all successful writes, `framed` those that ngtcp2 put into packets.
pub record IsSending (accepted framed : List ℕ) (s : Stream) : Type 0 where
  pub queued : flatten s.pending_chunks ≡ drop s.pending_shifted accepted
  pub filled : All (λ c. 0 < length c) s.pending_chunks
  pub shifted_le : s.pending_shifted ≤ s.acked_offset
  pub acked_le : s.acked_offset ≤ s.sent_offset
  pub sent_le : s.sent_offset ≤ length accepted
  pub in_order : framed ≡ take s.sent_offset accepted
  pub flushed : s.fin_flushed ≡ true → (s.fin_sent ≡ true) × (s.sent_offset ≡ length accepted)
  pub small : length accepted < long_limit
