-- ===== src/Tests/Sending.antt =====
-- The sending side at concrete inputs.
use quic_ruby.Base.{ℕ, pos, ◌≡◌, refl, true, false, some, List, [], ◌∷◌, arith}
use quic_ruby.Stream.{Stream, stream_alloc}
use quic_ruby.Ngtcp2.{Written}
use quic_ruby.Client.Callbacks.{acknowledge}
use quic_ruby.Client.Picker.{Candidate, find_chunk, candidate}
use quic_ruby.Sender.Invariant.{IsSending}
use quic_ruby.Sender.Pick.{IsNext, candidate-IsNext}
use quic_ruby.Sender.Ack.{IsShifted, acknowledge-IsShifted}

-- Five bytes in two chunks, of which two are in packets and one is acknowledged.
abbrev pub busy : Stream
busy = record stream_alloc {
  stream_id = 0;
  sent_offset = 2;
  acked_offset = 1;
  fin_sent = true;
  has_client = true;
  pending_chunks = (1 ∷ 2 ∷ 3 ∷ []) ∷ (4 ∷ 5 ∷ []) ∷ [];
}

abbrev pub written_bytes : List ℕ
written_bytes = 1 ∷ 2 ∷ 3 ∷ 4 ∷ 5 ∷ []

abbrev pub framed_bytes : List ℕ
framed_bytes = 1 ∷ 2 ∷ []

pub busy-IsSending : IsSending written_bytes framed_bytes busy
unfolding stream_alloc
busy-IsSending = record {
  queued = refl;
  filled = (omega arith, (omega arith, tt));
  shifted_le = omega arith;
  acked_le = omega arith;
  sent_le = omega arith;
  in_order = refl;
  flushed = λ e. cc;
  small = omega arith;
}

abbrev pub next_bytes : Candidate
next_bytes = record { bytes = 3 ∷ []; datavcnt = 1; fin = false; stream_id = 0 }

pub busy_next : candidate busy ≡ some next_bytes
unfolding candidate find_chunk stream_alloc
busy_next = refl

candidate-IsNext_example : IsNext written_bytes busy next_bytes
candidate-IsNext_example = candidate-IsNext busy-IsSending next_bytes busy_next

abbrev pub one_byte_packet : Written
one_byte_packet = record { n = pos 40; dest = []; pdatalen = pos 1 }

acknowledge-IsShifted_example :
    IsShifted written_bytes 2 0
      ((acknowledge busy 1).pending_shifted, (acknowledge busy 1).pending_chunks)
unfolding stream_alloc
acknowledge-IsShifted_example = acknowledge-IsShifted busy-IsSending 1 (omega arith)
