-- ===== src/Sender/Outbox.antt =====
-- An abstract view of a stream's sending side: a queue of unsent bytes, and the detailed operations
-- that implement it. Chunks, offsets and acknowledgements are forgotten.
pub mod Sends
pub mod Step
pub mod Refine
use quic_ruby.Base.{
  ℕ, ◌-◌, Bool, false, Option, none, some, List, [], ◌∷◌, ◌++◌, ◌&&◌, ◌||◌, not, length, take, drop,
  flatten, ltb, ◌==◌, if◌then◌else◌, is_positive, is_negative, magnitude,
}
use quic_ruby.Ruby.{Value, ascii_8bit}
use quic_ruby.Stream.{Stream, enqueue}
use quic_ruby.Ngtcp2.{Written}
use quic_ruby.Client.Callbacks.{acknowledge}
use quic_ruby.Client.Picker.{Candidate, candidate}
use quic_ruby.Client.Packets.{account}

-- The unsent bytes; whether the application has finished, FIN is out, and writes are accepted.
pub record Outbox : Type 0 where
  pub queue : List ℕ
  pub finished : Bool
  pub ended : Bool
  pub usable : Bool

pub data Op : Type 0 where
  write : List ℕ → Bool → Op
  send : Written → Op
  acknowledged : ℕ → Op

-- A packet that frames stream data, be it a FIN alone: ngtcp2 reports -1 in pdatalen where it does
-- not.
abbrev pub frames : Written → Bool
frames w = is_positive w.pdatalen || is_positive w.n && not (is_negative w.pdatalen)

-- What the component promises. A packet takes bytes from the front of the queue; FIN is out with the
-- packet that frames the end of a finished queue.
unfoldable pub spec_step : Outbox → Op → Outbox × List ℕ
spec_step b (write bytes fin) = (
  if b.usable && not b.finished then record b { queue = b.queue ++ bytes; finished = fin } else b,
  [],
)
spec_step b (send w) =
    let k = magnitude w.pdatalen in
    let left = drop k b.queue in
    (
      record b { queue = left; ended = b.ended || b.finished && length left == 0 && frames w },
      take k b.queue,
    )
spec_step b (acknowledged datalen) = (b, [])

-- What the code does: quic_stream_enqueue, the picker with the accounting of #write_pkt, and the
-- acknowledgement callback.
unfoldable pub send_picked : Stream → Option Candidate → Written → Stream × List ℕ
send_picked s none w = (s, [])
send_picked s (some p) w = (account s p w, take (magnitude w.pdatalen) p.bytes)

unfoldable pub step : Stream → Op → Stream × List ℕ
unfolding send_picked
step s (write bytes fin) = ((enqueue s (Value.string ascii_8bit bytes) fin).1, [])
step s (send w) = send_picked s (candidate s) w
step s (acknowledged datalen) = (acknowledge s datalen, [])

-- The abstract view of a stream.
unfoldable pub outbox : Stream → Outbox
outbox s = record {
  queue = drop (s.sent_offset - s.pending_shifted) (flatten s.pending_chunks);
  finished = s.fin_sent;
  ended = s.fin_flushed;
  usable = not (s.reset || s.closed);
}

-- A sequence of operations, with all bytes that were sent.
unfoldable pub run : Stream → List Op → Stream × List ℕ
run s [] = (s, [])
run s (op ∷ ops) = let (t, bytes) = step s op in let (u, more) = run t ops in (u, bytes ++ more)

unfoldable pub spec_run : Outbox → List Op → Outbox × List ℕ
spec_run b [] = (b, [])
spec_run b (op ∷ ops) =
    let (c, bytes) = spec_step b op in let (d, more) = spec_run c ops in (d, bytes ++ more)
