-- ===== src/Sender/Write.antt =====
-- quic_stream_enqueue: what a write adds to the stream's bytes, and when it is refused.
use quic_ruby.Base.{
  ℕ, ◌+◌, ◌<◌, ◌≡◌, sym, ap, ◌∙◌, Bool, false, List, [], ◌∷◌, ◌++◌, arith, length, flatten,
  flatten-snoc, All, All-snoc, long_limit, lt→ltb, drop-append_le, take-append_le, length-append,
  append-nil,
}
use quic_ruby.Ruby.{string, Encoding, ok}
use quic_ruby.Stream.{Stream, append_chunk, enqueue}
use quic_ruby.Sender.Invariant.{IsSending}

-- A write is accepted whole, and only while the sending side is open.
pub enqueue-accepts :
    (s : Stream) (e : Encoding) (bytes : List ℕ) (fin : Bool)
    → s.reset ≡ false
    → s.closed ≡ false
    → s.fin_sent ≡ false
    → enqueue s (string e bytes) fin ≡ (ok (length bytes), append_chunk s bytes fin)
unfolding enqueue
enqueue-accepts s e bytes fin r c f = ground arith

pub append_chunk-flatten :
    (s : Stream) (bytes : List ℕ) (fin : Bool)
    → flatten (append_chunk s bytes fin).pending_chunks ≡ flatten s.pending_chunks ++ bytes
unfolding append_chunk
append_chunk-flatten s [] fin = sym (append-nil (flatten s.pending_chunks))
append_chunk-flatten s (b ∷ bytes) fin = ground (arith, flatten-snoc s.pending_chunks (b ∷ bytes))

append_chunk-filled :
    (s : Stream) (bytes : List ℕ) (fin : Bool)
    → All (λ c. 0 < length c) s.pending_chunks
    → All (λ c. 0 < length c) (append_chunk s bytes fin).pending_chunks
unfolding append_chunk
append_chunk-filled s [] fin h = h
append_chunk-filled s (b ∷ bytes) fin h =
    rw (lt→ltb 0 (length (b ∷ bytes)) (omega arith))
      (All-snoc (λ c. 0 < length c) s.pending_chunks (b ∷ bytes) h (omega arith))

module _ {accepted framed : List ℕ} {s : Stream} (v : IsSending accepted framed s) where
  -- The bytes of an accepted write go to the end of the stream, and nothing else changes.
  pub append_chunk-IsSending :
      (bytes : List ℕ) (fin : Bool)
      → s.fin_sent ≡ false
      → length accepted + length bytes < long_limit
      → IsSending (accepted ++ bytes) framed (append_chunk s bytes fin)
  unfolding append_chunk
  append_chunk-IsSending bytes fin h k = record {
    queued =
        append_chunk-flatten s bytes fin
        ∙ ap (λ r. r ++ bytes) v.queued
        ∙ sym (drop-append_le s.pending_shifted accepted bytes (omega arith));
    filled = append_chunk-filled s bytes fin v.filled;
    shifted_le = v.shifted_le;
    acked_le = v.acked_le;
    sent_le = omega (arith, length-append accepted bytes);
    in_order = v.in_order ∙ sym (take-append_le s.sent_offset accepted bytes v.sent_le);
    flushed = λ f. absurd (cc (v.flushed f).0);
    small = omega (arith, length-append accepted bytes);
  }
