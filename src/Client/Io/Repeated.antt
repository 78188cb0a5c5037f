-- ===== src/Client/Io/Repeated.antt =====
-- #write_nonblock called again before a packet is written (ext/quic/stream.c).
use quic_ruby.Base.{
  ℕ, zero, suc, ◌+◌, ◌*◌, ◌<◌, ◌≡◌, refl, ap, ◌∙◌, inl, inr, true, false, none, List, arith, length,
  flatten, min, take, length-take, length-append, ==_iff,
}
use quic_ruby.Ruby.{string, Encoding}
use quic_ruby.Ngtcp2.{Ngtcp2}
use quic_ruby.Stream.{Stream, append_chunk}
use quic_ruby.Sender.Write.{append_chunk-flatten}
use quic_ruby.Client.State.{Client}
use quic_ruby.Client.Io.{stream, window_left, write_nonblock, fin_kwarg}
use quic_ruby.Client.Io.Window.{granted, write_nonblock-granted}
use quic_ruby.Client.Io.Unqueued.{window_left-write_nonblock}

-- An open stream of a client, whose FIN was not requested.
pub record IsOpen (s : Stream) : Type 0 where
  pub own : s.has_client ≡ true
  pub not_reset : s.reset ≡ false
  pub not_closed : s.closed ≡ false
  pub no_fin : s.fin_sent ≡ false

-- The bytes in `@pending_chunks`.
abbrev pub queued_length : Stream → ℕ
queued_length s = length (flatten s.pending_chunks)

sum_lem :
    (total start k part' part : ℕ)
    → total ≡ start + part
    → part' ≡ part
    → total + k * part' ≡ start + suc k * part
sum_lem total start k part' part e same = rw (e, same) (omega arith)

module _ {Conn : Type 0} (n : Ngtcp2 Conn) (r : ℕ) (e : Encoding) (bytes : List ℕ) where
  -- The same payload written `k` times.
  unfoldable pub write_again : ℕ → Client Conn → Client Conn
  write_again zero c = c
  write_again (suc k) c = write_again k (write_nonblock n c r (string e bytes) none).1

  append_chunk-IsOpen : (s : Stream) (part : List ℕ) → IsOpen s → IsOpen (append_chunk s part false)
  unfolding append_chunk
  append_chunk-IsOpen s part o = record {
    own = o.own;
    not_reset = o.not_reset;
    not_closed = o.not_closed;
    no_fin = o.no_fin;
  }

  append_chunk-queued :
      (s : Stream) (part : List ℕ)
      → queued_length (append_chunk s part false) ≡ queued_length s + length part
  append_chunk-queued s part =
      ap length (append_chunk-flatten s part false) ∙ length-append (flatten s.pending_chunks) part

  -- One write of a part of the payload.
  write_once :
      (c : Client Conn)
      → 0 < length bytes
      → 0 < window_left n c r
      → IsOpen (stream c r)
      → IsOpen (stream (write_nonblock n c r (string e bytes) none).1 r)
        × (queued_length (stream (write_nonblock n c r (string e bytes) none).1 r)
            ≡ queued_length (stream c r) + min (length bytes) (window_left n c r))
  unfolding fin_kwarg
  write_once c filled room o =
      elim (write_nonblock-granted n c r e bytes none o.own filled o.not_reset o.not_closed
        o.no_fin) [
          | inl (full, _) ↦ absurd (omega (arith, full))
          | inr (_, written) ↦
              rw (written, (==_iff r r).1 refl)
                (
                  append_chunk-IsOpen (stream c r) (take (granted n c r e bytes none) bytes) o,
                  append_chunk-queued (stream c r) (take (granted n c r e bytes none) bytes)
                      ∙ omega (arith, length-take (granted n c r e bytes none) bytes),
                )
        ]

  -- A payload that is written `k` times to an open stream, before a packet is written, is queued `k`
  -- times as far as the window has room for it: `k` such writes of a payload that fills the window
  -- queue `k` times the window.
  pub write_again-queues :
      (k : ℕ) (c : Client Conn)
      → 0 < length bytes
      → 0 < window_left n c r
      → IsOpen (stream c r)
      → queued_length (stream (write_again k c) r)
        ≡ queued_length (stream c r) + k * min (length bytes) (window_left n c r)
  unfolding write_again
  write_again-queues zero c filled room o = omega arith
  write_again-queues (suc k) c filled room o =
      let (still, grown) = write_once c filled room o in
      let same = window_left-write_nonblock n c r (string e bytes) none in
      write_again-queues k (write_nonblock n c r (string e bytes) none).1 filled
        (omega (arith, same)) still
      ∙ sum_lem _ (queued_length (stream c r)) k _ (min (length bytes) (window_left n c r)) grown
          (ap (min (length bytes)) same)
