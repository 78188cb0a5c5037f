-- ===== src/Client/Io/Unqueued.antt =====
-- What the window check of #write_nonblock leaves out (ext/quic/stream.c).
use quic_ruby.Base.{
  ℕ, ◌<◌, ◌≡◌, refl, true, false, none, List, arith, length, ◌==◌, ==_iff, Bool, Bool-cases, inl,
  inr,
}
use quic_ruby.Ruby.{
  Value, string, Encoding, Result, ok, raise, quic, ErrorClass, Kwargs, check_string,
}
use quic_ruby.Ngtcp2.{Ngtcp2}
use quic_ruby.Stream.{Stream, enqueue, append_chunk}
use quic_ruby.Client.State.{Client}
use quic_ruby.Client.Io.{stream, enqueue_on, fin_kwarg, window_left, write_window, write_nonblock}

module _ {Conn : Type 0} (n : Ngtcp2 Conn) (c : Client Conn) (r : ℕ) where
  -- An empty window comes before the state of the stream: a non-empty write raises WaitWritable and
  -- changes nothing, also on a stream that was reset or closed, or whose FIN was requested.
  pub write_nonblock-full :
      (e : Encoding) (bytes : List ℕ) (opts : Kwargs)
      → (stream c r).has_client ≡ true
      → 0 < length bytes
      → window_left n c r ≡ 0
      → write_nonblock n c r (string e bytes) opts ≡ (raise (quic ErrorClass.wait_writable none), c)
  unfolding write_nonblock write_window
  write_nonblock-full e bytes opts own filled full = rw (write_nonblock, own, nonempty, full) refl
    where
      nonempty : (length bytes == 0) ≡ false
      nonempty = ground arith

  enqueue-id : (s : Stream) (v : Value) (fin : Bool) → (enqueue s v fin).1.stream_id ≡ s.stream_id
  unfolding enqueue append_chunk
  enqueue-id s v fin = ground arith

  window_left-enqueue_on :
      (v : Value) (fin : Bool) → window_left n (enqueue_on c r v fin).1 r ≡ window_left n c r
  unfolding window_left enqueue_on
  window_left-enqueue_on v fin = rw ((==_iff r r).1 refl, enqueue-id (stream c r) v fin) refl

  window_left-write_window :
      (v : Value) (bytes : List ℕ) (fin : Bool) (avail : ℕ)
      → window_left n (write_window n c r v bytes fin avail).1 r ≡ window_left n c r
  unfolding write_window
  window_left-write_window v bytes fin avail = elim (Bool-cases (avail == 0)) [
    | inl e ↦ rw (write_window, e) refl
    | inr e ↦ rw (write_window, e) (window_left-enqueue_on _ _)
  ]

  window_left-checked :
      (v : Value) (opts : Kwargs) (checked : Result (List ℕ))
      → (stream c r).has_client ≡ true
      → check_string v ≡ checked
      → window_left n (write_nonblock n c r v opts).1 r ≡ window_left n c r
  unfolding write_nonblock
  window_left-checked v opts (raise x) own e = rw (write_nonblock, own, e) refl
  window_left-checked v opts (ok bytes) own e = elim (Bool-cases (length bytes == 0)) [
    | inl z ↦ rw (write_nonblock, own, e, z) (window_left-enqueue_on v (fin_kwarg opts))
    | inr z ↦
        rw (write_nonblock, own, e, z)
          (window_left-write_window v bytes (fin_kwarg opts) (window_left n c r))
  ]

  -- The window that #write_nonblock reads is the same after a write as before it: it counts no
  -- byte that is queued and not yet in a packet.
  pub window_left-write_nonblock :
      (v : Value) (opts : Kwargs)
      → window_left n (write_nonblock n c r v opts).1 r ≡ window_left n c r
  unfolding write_nonblock
  window_left-write_nonblock v opts = elim (Bool-cases (stream c r).has_client) [
    | inl own ↦ window_left-checked v opts (check_string v) own refl
    | inr bare ↦ rw (write_nonblock, bare) (window_left-enqueue_on v (fin_kwarg opts))
  ]
