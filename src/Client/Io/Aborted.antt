-- ===== src/Client/Io/Aborted.antt =====
-- What is left of a stream's operations after a reset (ext/quic/stream.c, and quic_stream_reset_cb of
-- ext/quic/connection_client.c).
use quic_ruby.Base.{
  ◌∙◌, sym, ap, ◌&&◌, not, List, length, ◌==◌, if◌then◌else◌, inl, inr, Bool-cases, ℕ, ◌≡◌, refl,
  Bool, true, false, none, some, ==_iff, ◌||◌,
}
use quic_ruby.Ruby.{string, Encoding, Kwargs, Exception, Result, Value, ok, raise, quic, ErrorClass}
use quic_ruby.Ngtcp2.{Ngtcp2}
use quic_ruby.Stream.{Stream, enqueue, close_write}
use quic_ruby.Client.Objects.{lookup_stream}
use quic_ruby.Client.Callbacks.{stream_reset_cb, mark_reset}
use quic_ruby.Client.State.{Client}
use quic_ruby.Client.Io.{
  write_nonblock, write_window, window_left, fin_kwarg, stream, enqueue_on, close_write_on,
  close_stream, reset_with,
}

module _ {Conn : Type 0} (n : Ngtcp2 Conn) (c : Client Conn) (r : ℕ) where
  close_write-refused :
      (s : Stream)
      → (s.reset || s.closed) ≡ true
      → s.fin_sent ≡ false
      → close_write s ≡ (raise (quic ErrorClass.stream_closed none), s)
  unfolding close_write enqueue
  close_write-refused s shut no_fin = simp (shut, no_fin)

  -- On a stream that was reset or closed before its FIN was requested, #close raises StreamClosed and
  -- does not reach the connection: no STOP_SENDING is sent.
  pub close_stream-refused :
      ((stream c r).reset || (stream c r).closed) ≡ true
      → (stream c r).fin_sent ≡ false
      → ((close_stream n c r).0 ≡ raise (quic ErrorClass.stream_closed none))
        × ((close_stream n c r).1.conn ≡ c.conn)
  unfolding close_stream close_write_on
  close_stream-refused shut no_fin =
      rw (close_stream, close_write_on, close_write-refused (stream c r) shut no_fin) (refl, refl)

  abbrev pub after_reset_cb : ℕ → ℕ → Client Conn
  after_reset_cb id code = record c { objects = stream_reset_cb c.objects id code }

  reset_flag :
      (id code : ℕ)
      → lookup_stream c.objects id ≡ some r
      → (stream (after_reset_cb id code) r).reset ≡ true
  unfolding stream_reset_cb mark_reset
  reset_flag id code e = rw (stream_reset_cb, e, (==_iff r r).1 refl) refl

  own_kept :
      (id code : ℕ)
      → lookup_stream c.objects id ≡ some r
      → (stream c r).has_client ≡ true
      → (stream (after_reset_cb id code) r).has_client ≡ true
  unfolding stream_reset_cb mark_reset
  own_kept id code e own = rw (stream_reset_cb, e, (==_iff r r).1 refl) own

  -- What a write of `bytes` to a stream that was reset raises, with `window` left.
  abbrev pub refused_as : ℕ → List ℕ → Exception
  refused_as window bytes =
      if window == 0 && not (length bytes == 0)
      then quic ErrorClass.wait_writable none
      else quic ErrorClass.stream_closed none

  refused_as-empty :
      (window : ℕ) (bytes : List ℕ)
      → (length bytes == 0) ≡ true
      → refused_as window bytes ≡ quic ErrorClass.stream_closed none
  refused_as-empty window bytes empty = elim (Bool-cases (window == 0)) [
    | inl full ↦ rw (full, empty) refl
    | inr room ↦ rw room refl
  ]

  enqueue_on-refused :
      (d : Client Conn) (v : Value) (fin : Bool)
      → (stream d r).reset ≡ true
      → (enqueue_on d r v fin).0 ≡ raise (quic ErrorClass.stream_closed none)
  unfolding enqueue_on enqueue
  enqueue_on-refused d v fin flag = rw (enqueue, flag) refl

  write_window-refused :
      (d : Client Conn) (v : Value) (bytes : List ℕ) (fin : Bool) (avail : ℕ)
      → (stream d r).reset ≡ true
      → (length bytes == 0) ≡ false
      → (write_window n d r v bytes fin avail).0 ≡ raise (refused_as avail bytes)
  unfolding write_window
  write_window-refused d v bytes fin avail flag filled = elim (Bool-cases (avail == 0)) [
    | inl full ↦ rw (write_window, full, filled) refl
    | inr room ↦ rw (write_window, room) (enqueue_on-refused d _ _ flag)
  ]

  write_nonblock-refused :
      (d : Client Conn) (e : Encoding) (bytes : List ℕ) (opts : Kwargs)
      → (stream d r).reset ≡ true
      → (stream d r).has_client ≡ true
      → (write_nonblock n d r (string e bytes) opts).0
        ≡ raise (refused_as (window_left n d r) bytes)
  unfolding write_nonblock
  write_nonblock-refused d e bytes opts flag own = elim (Bool-cases (length bytes == 0)) [
    | inl empty ↦
        let queues : write_nonblock n d r (string e bytes) opts
            ≡ enqueue_on d r (string e bytes) (fin_kwarg opts) =
          rw (write_nonblock, own, empty) refl in
        ap (λ (x : Result ℕ × Client Conn). x.0) queues
        ∙ enqueue_on-refused d (string e bytes) (fin_kwarg opts) flag
        ∙ ap raise (sym (refused_as-empty (window_left n d r) bytes empty))
    | inr filled ↦
        let windows : write_nonblock n d r (string e bytes) opts
            ≡ write_window n d r (string e bytes) bytes (fin_kwarg opts) (window_left n d r) =
          rw (write_nonblock, own, filled) refl in
        ap (λ (x : Result ℕ × Client Conn). x.0) windows
        ∙ write_window-refused d (string e bytes) bytes (fin_kwarg opts) (window_left n d r) flag
            filled
  ]

  -- After the server has reset a registered stream of a client, #write_nonblock of a String raises
  -- WaitWritable where the window is empty and the String is not, and StreamClosed otherwise, and
  -- #reset returns without a call of ngtcp2.
  pub stream_reset_cb-blocks :
      (id code : ℕ) (e : Encoding) (bytes : List ℕ) (opts : Kwargs) (own_code : ℕ)
      → lookup_stream c.objects id ≡ some r
      → (stream c r).has_client ≡ true
      → ((write_nonblock n (after_reset_cb id code) r (string e bytes) opts).0
          ≡ raise (refused_as (window_left n (after_reset_cb id code) r) bytes))
        × (reset_with n (after_reset_cb id code) r own_code ≡ (ok tt, after_reset_cb id code))
  unfolding reset_with
  stream_reset_cb-blocks id code e bytes opts own_code known own =
      let flag = reset_flag id code known in
      (
        write_nonblock-refused (after_reset_cb id code) e bytes opts flag
            (own_kept id code known own),
        rw (reset_with, flag) refl,
      )
