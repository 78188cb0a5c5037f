-- ===== src/Client/Io/Window.antt =====
-- #write_nonblock against the window that the peer grants (ext/quic/stream.c).
use quic_ruby.Base.{
  ℕ, ◌<◌, ◌≡◌, ◌⊎◌, inl, inr, Bool, true, false, none, List, arith, ◌==◌, ◌&&◌, Bool-cases,
  if◌then◌else◌, length, take, leb, min, take-all, length-take, dec_le, ==_iff,
}
use quic_ruby.Ruby.{string, ascii_8bit, Encoding, ok, raise, quic, ErrorClass, Kwargs}
use quic_ruby.Ngtcp2.{Ngtcp2}
use quic_ruby.Stream.{Stream, append_chunk}
use quic_ruby.Sender.Write.{enqueue-accepts}
use quic_ruby.Client.State.{Client}
use quic_ruby.Client.Io.{
  stream, set_stream, enqueue_on, fin_kwarg, window_left, write_window, write_nonblock,
}

count_lem : (needed avail : ℕ) → (if leb needed avail then needed else avail) ≡ min needed avail
count_lem needed avail = ground arith

fin_lem : (k m : ℕ) (fin : Bool) → (if k == m then fin else false) ≡ (fin && k == m)
fin_lem k m fin = ground arith

ne-zero : (k : ℕ) → 0 < k → (k == 0) ≡ false
ne-zero k h = ground arith

module _ {Conn : Type 0} (n : Ngtcp2 Conn) (c : Client Conn) (r : ℕ) (e : Encoding) (bytes : List ℕ)
    (opts : Kwargs) where
  abbrev pub granted : ℕ
  granted = min (length bytes) (window_left n c r)

  -- The stream after the part of the payload that fits was queued.
  abbrev pub queued_part : Stream
  queued_part =
      append_chunk (stream c r) (take granted bytes) (fin_kwarg opts && granted == length bytes)

  write_window-empty :
      (fin : Bool) (avail : ℕ)
      → avail ≡ 0
      → write_window n c r (string e bytes) bytes fin avail
        ≡ (raise (quic ErrorClass.wait_writable none), c)
  unfolding write_window
  write_window-empty fin avail h = rw h

  -- The part that is handed to the queue is the first part of the payload, whichever String it is.
  write_window-part :
      (fin : Bool) (avail : ℕ)
      → 0 < avail
      → (stream c r).reset ≡ false
      → (stream c r).closed ≡ false
      → (stream c r).fin_sent ≡ false
      → write_window n c r (string e bytes) bytes fin avail ≡ (
        ok (min (length bytes) avail),
        set_stream c r (
            append_chunk
              (stream c r)
              (take (min (length bytes) avail) bytes)
              (fin && min (length bytes) avail == length bytes)),
      )
  unfolding write_window enqueue_on
  write_window-part fin avail h not_reset not_closed no_fin =
      elim (Bool-cases (min (length bytes) avail == length bytes)) [
        | inl whole ↦
            rw
              (
                write_window,
                count_lem (length bytes) avail,
                ne-zero avail h,
                fin_lem (min (length bytes) avail) (length bytes) fin,
                whole,
                enqueue-accepts (stream c r) e bytes (fin && true) not_reset not_closed no_fin,
                take-all (min (length bytes) avail) bytes
                    (omega (arith, (==_iff (min (length bytes) avail) (length bytes)).0 whole)),
              )
              (ground (arith, (==_iff (min (length bytes) avail) (length bytes)).0 whole))
        | inr part ↦
            rw
              (
                write_window,
                count_lem (length bytes) avail,
                ne-zero avail h,
                fin_lem (min (length bytes) avail) (length bytes) fin,
                part,
                enqueue-accepts (stream c r) ascii_8bit (take (min (length bytes) avail) bytes)
                    (fin && false) not_reset not_closed no_fin,
              )
              (ground (arith, length-take (min (length bytes) avail) bytes))
      ]

  -- #write_nonblock with a non-empty payload on an open stream of a client: with an empty window it
  -- raises WaitWritable and changes nothing; otherwise it queues and returns as much as the window
  -- has room for, and FIN goes along only if that is all.
  pub write_nonblock-granted :
      (stream c r).has_client ≡ true
      → 0 < length bytes
      → (stream c r).reset ≡ false
      → (stream c r).closed ≡ false
      → (stream c r).fin_sent ≡ false
      → ((window_left n c r ≡ 0)
          × (write_nonblock n c r (string e bytes) opts
              ≡ (raise (quic ErrorClass.wait_writable none), c)))
        ⊎ ((0 < window_left n c r)
            × (write_nonblock n c r (string e bytes) opts
                ≡ (ok granted, set_stream c r queued_part)))
  unfolding write_nonblock write_window enqueue_on
  write_nonblock-granted own filled open_reset open_closed open_fin =
      elim (dec_le (window_left n c r) 0) [
        | yes z ↦
            let z' : window_left n c r ≡ 0 = omega arith in
            inl (
              z',
              rw (write_nonblock, own, ne-zero (length bytes) filled)
                  (write_window-empty (fin_kwarg opts) (window_left n c r) z'),
            )
        | no p ↦ inr (
          omega arith,
          rw (write_nonblock, own, ne-zero (length bytes) filled)
              (write_window-part (fin_kwarg opts) (window_left n c r) (omega arith) open_reset
                open_closed open_fin),
        )
      ]
