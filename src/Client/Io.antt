-- ===== src/Client/Io.antt =====
-- The methods of Quic::Stream in ext/quic/stream.c that go through the connection, and the calls of
-- the client that open a stream. A stream is named by its reference.
pub mod Window
pub mod Unqueued
pub mod Repeated
pub mod Rescue
pub mod Aborted
use quic_ruby.Base.{
  ℕ, ℤ, Bool, true, false, none, some, List, not, length, take, ltb, leb, ◌==◌, if◌then◌else◌,
  is_zero,
}
use quic_ruby.Ruby.{
  Value, ascii_8bit, Result, ok, raise, quic, ErrorClass, type_error, check_string, is_nil, rtest,
  keyword, Kwargs, Numeric,
}
use quic_ruby.Errors.{raise_ngtcp2_error}
use quic_ruby.Stream.{Stream, enqueue, close_write}
use quic_ruby.Ngtcp2.{Ngtcp2}
use quic_ruby.Client.Objects.{store, register}
use quic_ruby.Client.State.{Client}

-- quic_stream_fin_kwarg
unfoldable pub fin_kwarg : Kwargs → Bool
fin_kwarg none = false
fin_kwarg (some opts) = rtest (keyword "fin" opts)

module _ {Conn : Type 0} where
  -- The stream behind a reference, and a write through it.
  abbrev pub stream : Client Conn → ℕ → Stream
  stream c r = c.objects.cell r

  abbrev pub set_stream : Client Conn → ℕ → Stream → Client Conn
  set_stream c r s = record c { objects = store c.objects r s }

  -- quic_stream_enqueue on the stream behind a reference.
  unfoldable pub enqueue_on : Client Conn → ℕ → Value → Bool → Result ℕ × Client Conn
  enqueue_on c r data_v fin =
      let (result, s) = enqueue (stream c r) data_v fin in (result, set_stream c r s)

  -- quic_stream_close_write_m
  unfoldable pub close_write_on : Client Conn → ℕ → Result (Unit {0}) × Client Conn
  close_write_on c r = let (result, s) = close_write (stream c r) in (result, set_stream c r s)

module _ {Conn : Type 0} (n : Ngtcp2 Conn) where
  -- quic_stream_window_left
  unfoldable pub window_left : Client Conn → ℕ → ℕ
  window_left c r =
      let stream_left = n.get_max_stream_data_left c.conn (stream c r).stream_id in
      let conn_left = n.get_max_data_left c.conn in
      if ltb stream_left conn_left then stream_left else conn_left

  -- The part of quic_stream_write_nonblock_m for a non-empty payload and the window `avail`.
  unfoldable pub write_window : Client Conn → ℕ → Value → List ℕ → Bool → ℕ → Result ℕ × Client Conn
  write_window c r data_v bytes fin avail =
      let needed = length bytes in
      let count = if leb needed avail then needed else avail in
      let effective_fin = if count == needed then fin else false in
      let slice = if count == needed then data_v else Value.string ascii_8bit (take count bytes) in
      if avail == 0
      then (raise (quic ErrorClass.wait_writable none), c)
      else enqueue_on c r slice effective_fin

  -- quic_stream_write_nonblock_m
  unfoldable pub write_nonblock : Client Conn → ℕ → Value → Kwargs → Result ℕ × Client Conn
  write_nonblock c r data_v opts =
      let fin = fin_kwarg opts in
      if not (stream c r).has_client
      then enqueue_on c r data_v fin
      else elim (check_string data_v) [
        | raise e ↦ (raise e, c)
        | ok bytes ↦
            if length bytes == 0
            then enqueue_on c r data_v fin
            else write_window c r data_v bytes fin (window_left c r)
      ]

  -- quic_stream_close_read_m. quic_client_conn refuses the nil @client of a bare stream.
  unfoldable pub close_read : Client Conn → ℕ → Result (Unit {0}) × Client Conn
  close_read c r =
      if not (stream c r).has_client
      then (raise type_error, c)
      else let (conn, rv) = n.shutdown_stream_read c.conn (stream c r).stream_id 0 in
        (
          if is_zero rv then ok tt else raise (raise_ngtcp2_error n.codes rv),
          record c { conn = conn },
        )

  -- quic_stream_close_m
  unfoldable pub close_stream : Client Conn → ℕ → Result (Unit {0}) × Client Conn
  close_stream c r =
      let (result, c') = close_write_on c r in
      elim result [ raise e ↦ (raise e, c') | ok u ↦ close_read c' r ]

  -- The part of quic_stream_reset_m behind the conversion of the error code.
  unfoldable pub reset_with : Client Conn → ℕ → ℕ → Result (Unit {0}) × Client Conn
  reset_with c r error_code =
      let s = stream c r in
      let (conn, rv) = n.shutdown_stream_write c.conn s.stream_id error_code in
      if s.reset
      then (ok tt, c)
      else if not s.has_client
      then (ok tt, set_stream c r (record s { reset = true }))
      else if is_zero rv
      then (ok tt, record (set_stream c r (record s { reset = true })) { conn = conn })
      else (raise (raise_ngtcp2_error n.codes rv), record c { conn = conn })

  -- quic_stream_reset_m
  unfoldable pub reset_stream : Numeric → Client Conn → ℕ → Value → Result (Unit {0}) × Client Conn
  reset_stream num c r error_code_v =
      elim (if is_nil error_code_v then ok 0 else num.num2ull error_code_v) [
        | raise e ↦ (raise e, c)
        | ok error_code ↦ reset_with c r error_code
      ]

  -- The common body of quic_client_open_bidi_stream and quic_client_open_uni_stream, behind the call
  -- of ngtcp2; the result is the reference of the new stream.
  unfoldable pub opened : Client Conn → Conn → ℤ → ℕ → Result ℕ × Client Conn
  opened c conn rv stream_id =
      if is_zero rv
      then (ok c.objects.next, record c { conn = conn; objects = register c.objects stream_id })
      else (raise (raise_ngtcp2_error n.codes rv), record c { conn = conn })

  -- quic_client_open_bidi_stream
  unfoldable pub open_bidi_stream : Client Conn → Result ℕ × Client Conn
  open_bidi_stream c =
      let (conn, rv, stream_id) = n.open_bidi_stream c.conn in opened c conn rv stream_id

  -- quic_client_open_uni_stream
  unfoldable pub open_uni_stream : Client Conn → Result ℕ × Client Conn
  open_uni_stream c =
      let (conn, rv, stream_id) = n.open_uni_stream c.conn in opened c conn rv stream_id
