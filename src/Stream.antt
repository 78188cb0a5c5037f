-- ===== src/Stream.antt =====
-- Quic::Stream of ext/quic/stream.c and stream.h: the struct, its Ruby instance variables, and the
-- operations that look at no other object. Those that need the connection are in Client.Io.
use quic_ruby.Base.{
  ℕ, ◌-◌, pos, negsuc, Bool, true, false, none, List, [], ◌∷◌, ◌++◌, ◌||◌, ◌&&◌, length, take, drop,
  ltb, ◌==◌, if◌then◌else◌,
}
use quic_ruby.Ruby.{
  Value, ascii_8bit, quic, arg_error, eof_error, ErrorClass, Result, ok, raise, check_string,
  Numeric,
}

-- `quic_stream_t`, and the instance variables @client (bound or nil), @pending_chunks and
-- @recv_buffer. @id is the same number as `stream_id`.
pub record Stream : Type 0 where
  pub stream_id : ℕ
  pub sent_offset : ℕ
  pub acked_offset : ℕ
  pub pending_shifted : ℕ
  pub fin_received : Bool
  pub fin_sent : Bool
  pub fin_flushed : Bool
  pub reset : Bool
  pub closed : Bool
  pub close_app_error_code : ℕ
  pub close_has_app_error_code : Bool
  pub accept_queued : Bool
  pub has_client : Bool
  pub pending_chunks : List (List ℕ)
  pub recv_buffer : List ℕ

-- quic_stream_alloc: the zeroed struct.
unfoldable pub stream_alloc : Stream
stream_alloc = record {
  stream_id = 0;
  sent_offset = 0;
  acked_offset = 0;
  pending_shifted = 0;
  fin_received = false;
  fin_sent = false;
  fin_flushed = false;
  reset = false;
  closed = false;
  close_app_error_code = 0;
  close_has_app_error_code = false;
  accept_queued = false;
  has_client = false;
  pending_chunks = [];
  recv_buffer = [];
}

-- quic_stream_new, for a stream of the client.
unfoldable pub stream_new : ℕ → Stream
unfolding stream_alloc
stream_new stream_id = record stream_alloc { stream_id = stream_id; has_client = true }

-- The part of quic_stream_enqueue behind its guards.
unfoldable pub append_chunk : Stream → List ℕ → Bool → Stream
append_chunk s bytes fin = record s {
  pending_chunks =
      if ltb 0 (length bytes) then s.pending_chunks ++ bytes ∷ [] else s.pending_chunks;
  fin_sent = if fin then true else s.fin_sent;
}

-- quic_stream_enqueue
unfoldable pub enqueue : Stream → Value → Bool → Result ℕ × Stream
unfolding append_chunk
enqueue s data_v fin =
    if s.reset || s.closed
    then (raise (quic ErrorClass.stream_closed none), s)
    else if s.fin_sent
    then (raise (quic ErrorClass.stream_closed none), s)
    else elim (check_string data_v) [
      | ok bytes ↦ (ok (length bytes), append_chunk s bytes fin)
      | raise e ↦ (raise e, s)
    ]

-- quic_stream_close_write_m
unfoldable pub close_write : Stream → Result (Unit {0}) × Stream
unfolding enqueue
close_write s =
    if s.fin_sent
    then (ok tt, s)
    else let (r, t) = enqueue s (Value.string ascii_8bit []) true in
      elim r [ ok n ↦ (ok tt, t) | raise e ↦ (raise e, t) ]

-- memmove(p, p + n, len - n): the last n bytes of the buffer stay where they are.
unfoldable pub memmove_down : ℕ → List ℕ → List ℕ
memmove_down n buf = drop n buf ++ drop (length buf - n) buf

-- The part of quic_stream_read_nonblock_m behind the check of the length.
unfoldable pub read_bytes : Stream → ℕ → Result (List ℕ) × Stream
read_bytes s len =
    let have = length s.recv_buffer in
    if have == 0
    then (if s.fin_received
        then (raise eof_error, s)
        else (raise (quic ErrorClass.wait_readable none), s))
    else let count = if ltb len have then len else have in
      let moved = if ltb count have then memmove_down count s.recv_buffer else s.recv_buffer in
      (ok (take count s.recv_buffer), record s { recv_buffer = take (have - count) moved })

-- quic_stream_read_nonblock_m
unfoldable pub read_nonblock : Numeric → Stream → Value → Result (List ℕ) × Stream
read_nonblock num s length_v = elim (num.num2long length_v) [
  | raise e ↦ (raise e, s)
  | ok (negsuc n) ↦ (raise arg_error, s)
  | ok (pos len) ↦ read_bytes s len
]

-- quic_stream_eof_p
unfoldable pub is_eof : Stream → Bool
is_eof s = length s.recv_buffer == 0 && s.fin_received
