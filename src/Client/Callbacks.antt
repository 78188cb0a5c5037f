-- ===== src/Client/Callbacks.antt =====
-- The ngtcp2 stream callbacks of ext/quic/connection_client.c. Each returns 0, so a call of ngtcp2
-- runs its callbacks one after the other.
use quic_ruby.Base.{
  ℕ, ◌%◌, Bool, true, none, some, List, [], ◌∷◌, ◌++◌, ◌&&◌, not, length, ltb, leb, ◌==◌,
  if◌then◌else◌, add64,
}
use quic_ruby.Ruby.Hash.{delete}
use quic_ruby.Stream.{Stream}
use quic_ruby.Ngtcp2.{
  Event, stream_open, recv_stream_data, acked_stream_data_offset, stream_close, stream_reset,
}
use quic_ruby.Client.Objects.{Objects, store, lookup_stream, register}

-- quic_stream_open_cb
unfoldable pub stream_open_cb : Objects → ℕ → Objects
stream_open_cb o stream_id = elim (lookup_stream o stream_id) [
  | some r ↦ o
  | none ↦ register o stream_id
]

-- The low bit of a stream id marks a stream that the server opened.
abbrev pub is_server : ℕ → Bool
is_server stream_id = stream_id % 2 == 1

-- What quic_recv_stream_data_cb does to the stream object.
unfoldable pub receive : Stream → Bool → Bool → List ℕ → Stream
receive s surfaced fin bytes = record s {
  accept_queued = if surfaced then true else s.accept_queued;
  recv_buffer = if ltb 0 (length bytes) then s.recv_buffer ++ bytes else s.recv_buffer;
  fin_received = if fin then true else s.fin_received;
}

-- quic_recv_stream_data_cb
unfoldable pub recv_stream_data_cb : Objects → Bool → ℕ → List ℕ → Objects
recv_stream_data_cb o fin stream_id bytes = elim (lookup_stream o stream_id) [
  | none ↦ o
  | some r ↦
      let surfaced = not (o.cell r).accept_queued && is_server stream_id in
      record (store o r (receive (o.cell r) surfaced fin bytes)) {
        accept_queue = if surfaced then o.accept_queue ++ r ∷ [] else o.accept_queue;
      }
]

-- The loop that shifts the chunks that are acknowledged whole, with `pending_shifted`.
unfoldable pub shift_acked : ℕ → ℕ → List (List ℕ) → ℕ × List (List ℕ)
shift_acked acked shifted [] = (shifted, [])
shift_acked acked shifted (head ∷ rest) =
    let head_end = add64 shifted (length head) in
    let more = shift_acked acked head_end rest in
    if leb head_end acked then more else (shifted, head ∷ rest)

-- What quic_acked_stream_data_offset_cb does to the stream object.
unfoldable pub acknowledge : Stream → ℕ → Stream
acknowledge s datalen =
    let acked = add64 s.acked_offset datalen in
    let (shifted, chunks) = shift_acked acked s.pending_shifted s.pending_chunks in
    record s { acked_offset = acked; pending_shifted = shifted; pending_chunks = chunks }

-- quic_acked_stream_data_offset_cb
unfoldable pub acked_stream_data_offset_cb : Objects → ℕ → ℕ → Objects
acked_stream_data_offset_cb o stream_id datalen = elim (lookup_stream o stream_id) [
  | none ↦ o
  | some r ↦ store o r (acknowledge (o.cell r) datalen)
]

-- What quic_stream_close_cb does to the stream object.
unfoldable pub mark_closed : Stream → Bool → ℕ → Stream
mark_closed s has_code code = record s {
  closed = true;
  close_has_app_error_code = if has_code then true else s.close_has_app_error_code;
  close_app_error_code = if has_code then code else s.close_app_error_code;
}

-- quic_stream_close_cb
unfoldable pub stream_close_cb : Objects → Bool → ℕ → ℕ → Objects
stream_close_cb o has_code stream_id code = elim (lookup_stream o stream_id) [
  | none ↦ o
  | some r ↦ record (store o r (mark_closed (o.cell r) has_code code)) {
    streams = delete stream_id o.streams;
  }
]

-- What quic_stream_reset_cb does to the stream object.
unfoldable pub mark_reset : Stream → ℕ → Stream
mark_reset s code = record s {
  reset = true;
  close_app_error_code = code;
  close_has_app_error_code = true;
}

-- quic_stream_reset_cb
unfoldable pub stream_reset_cb : Objects → ℕ → ℕ → Objects
stream_reset_cb o stream_id code = elim (lookup_stream o stream_id) [
  | none ↦ o
  | some r ↦ store o r (mark_reset (o.cell r) code)
]

unfoldable pub callback : Objects → Event → Objects
callback o (stream_open stream_id) = stream_open_cb o stream_id
callback o (recv_stream_data fin stream_id bytes) = recv_stream_data_cb o fin stream_id bytes
callback o (acked_stream_data_offset stream_id datalen) =
    acked_stream_data_offset_cb o stream_id datalen
callback o (stream_close has_code stream_id code) = stream_close_cb o has_code stream_id code
callback o (stream_reset stream_id code) = stream_reset_cb o stream_id code

-- The callbacks of one call of ngtcp2.
unfoldable pub callbacks : Objects → List Event → Objects
callbacks o [] = o
callbacks o (e ∷ es) = callbacks (callback o e) es
