-- ===== src/Tests/Peer.antt =====
-- A concrete peer: ngtcp2 with a counter as its connection, and the other libraries.
use quic_ruby.Base.{
  ℕ, ℤ, pos, negsuc, true, false, [], ◌∷◌, length, suc, ltb, u64_mod, long_limit, if◌then◌else◌,
}
use quic_ruby.Ruby.{
  Value, nil, boolean, integer, symbol, string, object, Result, ok, raise, type_error, range_error,
  Numeric,
}
use quic_ruby.Errors.{Codes}
use quic_ruby.Ngtcp2.{Ngtcp2, recv_stream_data}

abbrev pub codes : Codes
codes = record {
  proto = negsuc 204;
  drop_conn = negsuc 241;
  retry = negsuc 235;
  closing = negsuc 229;
  draining = negsuc 230;
  idle_close = negsuc 246;
  crypto = negsuc 223;
  handshake_timeout = negsuc 245;
  stream_data_blocked = negsuc 209;
  stream_shut_wr = negsuc 220;
  invalid_state = negsuc 205;
}

-- A peer that takes the bytes of the vector whole, and grants a window of 3 bytes.
abbrev pub peer : Ngtcp2 ℕ
peer = record {
  codes = codes;
  get_max_stream_data_left = λ conn id. 3;
  get_max_data_left = λ conn. 10;
  open_bidi_stream = λ conn. (suc conn, pos 0, 0);
  open_uni_stream = λ conn. (suc conn, pos 0, 2);
  shutdown_stream_read = λ conn id code. (conn, pos 0);
  shutdown_stream_write = λ conn id code. (conn, pos 0);
  writev_stream = λ conn args.
      (suc conn, [], record { n = pos 2; dest = 7 ∷ 8 ∷ []; pdatalen = pos (length args.bytes) });
  read_pkt = λ conn path packet now. (suc conn, [], pos 0);
  get_expiry = λ conn. 0;
  handle_expiry = λ conn now. (conn, [], pos 0);
  get_handshake_completed = λ conn. true;
  in_closing_period = λ conn. ltb 100 conn;
  in_draining_period = λ conn. false;
  write_connection_close = λ conn code reason now. (101, pos 1, 9 ∷ []);
}

-- A peer that has no packet to send, whose windows are its counter, and whose datagrams count it up
-- and bring two bytes with FIN for stream 1.
abbrev pub quiet_peer : Ngtcp2 ℕ
quiet_peer = record peer {
  get_max_stream_data_left = λ conn id. conn;
  get_max_data_left = λ conn. conn;
  writev_stream = λ conn args. (conn, [], record { n = pos 0; dest = []; pdatalen = negsuc 0 });
  read_pkt = λ conn path packet now. (suc conn, recv_stream_data true 1 (5 ∷ 6 ∷ []) ∷ [], pos 0);
}

-- NUM2LONG and NUM2ULL of an Integer, with the bounds of `long` and of `unsigned long long`.
abbrev to_long : Value → Result ℤ
to_long (integer (pos k)) = if ltb k long_limit then ok (pos k) else raise range_error
to_long (integer (negsuc k)) = if ltb k long_limit then ok (negsuc k) else raise range_error
to_long nil = raise type_error
to_long (boolean b) = raise type_error
to_long (symbol s) = raise type_error
to_long (string e bytes) = raise type_error
to_long object = raise type_error

abbrev to_ull : Value → Result ℕ
to_ull (integer (pos k)) = if ltb k u64_mod then ok k else raise range_error
to_ull (integer (negsuc k)) = raise range_error
to_ull nil = raise type_error
to_ull (boolean b) = raise type_error
to_ull (symbol s) = raise type_error
to_ull (string e bytes) = raise type_error
to_ull object = raise type_error

abbrev pub numeric : Numeric
numeric = record { num2long = to_long; num2ull = to_ull }
