-- ===== src/Ngtcp2.antt =====
-- The interface to ngtcp2, which the repository does not hold: an opaque connection, the calls that
-- ext/quic makes, and the callbacks that a call makes before it returns, in order.
use quic_ruby.Base.{ℕ, ℤ, Bool, Option, List}
use quic_ruby.Errors.{Codes}

-- A call of one of the stream callbacks. The Bool is the flag FIN or APP_ERROR_CODE_SET.
pub data Event : Type 0 where
  stream_open : ℕ → Event
  recv_stream_data : Bool → ℕ → List ℕ → Event
  acked_stream_data_offset : ℕ → ℕ → Event
  stream_close : Bool → ℕ → ℕ → Event
  stream_reset : ℕ → ℕ → Event

-- The arguments of ngtcp2_conn_writev_stream: the size of the buffer, the flag FIN, the stream (none
-- for -1), the bytes of the vector, and the count of vectors, 0 or 1.
pub record Writev : Type 0 where
  pub destlen : ℕ
  pub fin : Bool
  pub stream_id : Option ℕ
  pub bytes : List ℕ
  pub datavcnt : ℕ
  pub ts : ℕ

-- Its result `n`, what the buffer then holds, and `*pdatalen`.
pub record Written : Type 0 where
  pub n : ℤ
  pub dest : List ℕ
  pub pdatalen : ℤ

pub record SocketPath : Type 0 where
  pub local_sockaddr : List ℕ
  pub remote_sockaddr : List ℕ

pub record Ngtcp2 (Conn : Type 0) : Type 0 where
  pub codes : Codes
  pub get_max_stream_data_left : Conn → ℕ → ℕ
  pub get_max_data_left : Conn → ℕ
  pub open_bidi_stream : Conn → Conn × ℤ × ℕ
  pub open_uni_stream : Conn → Conn × ℤ × ℕ
  pub shutdown_stream_read : Conn → ℕ → ℕ → Conn × ℤ
  pub shutdown_stream_write : Conn → ℕ → ℕ → Conn × ℤ
  pub writev_stream : Conn → Writev → Conn × List Event × Written
  pub read_pkt : Conn → SocketPath → List ℕ → ℕ → Conn × List Event × ℤ
  pub get_expiry : Conn → ℕ
  pub handle_expiry : Conn → ℕ → Conn × List Event × ℤ
  pub get_handshake_completed : Conn → Bool
  pub in_closing_period : Conn → Bool
  pub in_draining_period : Conn → Bool
  pub write_connection_close : Conn → ℕ → Option (List ℕ) → ℕ → Conn × ℤ × List ℕ
