-- ===== src/Client/Packets.antt =====
-- #write_pkt, #read_pkt, #expiry, #handle_expiry and the state queries of
-- ext/quic/connection_client.c. The clock is the argument `now`.
pub mod Buffers
pub mod Arguments
use quic_ruby.Base.{
  ℕ, ◌*◌, ◌-◌, ◌%◌, Bool, true, false, Option, none, some, List, [], ◌&&◌, ◌||◌, length, take, ◌==◌,
  if◌then◌else◌, add64, is_negative, is_positive, is_zero, magnitude, u64_mod,
}
use quic_ruby.Ruby.{
  Value, nil, ascii_8bit, other_encoding, Result, ok, raise, ◌>>=◌, arg_error, type_error,
  runtime_error, is_nil, keyword, Kwargs,
}
use quic_ruby.Errors.{raise_ngtcp2_error}
use quic_ruby.Stream.{Stream}
use quic_ruby.Ngtcp2.{Ngtcp2, Writev, Written, SocketPath}
use quic_ruby.Client.Objects.{Objects, store}
use quic_ruby.Client.Callbacks.{callbacks}
use quic_ruby.Client.Picker.{Candidate, pick_send_stream}
use quic_ruby.Client.State.{Client}

-- QUIC_WRITE_PKT_BUFLEN
abbrev pub write_pkt_buflen : ℕ
write_pkt_buflen = 1200

-- quic_now, of the two fields of `struct timespec`.
unfoldable pub quic_now : ℕ → ℕ → ℕ
quic_now tv_sec tv_nsec = add64 (tv_sec * 1_000_000_000 % u64_mod) tv_nsec

-- quic_require_binary
unfoldable pub require_binary : Value → Result (List ℕ)
require_binary (Value.string ascii_8bit bytes) = ok bytes
require_binary (Value.string other_encoding bytes) = raise arg_error
require_binary v = raise type_error

-- The check of the buffer that #write_pkt is given, or its own; the String's bytes so far.
unfoldable pub check_buffer : Value → Result (List ℕ)
check_buffer nil = ok []
check_buffer v = require_binary v

-- The content of a String argument.
unfoldable pub string_bytes : Value → List ℕ
string_bytes (Value.string e bytes) = bytes
string_bytes v = []

-- The arguments of writev_stream for what was picked.
unfoldable pub writev_args : Option (ℕ × Candidate) → ℕ → Writev
writev_args none now = record {
  destlen = write_pkt_buflen;
  fin = false;
  stream_id = none;
  bytes = [];
  datavcnt = 0;
  ts = now;
}
writev_args (some (r, p)) now = record {
  destlen = write_pkt_buflen;
  fin = p.fin;
  stream_id = some p.stream_id;
  bytes = p.bytes;
  datavcnt = p.datavcnt;
  ts = now;
}

-- The accounting of the selected stream.
unfoldable pub account : Stream → Candidate → Written → Stream
account s p w =
    if is_positive w.pdatalen
    then record s {
      sent_offset = add64 s.sent_offset (magnitude w.pdatalen);
      fin_flushed = if p.fin && magnitude w.pdatalen == length p.bytes then true else s.fin_flushed;
    }
    else if p.datavcnt == 0 && is_positive w.n && p.fin
    then record s { fin_flushed = true }
    else s

unfoldable pub account_picked : Objects → Option (ℕ × Candidate) → Written → Objects
account_picked o none w = o
account_picked o (some (r, p)) w = store o r (account (o.cell r) p w)

-- The two socket addresses among the keywords.
unfoldable pub path_keywords : Kwargs → Result (Value × Value)
path_keywords none = raise arg_error
path_keywords (some opts) =
    let local_v = keyword "local_sockaddr" opts in
    let remote_v = keyword "remote_sockaddr" opts in
    if is_nil local_v || is_nil remote_v then raise arg_error else ok (local_v, remote_v)

unfoldable pub check_packet : Value → Kwargs → Result (SocketPath × List ℕ)
check_packet packet_v opts = do
  addresses ← path_keywords opts
  packet ← require_binary packet_v
  local_bytes ← require_binary addresses.0
  remote_bytes ← require_binary addresses.1
  ok (record { local_sockaddr = local_bytes; remote_sockaddr = remote_bytes }, packet)

-- What #write_pkt leaves: its result, the content of the buffer, and the client.
pub record PacketOut (Conn : Type 0) : Type 0 where
  pub result : Result (Option (List ℕ))
  pub buffer : List ℕ
  pub client : Client Conn

-- The result of a call that returns nil, the packet's lock (rb_str_locktmp), and the client.
pub record PacketIn (Conn : Type 0) : Type 0 where
  pub result : Result (Unit {0})
  pub locked : Bool
  pub client : Client Conn

module _ {Conn : Type 0} (n : Ngtcp2 Conn) where
  -- quic_client_write_pkt, behind the check of its argument.
  unfoldable pub write_into : Client Conn → ℕ → PacketOut Conn
  write_into c now =
      let picked = pick_send_stream c.objects in
      let (conn, events, w) = n.writev_stream c.conn (writev_args picked now) in
      let o = callbacks c.objects events in
      let o' = account_picked o picked w in
      if is_negative w.n
      then record {
        result = raise (raise_ngtcp2_error n.codes w.n);
        buffer = [];
        client = record c { conn = conn; objects = o };
      }
      else if is_zero w.n
      then record { result = ok none; buffer = []; client = record c { conn = conn; objects = o' } }
      else record {
        result = ok (some (take (magnitude w.n) w.dest));
        buffer = take (magnitude w.n) w.dest;
        client = record c { conn = conn; objects = o' };
      }

  -- quic_client_write_pkt
  unfoldable pub write_pkt : Client Conn → Value → ℕ → PacketOut Conn
  write_pkt c buffer_v now = elim (check_buffer buffer_v) [
    | ok bytes ↦ write_into c now
    | raise e ↦ record { result = raise e; buffer = string_bytes buffer_v; client = c }
  ]

  -- quic_read_pkt_body
  unfoldable pub read_pkt_body :
      Client Conn → SocketPath → List ℕ → ℕ → Result (Unit {0}) × Client Conn
  read_pkt_body c path packet now =
      let (conn, events, rv) = n.read_pkt c.conn path packet now in
      let c' : Client Conn = record c { conn = conn; objects = callbacks c.objects events } in
      (if is_zero rv then ok tt else raise (raise_ngtcp2_error n.codes rv), c')

  -- quic_client_read_pkt. `locked` says that the packet String was locked before the call, which
  -- rb_str_locktmp refuses. rb_ensure unlocks it on every way out.
  unfoldable pub read_pkt : Client Conn → Value → Kwargs → Bool → ℕ → PacketIn Conn
  read_pkt c packet_v opts locked now = elim (check_packet packet_v opts) [
    | raise e ↦ record { result = raise e; locked = locked; client = c }
    | ok (path, packet) ↦
        if locked
        then record { result = raise runtime_error; locked = true; client = c }
        else let (r, c') = read_pkt_body c path packet now in
          record { result = r; locked = false; client = c' }
  ]

  -- quic_client_expiry: nil at UINT64_MAX.
  unfoldable pub expiry : Client Conn → Option ℕ
  expiry c = let t = n.get_expiry c.conn in if t == u64_mod - 1 then none else some t

  -- quic_client_handle_expiry
  unfoldable pub handle_expiry : Client Conn → ℕ → Result (Unit {0}) × Client Conn
  handle_expiry c now =
      let (conn, events, rv) = n.handle_expiry c.conn now in
      let c' : Client Conn = record c { conn = conn; objects = callbacks c.objects events } in
      (if is_zero rv then ok tt else raise (raise_ngtcp2_error n.codes rv), c')

  -- quic_client_handshake_completed_p and the two period queries.
  unfoldable pub is_handshake_completed : Client Conn → Bool
  is_handshake_completed c = n.get_handshake_completed c.conn

  unfoldable pub is_in_closing_period : Client Conn → Bool
  is_in_closing_period c = n.in_closing_period c.conn

  unfoldable pub is_in_draining_period : Client Conn → Bool
  is_in_draining_period c = n.in_draining_period c.conn
