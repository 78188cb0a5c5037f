-- ===== src/Tests/Calls.antt =====
-- The calls of a client at concrete inputs.
use quic_ruby.Client.Config.{array}
use quic_ruby.Base.{
  ℕ, pos, negsuc, ◌<◌, ◌≡◌, ◌⊎◌, refl, true, false, some, none, map, List, [], ◌∷◌, arith, length,
  u64_mod,
}
use quic_ruby.Ruby.{
  Value, nil, integer, symbol, string, ascii_8bit, Result, ok, raise, quic, ErrorClass,
}
use quic_ruby.Stream.{Stream, stream_alloc, stream_new, append_chunk}
use quic_ruby.Errors.Mapping.{AreDistinct, labels, IsDocumented, raise_ngtcp2_error-IsDocumented}
use quic_ruby.Client.State.{Client}
use quic_ruby.Client.Io.{fin_kwarg, set_stream, stream, window_left, write_nonblock}
use quic_ruby.Client.Io.Window.{granted, queued_part, write_nonblock-granted}
use quic_ruby.Client.Packets.{write_pkt}
use quic_ruby.Client.Packets.Buffers.{packet_of, write_pkt-buffer}
use quic_ruby.Client.Setup.{Libraries, OpenKwargs, before_open}
use quic_ruby.Client.Open.{open_client}
use quic_ruby.Client.Open.Balance.{Ends, Everything, open_client-Ends}
use quic_ruby.Client.Alpn.{alpn_total, alpn_wire, entry_bytes}
use quic_ruby.Client.Alpn.Wire.{parse_alpn, alpn_wire-parses, alpn_total-unbounded}
use quic_ruby.Tests.Peer.{codes, peer, numeric}

codes-AreDistinct : AreDistinct (labels codes)
codes-AreDistinct = ground arith

raise_ngtcp2_error-IsDocumented_example : IsDocumented codes
raise_ngtcp2_error-IsDocumented_example = raise_ngtcp2_error-IsDocumented codes codes-AreDistinct

-- A client with one stream of its own, on a bound socket.
abbrev client : Client ℕ
client = record {
  conn = 0;
  objects = record { cell = λ r. stream_new 0; next = 1; streams = (0, 0) ∷ []; accept_queue = [] };
  bound = true;
  sent = [];
}

abbrev payload : List ℕ
payload = 1 ∷ 2 ∷ 3 ∷ 4 ∷ 5 ∷ []

abbrev written_payload : Result ℕ × Client ℕ
written_payload = write_nonblock peer client 0 (string ascii_8bit payload) none

write_nonblock-granted_example :
    ((window_left peer client 0 ≡ 0)
      × (written_payload ≡ (raise (quic ErrorClass.wait_writable none), client)))
    ⊎ ((0 < window_left peer client 0)
        × (written_payload ≡ (
          ok (granted peer client 0 ascii_8bit payload none),
          set_stream client 0 (queued_part peer client 0 ascii_8bit payload none),
        )))
unfolding stream_new stream_alloc
write_nonblock-granted_example =
    write_nonblock-granted peer client 0 ascii_8bit payload none refl (omega arith) refl refl refl

-- Three of the five bytes fit.
three_fit : written_payload.0 ≡ ok 3
unfolding write_nonblock quic_ruby.Client.Io.write_window quic_ruby.Client.Io.enqueue_on fin_kwarg
    window_left quic_ruby.Stream.enqueue append_chunk stream_new stream_alloc
three_fit = refl

write_pkt-buffer_example :
    (write_pkt peer client (string ascii_8bit payload) 7).buffer
    ≡ packet_of (write_pkt peer client (string ascii_8bit payload) 7).result
write_pkt-buffer_example = write_pkt-buffer peer client 7 payload

abbrev pub names : List Value
names = string ascii_8bit (104 ∷ 51 ∷ []) ∷ string ascii_8bit (104 ∷ 113 ∷ 45 ∷ []) ∷ []

names_total : alpn_total 0 names ≡ ok 7
unfolding alpn_total
names_total = refl

names_short : length (alpn_wire names) < u64_mod
unfolding alpn_wire entry_bytes
names_short = omega arith

alpn_wire-parses_example :
    (length (alpn_wire names) ≡ 7)
    × (parse_alpn (length names) (alpn_wire names) ≡ some (map entry_bytes names))
alpn_wire-parses_example = alpn_wire-parses names 7 names_total names_short

alpn_total-unbounded_example :
    (entries : List Value) × (total : ℕ) × (alpn_total 0 entries ≡ ok total) × (65_536 < total)
alpn_total-unbounded_example = alpn_total-unbounded 65_536 (omega arith)

-- Libraries in which the last call of quic_client_open fails.
abbrev pub libraries : Libraries ℕ
libraries = record {
  codes = codes;
  crypto_quictls_init = pos 0;
  ssl_ctx_new = true;
  configure_client_context = pos 0;
  ssl_new = true;
  set_alpn_protos = λ wire len. pos 0;
  max_cidlen = 20;
  rand_bytes_scid = (pos 1, 1 ∷ 2 ∷ 3 ∷ 4 ∷ 5 ∷ 6 ∷ 7 ∷ 8 ∷ []);
  rand_bytes_dcid = (pos 1, 8 ∷ 7 ∷ 6 ∷ 5 ∷ 4 ∷ 3 ∷ 2 ∷ 1 ∷ []);
  conn_client_new = λ dcid scid path settings params. (negsuc 500, 0);
}

abbrev pub no_bytes : Value
no_bytes = string ascii_8bit []

abbrev pub zero_value : Value
zero_value = integer (pos 0)

abbrev pub keywords : OpenKwargs
keywords = record {
  local_sockaddr = no_bytes;
  remote_sockaddr = no_bytes;
  server_name = no_bytes;
  transport_params = some (record {
    initial_max_stream_data_bidi_local = zero_value;
    initial_max_stream_data_bidi_remote = zero_value;
    initial_max_stream_data_uni = zero_value;
    initial_max_data = zero_value;
    initial_max_streams_bidi = zero_value;
    initial_max_streams_uni = zero_value;
    max_idle_timeout = zero_value;
    active_connection_id_limit = zero_value;
  });
  settings = some (record {
    cc_algo = symbol "cubic";
    initial_rtt = zero_value;
    max_window = zero_value;
    max_stream_window = zero_value;
    handshake_timeout = zero_value;
    no_pmtud = nil;
    alpn = array names;
  });
}

open_client-Ends_example :
    Ends Everything (open_client libraries numeric (some keywords) 7 (before_open false))
open_client-Ends_example = open_client-Ends libraries numeric (some keywords) 7 false
