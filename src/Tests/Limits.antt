-- ===== src/Tests/Limits.antt =====
-- The window of #write_nonblock and the transport parameters at concrete inputs.
use quic_ruby.Base.{
  u64_mod, pos, lt→ltb, ◌+◌, ◌*◌, ◌<◌, min, List, ℕ, ◌≡◌, refl, true, [], ◌∷◌, arith,
}
use quic_ruby.Ruby.{integer, ascii_8bit, ok}
use quic_ruby.Stream.{stream_new, stream_alloc}
use quic_ruby.Client.State.{Client}
use quic_ruby.Client.Io.{stream, window_left}
use quic_ruby.Client.Io.Repeated.{IsOpen, queued_length, write_again, write_again-queues}
use quic_ruby.Client.Config.{TransportParams, fill_transport_params}
use quic_ruby.Client.Config.Fields.{to_ruby, FitsU64, fill_transport_params-to_ruby}
use quic_ruby.Tests.Peer.{peer, numeric}

-- A stream that was reset.
abbrev client : Client ℕ
client = record {
  conn = 0;
  objects = record {
    cell = λ r. record (stream_new 0) { reset = true };
    next = 1;
    streams = (0, 0) ∷ [];
    accept_queue = [];
  };
  bound = true;
  sent = [];
}

-- An open stream, a window of 3 bytes, and a payload of 4.
abbrev open_client : Client ℕ
open_client = record client { objects = record client.objects { cell = λ r. stream_new 0 } }

has_room : 0 < window_left peer open_client 0
unfolding window_left
has_room = omega arith

stream_new-IsOpen : IsOpen (stream_new 0)
unfolding stream_new stream_alloc
stream_new-IsOpen = record { own = refl; not_reset = refl; not_closed = refl; no_fin = refl }

abbrev payload : List ℕ
payload = 1 ∷ 2 ∷ 3 ∷ 4 ∷ []

write_again-queues_example :
    queued_length (stream (write_again peer 0 ascii_8bit payload 2 open_client) 0)
    ≡ queued_length (stream_new 0) + 2 * min 4 (window_left peer open_client 0)
write_again-queues_example =
    write_again-queues peer 0 ascii_8bit payload 2 open_client (omega arith) has_room
      stream_new-IsOpen

abbrev params : TransportParams ℕ
params = record {
  initial_max_stream_data_bidi_local = 1;
  initial_max_stream_data_bidi_remote = 2;
  initial_max_stream_data_uni = 3;
  initial_max_data = 4;
  initial_max_streams_bidi = 5;
  initial_max_streams_uni = 6;
  max_idle_timeout = 7;
  active_connection_id_limit = 8;
}

reads_u64 : (k : ℕ) → k < u64_mod → numeric.num2ull (integer (pos k)) ≡ ok k
reads_u64 k h = rw (lt→ltb k u64_mod h) refl

params_fit : FitsU64 params
params_fit = (
  omega arith,
  omega arith,
  omega arith,
  omega arith,
  omega arith,
  omega arith,
  omega arith,
  omega arith,
)

fill_transport_params-to_ruby_example : fill_transport_params numeric (to_ruby params) ≡ ok params
fill_transport_params-to_ruby_example =
    fill_transport_params-to_ruby numeric params reads_u64 params_fit
