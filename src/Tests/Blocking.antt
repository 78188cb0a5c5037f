-- ===== src/Tests/Blocking.antt =====
-- The blocking calls at concrete inputs.
use quic_ruby.Base.{ℕ, pos, ◌≡◌, refl, true, none, some, List, [], ◌∷◌, arith}
use quic_ruby.Ruby.{integer, string, ascii_8bit, ok}
use quic_ruby.Ruby.Hash.{aref, values}
use quic_ruby.Stream.{stream_new, stream_alloc, is_eof, read_bytes}
use quic_ruby.Ngtcp2.{Ngtcp2, recv_stream_data}
use quic_ruby.Client.Objects.{lookup_stream}
use quic_ruby.Client.State.{Client, bind}
use quic_ruby.Client.Callbacks.{callback, callbacks, recv_stream_data_cb, receive}
use quic_ruby.Client.Picker.{candidate, find_chunk, pick_from, pick_send_stream}
use quic_ruby.Client.Packets.{
  write_pkt, write_into, check_buffer, writev_args, account_picked, read_pkt_body,
}
use quic_ruby.Client.Io.{stream, set_stream, write_nonblock, window_left}
use quic_ruby.Client.Pump.{Turn, pump_once, pump_until, wait_window, write, drain, take_input}
use quic_ruby.Client.Pump.Whole.{write-write_nonblock}
use quic_ruby.Client.Read.{
  read_all, read_stream, read_until_eof, read_rest, at_eof, read_ready, ends_reading,
}
use quic_ruby.Client.Accept.{accept_stream_nonblock}
use quic_ruby.Receiver.Surfaces.{Surfaces}
use quic_ruby.Receiver.Blocking.{read_all-empty}
use quic_ruby.Tests.Peer.{quiet_peer, numeric}
use quic_ruby.Receiver.Steps.{read_on}
use quic_ruby.Receiver.Session.{Session}
use quic_ruby.Client.Open.{fresh_client}
use quic_ruby.Client.Io.{opened}

-- A client with the server's stream 1, and a turn of the loop with a datagram.
abbrev client : Client ℕ
client = record {
  conn = 1;
  objects = record { cell = λ r. stream_new 1; next = 1; streams = (1, 0) ∷ []; accept_queue = [] };
  bound = true;
  sent = [];
}

abbrev datagram : Turn
datagram = record {
  times = λ k. k;
  received = some (9 ∷ []);
  path = record { local_sockaddr = []; remote_sockaddr = [] };
}

abbrev after_datagram : Client ℕ
after_datagram = (take_input quiet_peer client datagram).1

window_opens : wait_window quiet_peer 5 client 0 2 (datagram ∷ []) ≡ some (ok tt, after_datagram)
unfolding wait_window window_left pump_once drain write_pkt write_into check_buffer writev_args
    account_picked take_input read_pkt_body callbacks callback recv_stream_data_cb receive
    lookup_stream aref stream_new stream_alloc pick_send_stream pick_from candidate find_chunk
    values
window_opens = refl

owned : (stream client 0).has_client ≡ true
unfolding stream_new stream_alloc
owned = refl

write-write_nonblock_example :
    write quiet_peer 5 client 0 (string ascii_8bit (7 ∷ 8 ∷ [])) none (datagram ∷ [])
    ≡ some (write_nonblock quiet_peer after_datagram 0 (string ascii_8bit (7 ∷ 8 ∷ [])) none)
write-write_nonblock_example =
    write-write_nonblock quiet_peer 0 ascii_8bit (7 ∷ 8 ∷ []) none (omega arith) 5 client
      after_datagram (datagram ∷ []) (omega arith) owned window_opens

-- The same with FIN and no byte.
abbrev fin_peer : Ngtcp2 ℕ
fin_peer = record quiet_peer {
  read_pkt = λ conn path packet now. (conn, recv_stream_data true 1 [] ∷ [], pos 0);
}

abbrev after_fin : Client ℕ
after_fin = (take_input fin_peer client datagram).1

read_returns :
    read_all fin_peer 5 client 0 (datagram ∷ [])
    ≡ some (ok [], set_stream after_fin 0 (stream after_fin 0))
unfolding read_all read_stream read_until_eof read_rest ends_reading read_bytes is_eof at_eof
    pump_until pump_once drain write_pkt write_into check_buffer writev_args account_picked
    take_input read_pkt_body callbacks callback recv_stream_data_cb receive lookup_stream aref
    stream_new stream_alloc pick_send_stream pick_from candidate find_chunk values
read_returns = refl

abbrev after_end : Client ℕ
after_end = set_stream after_fin 0 (stream after_fin 0)

read_all-empty_example :
    (◌≡◌ {A = List ℕ} [] [])
    × ((stream client 0).recv_buffer ≡ [])
    × ((stream after_end 0).fin_received ≡ true)
    × ((stream after_end 0).recv_buffer ≡ [])
read_all-empty_example =
    read_all-empty fin_peer 5 client 0 (omega arith) []
      (set_stream after_fin 0 (stream after_fin 0)) (datagram ∷ []) read_returns

bytes_ready :
    pump_until quiet_peer 5 (read_ready 0) client (datagram ∷ []) ≡ some (ok tt, after_datagram)
unfolding read_ready pump_until pump_once drain write_pkt write_into check_buffer writev_args
    account_picked take_input read_pkt_body callbacks callback recv_stream_data_cb receive
    lookup_stream aref stream_new stream_alloc pick_send_stream pick_from candidate find_chunk
    values
bytes_ready = refl

abbrev accepted : Client ℕ
accepted = record after_datagram { objects = (accept_stream_nonblock after_datagram.objects).1 }

abbrev nothing : ℕ → List ℕ
nothing r = []

-- The same stream in a client whose history is known.
abbrev history_client : Client ℕ
history_client = (opened quiet_peer (bind (fresh_client 1) true) 1 (pos 0) 1).1

abbrev after_read : Client ℕ
after_read = read_on numeric (take_input quiet_peer history_client datagram).1 0 (integer (pos 1))
