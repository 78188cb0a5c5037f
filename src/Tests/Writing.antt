-- ===== src/Tests/Writing.antt =====
-- The blocking #write at concrete inputs.
use quic_ruby.Base.{ℕ, pos, ◌<◌, ◌≡◌, refl, true, false, none, some, List, [], ◌∷◌, arith}
use quic_ruby.Ruby.{Value, string, ascii_8bit, Result}
use quic_ruby.Ruby.Hash.{aref, aset, values}
use quic_ruby.Stream.{stream_alloc, stream_new}
use quic_ruby.Client.Objects.{Objects, register, lookup_stream}
use quic_ruby.Client.State.{Client, bind}
use quic_ruby.Client.Callbacks.{callback, callbacks, recv_stream_data_cb}
use quic_ruby.Client.Picker.{candidate, find_chunk, pick_from, pick_send_stream}
use quic_ruby.Client.Packets.{
  write_pkt, write_into, check_buffer, writev_args, account_picked, read_pkt_body,
}
use quic_ruby.Client.Io.{enqueue_on, opened, window_left, fin_kwarg}
use quic_ruby.Client.Open.{fresh_client}
use quic_ruby.Client.Pump.{Turn, pump_once, wait_window, write, drain, take_input}
use quic_ruby.Sender.Accepted.{accepted_by}
use quic_ruby.Sender.Run.{starts, binds, opens}
use quic_ruby.Sender.Writing.{KeepsPromises, RunsOn, write-RunsOn}
use quic_ruby.Tests.Peer.{quiet_peer}

abbrev nothing : ℕ → List ℕ
nothing r = []

-- A bound client with one stream, and a window of one byte.
abbrev client : Client ℕ
client = (opened quiet_peer (bind (fresh_client 1) true) 1 (pos 0) 0).1

-- The peer acknowledges nothing and frames nothing, so that it agrees with any objects.
abbrev Any : ℕ → Objects → Type 0
Any conn o = Unit

quiet_peer-KeepsPromises : KeepsPromises quiet_peer Any
unfolding writev_args
quiet_peer-KeepsPromises = record {
  packing = λ c now h. (record { permitted = tt; fits = omega arith }, tt);
  receiving = λ c path packet now h. ((tt, tt), tt);
  expiring = λ c now h. (tt, tt);
  writing = λ c r v fin h. tt;
}

-- A datagram opens the window to two bytes.
abbrev datagram : Turn
datagram = record {
  times = λ k. k;
  received = some (9 ∷ []);
  path = record { local_sockaddr = []; remote_sockaddr = [] };
}

abbrev two_bytes : List ℕ
two_bytes = 7 ∷ 8 ∷ []

abbrev data_v : Value
data_v = string ascii_8bit two_bytes

abbrev written : Result ℕ × Client ℕ
written = enqueue_on (take_input quiet_peer client datagram).1 0 data_v false

exists : 0 < client.objects.next
unfolding opened register fresh_client
exists = omega arith

write_ends : write quiet_peer 5 client 0 data_v none (datagram ∷ []) ≡ some written
unfolding write wait_window window_left fin_kwarg pump_once drain write_pkt write_into check_buffer
    writev_args account_picked take_input read_pkt_body callbacks callback recv_stream_data_cb
    lookup_stream aref aset values stream_new stream_alloc pick_send_stream pick_from candidate
    find_chunk opened register fresh_client
write_ends = refl

write-RunsOn_example : RunsOn quiet_peer Any (accepted_by nothing 0 two_bytes written.0) written.1
write-RunsOn_example =
    write-RunsOn quiet_peer Any quiet_peer-KeepsPromises 5 client 0 data_v two_bytes none
      (datagram ∷ []) exists refl nothing written (omega arith)
      ((nothing, opens 1 (pos 0) 0 (binds true (starts 1))), tt) write_ends
