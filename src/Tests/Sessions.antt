-- ===== src/Tests/Sessions.antt =====
-- A history of a client's receiving side at concrete inputs.
use quic_ruby.Base.{ℕ, suc, pos, ◌≡◌, refl, false, List, [], ◌∷◌, ◌++◌, arith, ◌<◌}
use quic_ruby.Client.Read.{initiator}
use quic_ruby.Ruby.{Value, symbol, integer}
use quic_ruby.Ruby.Hash.{aref, aset}
use quic_ruby.Stream.{stream_alloc, stream_new, read_nonblock, read_bytes, memmove_down}
use quic_ruby.Ngtcp2.{Ngtcp2, SocketPath, Event, stream_open, recv_stream_data}
use quic_ruby.Client.Objects.{lookup_stream, register}
use quic_ruby.Client.State.{Client}
use quic_ruby.Client.Callbacks.{callback, callbacks, stream_open_cb, recv_stream_data_cb, receive}
use quic_ruby.Client.Packets.{read_pkt_body}
use quic_ruby.Client.Io.{stream}
use quic_ruby.Client.Open.{fresh_client}
use quic_ruby.Receiver.Collects.{grow, all_delivered, delivered_by}
use quic_ruby.Receiver.History.{returned}
use quic_ruby.Receiver.Steps.{read_on}
use quic_ruby.Receiver.Session.{Session, starts, receives, reads, Session-received}
use quic_ruby.Tests.Peer.{quiet_peer, numeric}

-- The server opens stream 1 and sends three bytes on it.
abbrev events : List Event
events = stream_open 1 ∷ recv_stream_data false 1 (5 ∷ 6 ∷ 7 ∷ []) ∷ []

abbrev server_peer : Ngtcp2 ℕ
server_peer = record quiet_peer { read_pkt = λ conn path packet now. (suc conn, events, pos 0) }

abbrev path : SocketPath
path = record { local_sockaddr = []; remote_sockaddr = [] }

abbrev nothing : ℕ → List ℕ
nothing r = []

abbrev fresh : Client ℕ
fresh = fresh_client 0

abbrev after_packet : Client ℕ
after_packet = (read_pkt_body server_peer fresh path (9 ∷ []) 7).1

abbrev received : ℕ → List ℕ
received = all_delivered fresh.objects events nothing

abbrev two : Value
two = integer (pos 2)

abbrev consumed : ℕ → List ℕ
consumed = grow nothing 0 (returned (read_nonblock numeric (stream after_packet 0) two).0)

exists : 0 < after_packet.objects.next
unfolding read_pkt_body callbacks callback stream_open_cb recv_stream_data_cb lookup_stream aref
    register aset fresh_client
exists = omega arith

read-Session : Session server_peer received consumed (read_on numeric after_packet 0 two)
read-Session = reads numeric 0 two exists (receives path (9 ∷ []) 7 (starts 0))

Session-received_example :
    received 0 ≡ consumed 0 ++ ((read_on numeric after_packet 0 two).objects.cell 0).recv_buffer
Session-received_example = Session-received server_peer read-Session 0

-- Three bytes arrived, of which two were read.
received_three : (received 0 ≡ 5 ∷ 6 ∷ 7 ∷ []) × (consumed 0 ≡ 5 ∷ 6 ∷ [])
unfolding all_delivered delivered_by grow read_pkt_body callbacks callback stream_open_cb
    recv_stream_data_cb receive lookup_stream aref register aset fresh_client stream_new
    stream_alloc read_nonblock read_bytes memmove_down
received_three = (refl, refl)

server_uni : initiator (stream_new 7) ≡ symbol "server_uni"
unfolding initiator stream_new
server_uni = refl
