-- ===== src/Tests/Receiving.antt =====
-- The receiving side at concrete inputs.
use quic_ruby.Base.{pos, ◌≡◌, refl, false, [], ◌∷◌, ◌++◌, arith}
use quic_ruby.Ruby.{Value, integer, ok}
use quic_ruby.Ruby.Hash.{aref}
use quic_ruby.Stream.{Stream, stream_alloc, stream_new, memmove_down, read_bytes, read_nonblock}
use quic_ruby.Ngtcp2.{Event, recv_stream_data}
use quic_ruby.Client.Objects.{Objects}
use quic_ruby.Client.Callbacks.{callback}
use quic_ruby.Receiver.Read.{IsReceiving, Reads, read_nonblock-Reads}
use quic_ruby.Receiver.Surfaces.{mem, Surfaces}
use quic_ruby.Receiver.Accept.{arrivals, callback-Surfaces}
use quic_ruby.Tests.Peer.{numeric}

abbrev half_read : Stream
half_read = record stream_alloc { recv_buffer = 3 ∷ 4 ∷ 5 ∷ [] }

abbrev two : Value
two = integer (pos 2)

half_read-IsReceiving : IsReceiving (1 ∷ 2 ∷ 3 ∷ 4 ∷ 5 ∷ []) (1 ∷ 2 ∷ []) half_read
half_read-IsReceiving = refl

read_nonblock-Reads_example :
    Reads (1 ∷ 2 ∷ 3 ∷ 4 ∷ 5 ∷ []) (1 ∷ 2 ∷ []) half_read 2 (read_nonblock numeric half_read two)
read_nonblock-Reads_example =
    read_nonblock-Reads numeric (1 ∷ 2 ∷ 3 ∷ 4 ∷ 5 ∷ []) (1 ∷ 2 ∷ []) half_read two 2 refl
      half_read-IsReceiving

read_two :
    read_nonblock numeric half_read two
    ≡ (ok (3 ∷ 4 ∷ []), record half_read { recv_buffer = 5 ∷ [] })
unfolding read_nonblock read_bytes memmove_down
read_two = refl

-- Stream 1 of the server, registered and not surfaced.
abbrev one_stream : Objects
one_stream = record { cell = λ r. stream_new 1; next = 1; streams = (1, 0) ∷ []; accept_queue = [] }

abbrev first_data : Event
first_data = recv_stream_data false 1 (9 ∷ [])

one_stream-Surfaces : Surfaces [] [] one_stream
unfolding aref stream_new stream_alloc mem
one_stream-Surfaces = record {
  queued = refl;
  unique = tt;
  marked = tt;
  exact = λ r below. refl;
  known = λ id r h. ground arith;
  distinct = (refl, tt);
}

callback-Surfaces_example :
    Surfaces [] ([] ++ arrivals [] one_stream first_data) (callback one_stream first_data)
callback-Surfaces_example = callback-Surfaces one_stream first_data one_stream-Surfaces
