-- ===== src/Tests/Ends.antt =====
-- Resets and the sending loop at concrete inputs.
use quic_ruby.Base.{ℕ, ◌≡◌, refl, true, some, none, [], ◌∷◌}
use quic_ruby.Ruby.{string, ascii_8bit, ok, raise, quic, ErrorClass}
use quic_ruby.Ruby.Hash.{aref}
use quic_ruby.Stream.{stream_new, stream_alloc}
use quic_ruby.Ngtcp2.{Ngtcp2}
use quic_ruby.Client.Objects.{lookup_stream}
use quic_ruby.Client.State.{Client}
use quic_ruby.Client.Io.{write_nonblock, window_left, stream, close_stream, reset_with}
use quic_ruby.Client.Io.Aborted.{
  after_reset_cb, refused_as, close_stream-refused, stream_reset_cb-blocks,
}
use quic_ruby.Tests.Peer.{peer}

-- A client with one stream, and the same after #reset.
abbrev client : Client ℕ
client = record {
  conn = 2;
  objects = record { cell = λ r. stream_new 0; next = 1; streams = (0, 0) ∷ []; accept_queue = [] };
  bound = true;
  sent = [];
}

abbrev with_reset : Client ℕ
with_reset = record client {
  objects = record client.objects { cell = λ r. record (stream_new 0) { reset = true } };
}

close_stream-refused_example :
    ((close_stream peer with_reset 0).0 ≡ raise (quic ErrorClass.stream_closed none))
    × ((close_stream peer with_reset 0).1.conn ≡ with_reset.conn)
unfolding stream_new stream_alloc
close_stream-refused_example = close_stream-refused peer with_reset 0 refl refl

registered_at_0 : lookup_stream client.objects 0 ≡ some 0
unfolding lookup_stream aref
registered_at_0 = refl

abbrev full_peer : Ngtcp2 ℕ
full_peer = record peer { get_max_data_left = λ conn. 0 }

owned : (stream client 0).has_client ≡ true
unfolding stream_new
owned = refl

stream_reset_cb-blocks_example :
    ((write_nonblock full_peer
        (after_reset_cb full_peer client 0 0 5)
        0
        (string ascii_8bit (1 ∷ []))
        none).0
      ≡ raise (
          refused_as full_peer client 0
            (window_left full_peer (after_reset_cb full_peer client 0 0 5) 0)
            (1 ∷ [])))
    × (reset_with full_peer (after_reset_cb full_peer client 0 0 5) 0 9
        ≡ (ok tt, after_reset_cb full_peer client 0 0 5))
stream_reset_cb-blocks_example =
    stream_reset_cb-blocks full_peer client 0 0 5 ascii_8bit (1 ∷ []) none 9 registered_at_0 owned
