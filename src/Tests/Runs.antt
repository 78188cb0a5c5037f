-- ===== src/Tests/Runs.antt =====
-- A run of a client at concrete inputs: a stream is opened, written, and its bytes go into a packet.
use quic_ruby.Base.{
  ℕ, pos, ◌+◌, ◌≤◌, ◌<◌, ◌≡◌, refl, true, false, some, List, [], ◌∷◌, arith, take, subst,
}
use quic_ruby.Ruby.{string, ascii_8bit, Result}
use quic_ruby.Ruby.Hash.{aref, aset, values}
use quic_ruby.Stream.{stream_alloc, stream_new, append_chunk, enqueue}
use quic_ruby.Ngtcp2.{Event, stream_open, stream_reset, recv_stream_data, acked_stream_data_offset}
use quic_ruby.Client.Objects.{Objects, register, lookup_stream}
use quic_ruby.Client.State.{Client}
use quic_ruby.Client.Callbacks.{callbacks, callback, stream_open_cb, recv_stream_data_cb, receive}
use quic_ruby.Client.Picker.{find_chunk, candidate, pick_from, pick_send_stream}
use quic_ruby.Client.Packets.{account, account_picked, write_into, writev_args}
use quic_ruby.Client.Io.{enqueue_on, opened}
use quic_ruby.Client.Open.{fresh_client}
use quic_ruby.Sender.Tracks.{Tracks}
use quic_ruby.Sender.Callbacks.{callbacks-Tracks, ArePermitted}
use quic_ruby.Sender.Packet.{IsHonest, given, answer, given_for, framed_by, write_into-Tracks}
use quic_ruby.Sender.Accepted.{accepted_by}
use quic_ruby.Sender.Run.{Run, starts, opens, writes, packs, Run-Tracks, Run-framed}
use quic_ruby.Tests.Peer.{peer}

abbrev pub nothing : ℕ → List ℕ
nothing r = []

abbrev pub word : List ℕ
word = 104 ∷ 105 ∷ []

abbrev with_stream : Client ℕ
with_stream = (opened peer (fresh_client 0) 1 (pos 0) 0).1

abbrev write_answer : Result ℕ × Client ℕ
write_answer = enqueue_on with_stream 0 (string ascii_8bit word) true

abbrev pub with_word : Client ℕ
with_word = write_answer.1

abbrev pub accepted_word : ℕ → List ℕ
accepted_word = accepted_by nothing 0 word write_answer.0

abbrev pub packed : Client ℕ
packed = (write_into peer with_word 7).client

abbrev pub framed_word : ℕ → List ℕ
framed_word =
    framed_by nothing with_word.objects (given peer with_word 7) (answer peer with_word 7).2

pub exists : 0 < with_stream.objects.next
unfolding opened register fresh_client
exists = omega arith

unfoldable pub stream-Run : Run peer nothing nothing with_stream
stream-Run = opens 1 (pos 0) 0 (starts 0)

unfoldable pub word-Run : Run peer accepted_word nothing with_word
word-Run = writes 0 (string ascii_8bit word) word true exists refl (omega arith) stream-Run

pub answer-IsHonest : IsHonest with_word.objects (given peer with_word 7) (answer peer with_word 7)
unfolding writev_args pick_send_stream pick_from candidate find_chunk enqueue_on enqueue
    append_chunk opened register stream_new stream_alloc fresh_client aset values
answer-IsHonest = record { permitted = tt; fits = omega arith }

unfoldable pub packet-Run : Run peer accepted_word framed_word packed
packet-Run = packs 7 answer-IsHonest word-Run

Run-framed_example : framed_word 0 ≡ take (packed.objects.cell 0).sent_offset (accepted_word 0)
Run-framed_example = Run-framed peer packet-Run 0

-- Both bytes are in the packet, with FIN.
packed_word :
    (framed_word 0 ≡ word)
    × ((packed.objects.cell 0).sent_offset ≡ 2)
    × ((packed.objects.cell 0).fin_flushed ≡ true)
unfolding framed_by given_for lookup_stream aref accepted_by pick_send_stream pick_from candidate
    find_chunk write_into writev_args account account_picked callbacks callback enqueue_on enqueue
    append_chunk opened register stream_new stream_alloc fresh_client aset values
packed_word = (refl, refl, refl)

write_into-Tracks_example : Tracks accepted_word framed_word packed.objects
write_into-Tracks_example =
    write_into-Tracks peer with_word 7 (Run-Tracks peer word-Run) answer-IsHonest

-- The server opens a stream, sends data on it, acknowledges the word, and resets the stream.
abbrev events : List Event
events =
    stream_open 1
    ∷ recv_stream_data false 1 (9 ∷ [])
    ∷ acked_stream_data_offset 0 2
    ∷ stream_reset 1 3
    ∷ []

abbrev after_data : Objects
after_data = callback (callback packed.objects (stream_open 1)) (recv_stream_data false 1 (9 ∷ []))

word_sent : (after_data.cell 0).acked_offset + 2 ≤ (after_data.cell 0).sent_offset
unfolding pick_send_stream pick_from candidate find_chunk write_into writev_args account
    account_picked callbacks callback enqueue_on enqueue append_chunk opened register stream_new
    stream_alloc fresh_client aset values stream_open_cb recv_stream_data_cb receive lookup_stream
    aref
word_sent = omega arith

only_stream : (r : ℕ) → lookup_stream after_data 0 ≡ some r → 0 ≡ r
unfolding pick_send_stream pick_from candidate find_chunk write_into writev_args account
    account_picked callbacks callback enqueue_on enqueue append_chunk opened register stream_new
    stream_alloc fresh_client aset values stream_open_cb recv_stream_data_cb receive lookup_stream
    aref
only_stream r h = cc h

events-ArePermitted : ArePermitted packed.objects events
events-ArePermitted = (tt, (tt, (λ r h. permitted r (only_stream r h), (tt, tt))))
  where
    permitted :
        (r : ℕ) → 0 ≡ r → (after_data.cell r).acked_offset + 2 ≤ (after_data.cell r).sent_offset
    permitted r e =
        subst (λ q. (after_data.cell q).acked_offset + 2 ≤ (after_data.cell q).sent_offset) e
          word_sent

callbacks-Tracks_example : Tracks accepted_word framed_word (callbacks packed.objects events)
callbacks-Tracks_example =
    callbacks-Tracks packed.objects events events-ArePermitted (Run-Tracks peer packet-Run)
