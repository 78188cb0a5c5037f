-- ===== src/Tests/Retaining.antt =====
-- The chunk that a concrete run pushes, while ngtcp2 holds a pointer into it, and the picker after it.
use quic_ruby.Base.{
  ◌↔◌, none, ℕ, ◌+◌, ◌<◌, ◌≡◌, refl, true, some, List, [], ◌∷◌, ◌++◌, arith, length,
}
use quic_ruby.Stream.{stream_alloc, stream_new, append_chunk, enqueue}
use quic_ruby.Client.Objects.{register}
use quic_ruby.Client.Callbacks.{callbacks}
use quic_ruby.Client.Picker.{Candidate, find_chunk, candidate, pick_from, pick_send_stream}
use quic_ruby.Client.Packets.{account, account_picked, write_into, writev_args}
use quic_ruby.Client.Io.{enqueue_on, opened}
use quic_ruby.Client.Open.{fresh_client}
use quic_ruby.Ruby.Hash.{aref, aset, values}
use quic_ruby.Sender.Retain.Pushed.{pushed_by}
use quic_ruby.Sender.Retain.Run.{chunks_written}
use quic_ruby.Sender.Retain.Past.{GoesOnFrom, here, further, past_of}
use quic_ruby.Sender.Retain.Pointer.{IsHeld, Run-pointer}
use quic_ruby.Tests.Peer.{peer}
use quic_ruby.Sender.Retain.Kept.{Run-kept}
use quic_ruby.Sender.Idle.{IsDone, Run-idle}
use quic_ruby.Tests.Runs.{
  accepted_word, framed_word, word, with_word, packed, stream-Run, word-Run, packet-Run,
}

word_exists : 0 < with_word.objects.next
unfolding opened register fresh_client enqueue_on
word_exists = omega arith

packed_exists : 0 < packed.objects.next
unfolding opened register fresh_client enqueue_on write_into account_picked pick_send_stream
    pick_from candidate find_chunk callbacks writev_args enqueue append_chunk stream_new
    stream_alloc aset values
packed_exists = omega arith

packed_chunks : chunks_written packet-Run 0 ≡ word ∷ []
unfolding packet-Run word-Run stream-Run chunks_written pushed_by enqueue_on enqueue append_chunk
    opened register stream_new stream_alloc fresh_client
packed_chunks = refl

not_acknowledged : (packed.objects.cell 0).acked_offset < 0 + length word
unfolding opened register fresh_client enqueue_on write_into account account_picked pick_send_stream
    pick_from candidate find_chunk callbacks writev_args enqueue append_chunk stream_new
    stream_alloc aset values
not_acknowledged = omega arith

Run-kept_example :
    (skipped : List (List ℕ)) × ((packed.objects.cell 0).pending_chunks ≡ skipped ++ word ∷ [])
Run-kept_example = Run-kept packet-Run 0 packed_exists [] [] word packed_chunks not_acknowledged

abbrev word_vector : Candidate
word_vector = record { bytes = word; datavcnt = 1; fin = true; stream_id = 0 }

picked_word : candidate (with_word.objects.cell 0) ≡ some word_vector
unfolding opened register fresh_client enqueue_on candidate find_chunk enqueue append_chunk
    stream_new stream_alloc aset values
picked_word = refl

goes_on : GoesOnFrom peer (_, _, _, word-Run) (_, _, _, packet-Run)
unfolding packet-Run past_of
goes_on = further refl here

not_acknowledged_yet :
    (packed.objects.cell 0).acked_offset < (with_word.objects.cell 0).sent_offset + 2
unfolding opened register fresh_client enqueue_on write_into account account_picked pick_send_stream
    pick_from candidate find_chunk callbacks writev_args enqueue append_chunk stream_new
    stream_alloc aset values
not_acknowledged_yet = omega arith

Run-pointer_example :
    (at_first : IsHeld (with_word.objects.cell 0).pending_chunks word_vector) × (at_last : IsHeld
      (packed.objects.cell 0).pending_chunks
      word_vector)
    × (at_last.chunk ≡ at_first.chunk)
    × (at_last.offset ≡ at_first.offset)
Run-pointer_example =
    Run-pointer word-Run packet-Run 0 word_exists packed_exists word_vector picked_word refl goes_on
      not_acknowledged_yet

Run-idle_example : (pick_send_stream packed.objects ≡ none) ↔ (
    (id r : ℕ)
    → aref id packed.objects.streams ≡ some r
    → IsDone (accepted_word r) (framed_word r) (packed.objects.cell r))
Run-idle_example = Run-idle packet-Run

packed_idle : pick_send_stream packed.objects ≡ none
unfolding opened register fresh_client enqueue_on write_into account account_picked pick_send_stream
    pick_from candidate find_chunk callbacks writev_args enqueue append_chunk stream_new
    stream_alloc aset values
packed_idle = refl
