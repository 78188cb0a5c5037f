-- ===== src/Tests/Refused.antt =====
-- A peer that refuses the data of a stream that was reset, and a client that goes on pumping.
use quic_ruby.Base.{
  ℕ, pos, negsuc, ◌≡◌, refl, Bool, true, false, Option, none, some, [], suc, ◌==◌, ==_iff,
  if◌then◌else◌, ◌∷◌,
}
use quic_ruby.Errors.{error_class, raise_ngtcp2_error}
use quic_ruby.Ruby.{Result, raise, quic, ErrorClass}
use quic_ruby.Ruby.Hash.{aset, values}
use quic_ruby.Ngtcp2.{Ngtcp2, Writev}
use quic_ruby.Stream.{stream_alloc, stream_new, append_chunk, enqueue}
use quic_ruby.Client.Objects.{register}
use quic_ruby.Client.Callbacks.{callbacks}
use quic_ruby.Client.State.{Client, bind}
use quic_ruby.Client.Picker.{Candidate, find_chunk, candidate, pick_from, pick_send_stream}
use quic_ruby.Client.Packets.{write_pkt, write_into, writev_args, check_buffer}
use quic_ruby.Client.Io.{reset_with, enqueue_on, opened}
use quic_ruby.Client.Open.{fresh_client}
use quic_ruby.Client.Pump.{Turn, pump_once, drain}
use quic_ruby.Client.Stuck.{Refuses, RefusesShut, rests, pumps, refused-stuck, reset-stuck}
use quic_ruby.Tests.Peer.{peer, codes}
use quic_ruby.Tests.Runs.{word, with_word}

-- A connection that is `suc id` has shut stream `id` down.
abbrev is_shut : ℕ → Option ℕ → Bool
is_shut conn none = false
is_shut conn (some id) = conn == suc id

abbrev strict_peer : Ngtcp2 ℕ
strict_peer = record peer {
  shutdown_stream_write = λ conn id code. (suc id, pos 0);
  writev_stream = λ conn args.
      if is_shut conn args.stream_id
      then (conn, [], record { n = codes.stream_shut_wr; dest = []; pdatalen = negsuc 0 })
      else peer.writev_stream conn args;
}

refused :
    (conn id : ℕ) (args : Writev)
    → conn ≡ suc id
    → args.stream_id ≡ some id
    → is_shut conn args.stream_id ≡ true
refused conn id args shut e = rw e ((==_iff conn (suc id)).1 shut)

strict_peer-RefusesShut : RefusesShut strict_peer (λ conn id. conn ≡ suc id)
strict_peer-RefusesShut = record {
  shuts = λ conn id code e. refl;
  refusing = record {
    refuses = λ conn id args shut e. rw (refused conn id args shut e) (refl, refl, shut);
    negative = refl;
  };
}

abbrev writing : Client ℕ
writing = bind with_word true

abbrev word_vector : Candidate
word_vector = record { bytes = word; datavcnt = 1; fin = true; stream_id = 0 }

abbrev after_reset : Client ℕ
after_reset = (reset_with strict_peer writing 0 7).1

abbrev turn : Turn
turn = record {
  times = λ k. k;
  received = some (1 ∷ []);
  path = record { local_sockaddr = []; remote_sockaddr = [] };
}

abbrev refused_turn : Result (Unit {0}) × Client ℕ
refused_turn = (raise (quic ErrorClass.stream_closed (some (negsuc 220))), after_reset)

pumped : pump_once strict_peer 1 after_reset turn ≡ some refused_turn
unfolding pump_once drain write_pkt check_buffer write_into writev_args callbacks reset_with
    pick_send_stream pick_from candidate find_chunk enqueue_on enqueue append_chunk opened register
    stream_new stream_alloc fresh_client aset values raise_ngtcp2_error error_class
pumped = refl

reset-stuck_example :
    (e : Client ℕ) × (pump_once strict_peer 1 after_reset turn
      ≡ some (raise (raise_ngtcp2_error codes codes.stream_shut_wr), e))
    × (e.sent ≡ [])
    × (e.objects ≡ after_reset.objects)
unfolding pick_send_stream pick_from values enqueue_on opened register aset fresh_client candidate
    enqueue stream_new find_chunk
reset-stuck_example =
    reset-stuck strict_peer (λ conn id. conn ≡ suc id) strict_peer-RefusesShut 0 writing after_reset
      0 7 word_vector turn refl refl refl refl refl (pumps turn refused_turn rests pumped)

-- The same peer without flow control left: it refuses stream 0, and takes the data of no other.
abbrev blocked_peer : Ngtcp2 ℕ
blocked_peer = record peer {
  writev_stream = λ conn args.
      if is_shut conn args.stream_id
      then (conn, [], record { n = codes.stream_data_blocked; dest = []; pdatalen = negsuc 0 })
      else peer.writev_stream conn args;
}

blocked_peer-Refuses : Refuses blocked_peer codes.stream_data_blocked (λ conn id. conn ≡ suc id)
blocked_peer-Refuses = record {
  refuses = λ conn id args shut e. rw (refused conn id args shut e) (refl, refl, shut);
  negative = refl;
}

refused-stuck_example :
    (e : Client ℕ) × (pump_once blocked_peer 1 writing turn
      ≡ some (raise (raise_ngtcp2_error codes codes.stream_data_blocked), e))
    × (e.sent ≡ [])
    × (e.objects ≡ writing.objects)
unfolding pick_send_stream pick_from values enqueue_on opened register aset fresh_client candidate
    enqueue stream_new find_chunk
refused-stuck_example =
    refused-stuck blocked_peer codes.stream_data_blocked (λ conn id. conn ≡ suc id)
      blocked_peer-Refuses 0 writing writing 0 word_vector turn refl refl refl rests
