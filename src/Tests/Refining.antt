-- ===== src/Tests/Refining.antt =====
-- The queue of unsent bytes, and packets until nothing is left, at concrete inputs.
use quic_ruby.Base.{
  pos, negsuc, ◌≤◌, ◌≡◌, inl, refl, true, false, none, some, List, [], ◌∷◌, arith, length, subst,
}
use quic_ruby.Ngtcp2.{Written}
use quic_ruby.Stream.{Stream, stream_alloc}
use quic_ruby.Client.Callbacks.{acknowledge, shift_acked}
use quic_ruby.Client.Picker.{Candidate, candidate, find_chunk}
use quic_ruby.Client.Packets.{account}
use quic_ruby.Sender.Invariant.{IsSending}
use quic_ruby.Sender.Outbox.{
  Op, write, send, acknowledged, step, send_picked, outbox, run, spec_run,
}
use quic_ruby.Sender.Outbox.Refine.{ArePermittedOps, run-refines}
use quic_ruby.Sender.Flush.{
  packs, pack_picked, Progresses, TakesSome, packs-finishes, packs-fin_lost,
}
use quic_ruby.Tests.Sending.{
  busy, written_bytes, busy-IsSending, next_bytes, busy_next, one_byte_packet,
}

-- A packet takes one of the unsent bytes, one more is acknowledged, and a write comes after the last.
abbrev ops : List Op
ops = send one_byte_packet ∷ acknowledged 1 ∷ write (9 ∷ []) true ∷ []

one_fits :
    (p : Candidate)
    → candidate busy ≡ some p
    → (1 ≤ length p.bytes) × (p.datavcnt ≡ 0 → true ≡ true → false ≡ false)
one_fits p e =
    let same : next_bytes ≡ p = cc (busy_next, e) in
    (subst (λ (x : Candidate). 1 ≤ length x.bytes) same (omega arith), λ h k. refl)

ops-ArePermittedOps : ArePermittedOps busy ops
unfolding step send_picked outbox account acknowledge shift_acked candidate find_chunk stream_alloc
ops-ArePermittedOps = (one_fits, (omega arith, (omega arith, tt)))

run-refines_example : (outbox (run busy ops).0, (run busy ops).1) ≡ spec_run (outbox busy) ops
run-refines_example = run-refines ops busy-IsSending ops-ArePermittedOps

-- All but the last byte are sent.
abbrev almost : Stream
almost = record busy { sent_offset = 4 }

almost-IsSending : IsSending written_bytes (1 ∷ 2 ∷ 3 ∷ 4 ∷ []) almost
unfolding stream_alloc
almost-IsSending = record {
  queued = refl;
  filled = (omega arith, (omega arith, tt));
  shifted_le = omega arith;
  acked_le = omega arith;
  sent_le = omega arith;
  in_order = refl;
  flushed = λ e. cc;
  small = omega arith;
}

abbrev last_byte : Candidate
last_byte = record { bytes = 5 ∷ []; datavcnt = 1; fin = true; stream_id = 0 }

almost_last : candidate almost ≡ some last_byte
unfolding candidate find_chunk stream_alloc
almost_last = refl

takes_last : (p : Candidate) → candidate almost ≡ some p → TakesSome p one_byte_packet
takes_last p e =
    let same : last_byte ≡ p = cc (almost_last, e) in
    subst (λ (x : Candidate). TakesSome x one_byte_packet) same (omega arith, inl (omega arith))

nothing_left : candidate (account almost last_byte one_byte_packet) ≡ none
unfolding candidate find_chunk account stream_alloc
nothing_left = refl

almost-Progresses : Progresses 2 almost (λ i. one_byte_packet)
unfolding candidate find_chunk pack_picked account stream_alloc
almost-Progresses = (takes_last, ((λ p e. absurd (cc e)), tt))

packs-finishes_example : candidate (packs 2 almost (λ i. one_byte_packet)) ≡ none
packs-finishes_example =
    packs-finishes 2 (λ i. one_byte_packet) almost-IsSending almost-Progresses (omega arith)

-- All bytes are sent, and a packet goes out without the FIN.
abbrev all_sent : Stream
all_sent = record busy { sent_offset = 5 }

abbrev fin_alone : Candidate
fin_alone = record { bytes = []; datavcnt = 0; fin = true; stream_id = 0 }

abbrev ack_packet : Written
ack_packet = record { n = pos 30; dest = []; pdatalen = negsuc 0 }

all_sent_fin : candidate all_sent ≡ some fin_alone
unfolding candidate find_chunk stream_alloc
all_sent_fin = refl

packs-fin_lost_example :
    (packs 3 (account all_sent fin_alone ack_packet) (λ i. one_byte_packet)
      ≡ account all_sent fin_alone ack_packet)
    × (candidate (account all_sent fin_alone ack_packet) ≡ none)
packs-fin_lost_example =
    packs-fin_lost 3 all_sent fin_alone ack_packet (λ i. one_byte_packet) all_sent_fin refl refl
      refl
