-- ===== src/Sender/Outbox/Sends.antt =====
-- What a packet leaves of the queue of unsent bytes: the accounting of #write_pkt
-- (ext/quic/connection_client.c).
use quic_ruby.Base.{
  ℕ, ◌+◌, ◌-◌, ◌≤◌, ◌≡◌, refl, sym, ap, ◌∙◌, true, false, List, [], ◌&&◌, ◌||◌, not, arith,
  nil_of_length, length, take, drop, ◌==◌, is_positive, is_negative, magnitude, drop-drop,
  take-append_le, length-drop, length-append,
}
use quic_ruby.Stream.{Stream}
use quic_ruby.Ngtcp2.{Written}
use quic_ruby.Client.Picker.{Candidate}
use quic_ruby.Client.Packets.{account}
use quic_ruby.Sender.Invariant.{IsSending}
use quic_ruby.Sender.Pick.{IsNext, unsent-queue}
use quic_ruby.Sender.Account.{account-sent}
use quic_ruby.Sender.Outbox.{Outbox, frames, send, spec_step, outbox}

-- The view of a stream in the sending invariant.
abbrev pub view : List ℕ → Stream → Outbox
view accepted s = record {
  queue = drop s.sent_offset accepted;
  finished = s.fin_sent;
  ended = s.fin_flushed;
  usable = not (s.reset || s.closed);
}

pub outbox-view : {a f : List ℕ} {s : Stream} → IsSending a f s → outbox s ≡ view a s
unfolding outbox
outbox-view {a} {f} {s} v =
    ap
      (λ (q : List ℕ). record {
        queue = q;
        finished = s.fin_sent;
        ended = s.fin_flushed;
        usable = not (s.reset || s.closed);
      })
      (unsent-queue v)

length_of_nil : (xs : List ℕ) → xs ≡ [] → length xs ≡ 0
length_of_nil xs e = ap length e

-- What the accounting leaves, for the next bytes of the stream.
module _ {a f : List ℕ} {s : Stream} (v : IsSending a f s) (w : Written) (p : Candidate)
    (next : IsNext a s p) (fits : magnitude w.pdatalen ≤ length p.bytes)
    (fin_framed : p.datavcnt ≡ 0 → is_positive w.n ≡ true → is_negative w.pdatalen ≡ false) where
  sent_bytes :
      take (magnitude w.pdatalen) p.bytes ≡ take (magnitude w.pdatalen) (drop s.sent_offset a)
  sent_bytes =
      sym (take-append_le (magnitude w.pdatalen) p.bytes next.rest fits)
      ∙ ap (take (magnitude w.pdatalen)) next.continues

  sent_queue :
      drop (account s p w).sent_offset a ≡ drop (magnitude w.pdatalen) (drop s.sent_offset a)
  sent_queue =
      ap (λ k. drop k a) (account-sent w v next fits)
      ∙ sym (drop-drop s.sent_offset (magnitude w.pdatalen) a)

  left_length :
      length (drop (magnitude w.pdatalen) (drop s.sent_offset a))
      ≡ length p.bytes + length next.rest - magnitude w.pdatalen
  left_length = omega (
    arith,
    length-drop (magnitude w.pdatalen) (drop s.sent_offset a),
    ap length next.continues,
    length-append p.bytes next.rest,
  )

  sent_end : (account s p w).fin_flushed ≡ (
      s.fin_flushed
      || s.fin_sent && length (drop (magnitude w.pdatalen) (drop s.sent_offset a)) == 0 && frames w)
  unfolding account
  sent_end = ground (
    arith,
    left_length,
    next.fin_last.0,
    next.fin_last.1,
    next.counted,
    fin_framed,
    nil_of_length next.rest,
    length_of_nil next.rest,
    length_of_nil p.bytes,
  )

  same_flags :
      ((account s p w).fin_sent ≡ s.fin_sent)
      × ((account s p w).reset ≡ s.reset)
      × ((account s p w).closed ≡ s.closed)
  unfolding account
  same_flags = ground arith

  pub sent_view :
      (view a (account s p w), take (magnitude w.pdatalen) p.bytes) ≡ spec_step (view a s) (send w)
  unfolding spec_step
  sent_view = rw (sent_queue, sent_end, sent_bytes, same_flags.0, same_flags.1, same_flags.2) refl
