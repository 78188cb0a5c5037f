-- ===== src/Sender/Account.antt =====
-- The accounting of #write_pkt, and the callbacks that leave the sending side alone.
use quic_ruby.Base.{
  ℕ, ◌+◌, ◌-◌, ◌≤◌, ◌≡◌, sym, ap, ◌∙◌, true, List, [], ◌++◌, arith, length, take, magnitude,
  length-append, length-drop, take-add, take-append_le,
}
use quic_ruby.Stream.{Stream}
use quic_ruby.Ngtcp2.{Written}
use quic_ruby.Client.Picker.{Candidate}
use quic_ruby.Client.Packets.{account}
use quic_ruby.Sender.Invariant.{IsSending}
use quic_ruby.Sender.Pick.{IsNext}

nil-length : (xs : List ℕ) → xs ≡ [] → length xs ≡ 0
nil-length xs e = ap length e

module _ {accepted framed : List ℕ} {s : Stream} {p : Candidate} (w : Written)
    (v : IsSending accepted framed s) (next : IsNext accepted s p)
    (fits : magnitude w.pdatalen ≤ length p.bytes) where
  take-framed :
      (k : ℕ) → k ≤ length p.bytes → take (s.sent_offset + k) accepted ≡ framed ++ take k p.bytes
  take-framed k h =
      take-add s.sent_offset k accepted
      ∙ ap (λ r. take s.sent_offset accepted ++ take k r) (sym next.continues)
      ∙ ap (λ r. take s.sent_offset accepted ++ r) (take-append_le k p.bytes next.rest h)
      ∙ ap (λ r. r ++ take k p.bytes) (sym v.in_order)

  lengths : length p.bytes + length next.rest ≡ length accepted - s.sent_offset
  lengths = omega (
    arith,
    ap length next.continues,
    length-append p.bytes next.rest,
    length-drop s.sent_offset accepted,
  )

  pub account-sent : (account s p w).sent_offset ≡ s.sent_offset + magnitude w.pdatalen
  unfolding account
  account-sent = ground (arith, lengths)

  account-flushed :
      (account s p w).fin_flushed ≡ true
      → (s.fin_sent ≡ true) × (s.sent_offset + magnitude w.pdatalen ≡ length accepted)
  unfolding account
  account-flushed h = ground (
    arith,
    lengths,
    next.fin_last.0,
    next.counted,
    v.flushed,
    v.sent_le,
    nil-length next.rest,
    nil-length p.bytes,
  )

  -- Of the next bytes of a stream in the sending invariant, exactly those that ngtcp2 put into the
  -- packet are counted as sent, where it framed no more than there are, and FIN is taken as
  -- flushed only when no byte is left.
  pub account-IsSending :
      IsSending accepted (framed ++ take (magnitude w.pdatalen) p.bytes) (account s p w)
  unfolding account
  account-IsSending = record {
    queued = ground (arith, v.queued);
    filled = ground (arith, v.filled);
    shifted_le = ground (arith, v.shifted_le);
    acked_le = ground (arith, account-sent, v.acked_le);
    sent_le = ground (arith, account-sent, lengths, v.sent_le);
    in_order = ground (arith, account-sent, take-framed (magnitude w.pdatalen) fits);
    flushed = λ f. ground (arith, account-flushed f, account-sent);
    small = v.small;
  }
