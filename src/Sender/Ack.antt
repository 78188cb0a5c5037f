-- ===== src/Sender/Ack.antt =====
-- quic_acked_stream_data_offset_cb: which chunks an acknowledgement releases.
use quic_ruby.Base.{
  ℕ, ◌+◌, ◌≤◌, ◌<◌, ◌≡◌, sym, ap, ◌∙◌, List, [], ◌∷◌, ◌++◌, arith, length, drop, flatten, All,
  long_limit, u64_mod, add64, length-append, length-drop, drop-drop, drop-length_append, dec_le,
  le→leb, lt→leb,
}
use quic_ruby.Stream.{Stream}
use quic_ruby.Client.Callbacks.{shift_acked, acknowledge}
use quic_ruby.Sender.Invariant.{IsSending}

-- After the loop: the queue starts at the new `shifted`, which the acknowledged bytes cover, and its
-- first chunk is not acknowledged whole.
pub record IsShifted (accepted : List ℕ) (acked shifted : ℕ) (out : ℕ × List (List ℕ))
    : Type 0 where
  pub queued : flatten out.1 ≡ drop out.0 accepted
  pub filled : All (λ c. 0 < length c) out.1
  pub grows : shifted ≤ out.0
  pub covered : out.0 ≤ acked
  pub stops :
      (head : List ℕ) (rest : List (List ℕ)) → out.1 ≡ head ∷ rest → acked < out.0 + length head

head-fits :
    (accepted head rest : List ℕ) (shifted : ℕ)
    → 0 < length head
    → head ++ rest ≡ drop shifted accepted
    → shifted + length head ≤ length accepted
head-fits accepted head rest shifted h e =
    omega (arith, ap length e, length-append head rest, length-drop shifted accepted)

queue-tail :
    (accepted head rest : List ℕ) (shifted : ℕ)
    → head ++ rest ≡ drop shifted accepted
    → rest ≡ drop (shifted + length head) accepted
queue-tail accepted head rest shifted e =
    sym (drop-length_append head rest)
    ∙ ap (drop (length head)) e
    ∙ drop-drop shifted (length head) accepted

shift_acked-more :
    (acked shifted : ℕ) (head : List ℕ) (rest : List (List ℕ))
    → shifted + length head < u64_mod
    → shifted + length head ≤ acked
    → shift_acked acked shifted (head ∷ rest) ≡ shift_acked acked (shifted + length head) rest
unfolding shift_acked
shift_acked-more acked shifted head rest small h = rw (no_wrap, le→leb _ _ h)
  where
    no_wrap : add64 shifted (length head) ≡ shifted + length head
    no_wrap = omega arith

shift_acked-stop :
    (acked shifted : ℕ) (head : List ℕ) (rest : List (List ℕ))
    → shifted + length head < u64_mod
    → acked < shifted + length head
    → shift_acked acked shifted (head ∷ rest) ≡ (shifted, head ∷ rest)
unfolding shift_acked
shift_acked-stop acked shifted head rest small h = rw (no_wrap, lt→leb _ _ h)
  where
    no_wrap : add64 shifted (length head) ≡ shifted + length head
    no_wrap = omega arith

shift_acked-IsShifted :
    (accepted : List ℕ) (acked shifted : ℕ) (chunks : List (List ℕ))
    → length accepted < long_limit
    → shifted ≤ acked
    → flatten chunks ≡ drop shifted accepted
    → All (λ c. 0 < length c) chunks
    → IsShifted accepted acked shifted (shift_acked acked shifted chunks)
shift_acked-IsShifted accepted acked shifted [] small le e f =
    unfold shift_acked in
    record { queued = e; filled = f; grows = omega arith; covered = le; stops = λ h r q. cc }
shift_acked-IsShifted accepted acked shifted (head ∷ rest) small le e f =
    elim (dec_le (shifted + length head) acked) [
      | yes h ↦ rw (shift_acked-more acked shifted head rest (omega (arith, fits)) h) (
          grown (
            shift_acked-IsShifted accepted acked (shifted + length head) rest small h
              (queue-tail accepted head (flatten rest) shifted e) f.1))
      | no h ↦
          rw (shift_acked-stop acked shifted head rest (omega (arith, fits)) (omega arith))
            (record {
              queued = e;
              filled = f;
              grows = omega arith;
              covered = le;
              stops = λ x r q. ground arith;
            })
    ]
  where
    fits : shifted + length head ≤ length accepted
    fits = head-fits accepted head (flatten rest) shifted f.0 e

    grown :
        {out : ℕ × List (List ℕ)}
        → IsShifted accepted acked (shifted + length head) out
        → IsShifted accepted acked shifted out
    grown g = record {
      queued = g.queued;
      filled = g.filled;
      grows = omega (arith, g.grows);
      covered = g.covered;
      stops = g.stops;
    }

module _ {accepted framed : List ℕ} {s : Stream} (v : IsSending accepted framed s) (datalen : ℕ)
    (within : s.acked_offset + datalen ≤ s.sent_offset) where
  acked-lem : add64 s.acked_offset datalen ≡ s.acked_offset + datalen
  acked-lem = omega arith

  -- An acknowledgement of bytes that were sent drops from the queue only chunks that are acknowledged
  -- whole, and each of them: the queue is the accepted bytes from the new `pending_shifted` on, which
  -- does not pass the acknowledged offset, and the first chunk left ends behind that offset.
  pub acknowledge-IsShifted :
      IsShifted accepted
        (s.acked_offset + datalen)
        s.pending_shifted
        ((acknowledge s datalen).pending_shifted, (acknowledge s datalen).pending_chunks)
  unfolding acknowledge
  acknowledge-IsShifted = rw acked-lem (
      shift_acked-IsShifted accepted (s.acked_offset + datalen) s.pending_shifted s.pending_chunks
        v.small (omega arith) v.queued v.filled)

  -- An acknowledgement of bytes that were sent keeps the sending invariant of the stream.
  pub acknowledge-IsSending : IsSending accepted framed (acknowledge s datalen)
  unfolding acknowledge
  acknowledge-IsSending = record {
    queued = acknowledge-IsShifted.queued;
    filled = acknowledge-IsShifted.filled;
    shifted_le = omega (arith, acknowledge-IsShifted.covered, acked-lem);
    acked_le = omega (arith, acked-lem);
    sent_le = v.sent_le;
    in_order = v.in_order;
    flushed = v.flushed;
    small = v.small;
  }
