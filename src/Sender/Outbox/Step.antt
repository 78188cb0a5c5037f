-- ===== src/Sender/Outbox/Step.antt =====
-- One step of the detailed sending side is a step of the queue of unsent bytes.
use quic_ruby.Base.{
  ℕ, ◌+◌, ◌≤◌, ◌<◌, ◌≡◌, refl, ap, Bool, true, false, none, some, List, [], ◌++◌, ◌||◌, ◌⊎◌, inl,
  inr, arith, take-nil, length, magnitude, is_positive, is_negative, long_limit, append-nil,
  drop-append_le, drop-all, length-drop, drop-nil, Bool-cases, Option-cases,
}
use quic_ruby.Ruby.{ascii_8bit, string}
use quic_ruby.Stream.{Stream, enqueue, append_chunk}
use quic_ruby.Ngtcp2.{Written}
use quic_ruby.Client.Callbacks.{acknowledge}
use quic_ruby.Client.Picker.{Candidate, candidate}
use quic_ruby.Sender.Invariant.{IsSending}
use quic_ruby.Sender.Pick.{candidate-IsNext, candidate-none}
use quic_ruby.Sender.Write.{append_chunk-IsSending, enqueue-accepts}
use quic_ruby.Sender.Account.{account-IsSending}
use quic_ruby.Sender.Ack.{acknowledge-IsSending}
use quic_ruby.Sender.Outbox.{
  Outbox, Op, write, send, acknowledged, spec_step, step, send_picked, outbox,
}
use quic_ruby.Sender.Outbox.Sends.{outbox-view, sent_view}

-- What the operations rely on: fewer than 2^63 bytes in all, no more bytes in a packet than were
-- handed out, a FIN that is handed out alone framed in the packet that comes of it, and no
-- acknowledgement of a byte that was not sent.
abbrev pub IsPermittedOp : Stream → Op → Type 0
IsPermittedOp s (write bytes fin) =
    s.sent_offset + length (outbox s).queue + length bytes < long_limit
IsPermittedOp s (send w) =
    (p : Candidate)
    → candidate s ≡ some p
    → (magnitude w.pdatalen ≤ length p.bytes)
      × (p.datavcnt ≡ 0 → is_positive w.n ≡ true → is_negative w.pdatalen ≡ false)
IsPermittedOp s (acknowledged datalen) = s.acked_offset + datalen ≤ s.sent_offset

-- A step of the code goes on with the invariant, and its view is a step of the queue.
pub record Implements (f : List ℕ) (s : Stream) (op : Op) : Type 0 where
  pub accepted : List ℕ
  pub sending : IsSending accepted (f ++ (step s op).1) (step s op).0
  pub refines : (outbox (step s op).0, (step s op).1) ≡ spec_step (outbox s) op

module _ {a f : List ℕ} {s : Stream} (v : IsSending a f s) where
  enqueue-refused :
      (bytes : List ℕ) (fin : Bool)
      → (s.reset || s.closed) ≡ true ⊎ (s.fin_sent ≡ true)
      → (enqueue s (string ascii_8bit bytes) fin).1 ≡ s
  unfolding enqueue
  enqueue-refused bytes fin (inl shut) = rw shut refl
  enqueue-refused bytes fin (inr done) = elim (Bool-cases (s.reset || s.closed)) [
    | inl shut ↦ rw shut refl
    | inr usable ↦ simp (usable, done)
  ]

  spec-refused :
      (bytes : List ℕ) (fin : Bool)
      → (s.reset || s.closed) ≡ true ⊎ (s.fin_sent ≡ true)
      → (outbox s, []) ≡ spec_step (outbox s) (write bytes fin)
  unfolding outbox spec_step
  spec-refused bytes fin h = ground arith

  write_refused :
      (bytes : List ℕ) (fin : Bool)
      → (s.reset || s.closed) ≡ true ⊎ (s.fin_sent ≡ true)
      → Implements f s (write bytes fin)
  unfolding step
  write_refused bytes fin h = record {
    accepted = a;
    sending = rw (enqueue-refused bytes fin h, append-nil) v;
    refines = rw (enqueue-refused bytes fin h) (spec-refused bytes fin h);
  }

  write_taken :
      (bytes : List ℕ) (fin : Bool)
      → s.reset ≡ false
      → s.closed ≡ false
      → s.fin_sent ≡ false
      → length a + length bytes < long_limit
      → Implements f s (write bytes fin)
  unfolding step
  write_taken bytes fin r c h k = record {
    accepted = a ++ bytes;
    sending =
        rw (append-nil, enqueue-accepts s ascii_8bit bytes fin r c h)
          (append_chunk-IsSending v bytes fin h k);
    refines =
        rw
          (
            enqueue-accepts s ascii_8bit bytes fin r c h,
            outbox-view v,
            outbox-view (append_chunk-IsSending v bytes fin h k),
          )
          (unfold spec_step append_chunk in
            ground (arith, drop-append_le s.sent_offset a bytes v.sent_le));
  }

  acknowledged_kept :
      (datalen : ℕ)
      → s.acked_offset + datalen ≤ s.sent_offset
      → Implements f s (acknowledged datalen)
  unfolding step spec_step
  acknowledged_kept datalen h = record {
    accepted = a;
    sending = rw append-nil (acknowledge-IsSending v datalen h);
    refines =
        rw (outbox-view v, outbox-view (acknowledge-IsSending v datalen h))
          (unfold acknowledge in refl);
  }

  send_idle : (w : Written) → candidate s ≡ none → Implements f s (send w)
  unfolding step send_picked
  send_idle w e = record {
    accepted = a;
    sending = rw (e, append-nil) v;
    refines =
        rw (e, outbox-view v)
          (unfold spec_step in
            ground (
              arith,
              candidate-none v,
              v.flushed,
              v.sent_le,
              drop-all s.sent_offset a,
              drop-nil {A = ℕ} (magnitude w.pdatalen),
              take-nil {A = ℕ} (magnitude w.pdatalen),
            ));
  }

  send_taken :
      (w : Written) (p : Candidate)
      → candidate s ≡ some p
      → magnitude w.pdatalen ≤ length p.bytes
      → (p.datavcnt ≡ 0 → is_positive w.n ≡ true → is_negative w.pdatalen ≡ false)
      → Implements f s (send w)
  unfolding step send_picked
  send_taken w p e h framed =
      let next = candidate-IsNext v p e in
      let sent = account-IsSending w v next h in
      record {
        accepted = a;
        sending = rw e sent;
        refines = rw (e, outbox-view v, outbox-view sent) (sent_view v w p next h framed);
      }

pub step-Implements :
    {a f : List ℕ} {s : Stream} (op : Op) → IsSending a f s → IsPermittedOp s op → Implements f s op
step-Implements {a} {s = s} (write bytes fin) v h = elim (Bool-cases (s.reset || s.closed)) [
  | inl shut ↦ write_refused v bytes fin (inl shut)
  | inr open_side ↦ elim (Bool-cases s.fin_sent) [
    | inl done ↦ write_refused v bytes fin (inr done)
    | inr more ↦ write_taken v bytes fin (ground arith) (ground arith) more (
        omega
          (arith, ap (λ (b : Outbox). length b.queue) (outbox-view v), length-drop s.sent_offset a))
  ]
]
step-Implements {s = s} (send w) v h = elim (Option-cases (candidate s)) [
  | inl e ↦ send_idle v w e
  | inr (p, e) ↦ send_taken v w p e (h p e).0 (h p e).1
]
step-Implements (acknowledged datalen) v h = acknowledged_kept v datalen h
