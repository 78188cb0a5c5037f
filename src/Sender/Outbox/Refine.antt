-- ===== src/Sender/Outbox/Refine.antt =====
-- Sequences of steps of the detailed sending side, against the queue of unsent bytes.
use quic_ruby.Base.{ℕ, ◌≡◌, refl, ap, List, [], ◌∷◌, ◌++◌}
use quic_ruby.Stream.{Stream}
use quic_ruby.Sender.Invariant.{IsSending}
use quic_ruby.Sender.Outbox.{Outbox, Op, step, outbox, run, spec_run}
use quic_ruby.Sender.Outbox.Step.{IsPermittedOp, step-Implements}

abbrev pub ArePermittedOps : Stream → List Op → Type 0
ArePermittedOps s [] = Unit
ArePermittedOps s (op ∷ ops) = IsPermittedOp s op × ArePermittedOps (step s op).0 ops

-- The sending side of a stream in the sending invariant refines a queue of bytes: for every sequence
-- of writes, packets and acknowledgements with fewer than 2^63 bytes, in which ngtcp2 takes no more
-- bytes than it is given and frames each FIN that it is given alone and makes a packet of, the bytes
-- sent, the bytes left to send and the place of FIN are those of the queue.
pub run-refines :
    (ops : List Op) {a f : List ℕ} {s : Stream}
    → IsSending a f s
    → ArePermittedOps s ops
    → (outbox (run s ops).0, (run s ops).1) ≡ spec_run (outbox s) ops
unfolding run spec_run
run-refines [] v h = refl
run-refines (op ∷ ops) {s = s} v h =
    let i = step-Implements op v h.0 in
    let ih = run-refines ops i.sending h.1 in
    rw (← i.refines) (ap (λ (x : Outbox × List ℕ). (x.0, (step s op).1 ++ x.1)) ih)
