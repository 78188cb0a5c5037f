-- ===== src/Sender/Flush.antt =====
-- Repeated packets send all of a stream: the picker and the accounting of #write_pkt
-- (ext/quic/connection_client.c) as a loop.
use quic_ruby.Base.{
  ℕ, zero, suc, ◌-◌, ◌≤◌, ◌<◌, ◌≡◌, refl, ap, ◌∙◌, subst, true, Option, none, some, List, ◌⊎◌, inl,
  inr, false, negsuc, sub64, arith, length, magnitude, is_positive, Option-cases, length-drop,
  length-append,
}
use quic_ruby.Stream.{Stream}
use quic_ruby.Ngtcp2.{Written}
use quic_ruby.Client.Picker.{Candidate, find_chunk, candidate}
use quic_ruby.Client.Packets.{account}
use quic_ruby.Sender.Invariant.{IsSending}
use quic_ruby.Sender.Pick.{IsNext, candidate-IsNext}
use quic_ruby.Sender.Account.{account-IsSending, account-sent}

-- One packet for a stream: what is picked is handed out and counted.
unfoldable pub pack_picked : Stream → Option Candidate → Written → Stream
pack_picked s none w = s
pack_picked s (some p) w = account s p w

unfoldable pub packs : ℕ → Stream → (ℕ → Written) → Stream
packs zero s answers = s
packs (suc k) s answers = packs k (pack_picked s (candidate s) (answers 0)) (λ i. answers (suc i))

-- ngtcp2 takes at least one byte of those it is given, and no more than there are, and it writes
-- the packet where it is given FIN alone.
abbrev pub TakesSome : Candidate → Written → Type 0
TakesSome p w =
    (magnitude w.pdatalen ≤ length p.bytes)
    × ((0 < magnitude w.pdatalen) ⊎ ((p.datavcnt ≡ 0) × (is_positive w.n ≡ true)))

abbrev pub Progresses : ℕ → Stream → (ℕ → Written) → Type 0
Progresses zero s answers = Unit
Progresses (suc k) s answers =
    ((p : Candidate) → candidate s ≡ some p → TakesSome p (answers 0))
    × Progresses k (pack_picked s (candidate s) (answers 0)) (λ i. answers (suc i))

packs-idle :
    (k : ℕ) (s : Stream) (answers : ℕ → Written) → candidate s ≡ none → packs k s answers ≡ s
unfolding packs pack_picked
packs-idle zero s answers e = refl
packs-idle (suc k) s answers e = rw (packs, e) (packs-idle k s (λ i. answers (suc i)) e)

candidate-flushed : (s : Stream) → s.fin_flushed ≡ true → candidate s ≡ none
unfolding candidate
candidate-flushed s e = rw e

packs-picked :
    (k : ℕ) (s : Stream) (answers : ℕ → Written) (p : Candidate)
    → candidate s ≡ some p
    → packs (suc k) s answers ≡ packs k (account s p (answers 0)) (λ i. answers (suc i))
unfolding packs pack_picked
packs-picked k s answers p e = rw (packs, e) refl

module _ {a f : List ℕ} {s : Stream} (v : IsSending a f s) (p : Candidate) (w : Written)
    (next : IsNext a s p) where
  unsent : length p.bytes ≤ length a - s.sent_offset
  unsent = omega (
    arith,
    ap length next.continues,
    length-append p.bytes next.rest,
    length-drop s.sent_offset a,
  )

  -- A packet that takes a byte leaves fewer, and one that takes FIN alone ends the stream.
  pack-progress :
      TakesSome p w
      → (length a - (account s p w).sent_offset < length a - s.sent_offset)
        ⊎ ((account s p w).fin_flushed ≡ true)
  pack-progress (fits, inl some_bytes) = inl (omega (arith, account-sent w v next fits, unsent))
  pack-progress (fits, inr (alone, written)) = inr (unfold account in ground (arith, next.counted))

-- On a stream in the sending invariant the picker has nothing left after as many packets as there are
-- unsent bytes and one more, where ngtcp2 takes into each at least one byte of those that it is
-- given, or the FIN that it is given alone.
pub packs-finishes :
    (k : ℕ) {a f : List ℕ} {s : Stream} (answers : ℕ → Written)
    → IsSending a f s
    → Progresses k s answers
    → length a - s.sent_offset < k
    → candidate (packs k s answers) ≡ none
unfolding packs pack_picked
packs-finishes zero answers v h m = absurd (omega arith)
packs-finishes (suc k) {a} {f} {s} answers v h m = elim (Option-cases (candidate s)) [
  | inl idle ↦ ap candidate (packs-idle (suc k) s answers idle) ∙ idle
  | inr (p, e) ↦
      let next = candidate-IsNext v p e in
      let sent = account-IsSending (answers 0) v next (h.0 p e).0 in
      ap candidate (packs-picked k s answers p e)
      ∙ elim (pack-progress v p (answers 0) next (h.0 p e)) [
        | inr done ↦
            ap candidate (
              packs-idle k (account s p (answers 0)) (λ i. answers (suc i))
                (candidate-flushed (account s p (answers 0)) done))
            ∙ candidate-flushed (account s p (answers 0)) done
        | inl less ↦ packs-finishes k (λ i. answers (suc i)) sent (counted p e h.1) (omega arith)
      ]
]
  where
    counted :
        (p : Candidate)
        → candidate s ≡ some p
        → Progresses k (pack_picked s (candidate s) (answers 0)) (λ i. answers (suc i))
        → Progresses k (account s p (answers 0)) (λ i. answers (suc i))
    counted p e g =
        subst (λ x. Progresses k (pack_picked s x (answers 0)) (λ i. answers (suc i))) e g

account-fin :
    (s : Stream) (p : Candidate) (w : Written)
    → candidate s ≡ some p
    → p.datavcnt ≡ 0
    → is_positive w.n ≡ true
    → is_positive w.pdatalen ≡ false
    → (account s p w).fin_flushed ≡ true
unfolding candidate account
account-fin s p w e alone written unframed =
    elim (Option-cases (find_chunk (sub64 s.sent_offset s.pending_shifted) s.pending_chunks 0)) [
      | inl missing ↦ ground arith
      | inr (x, found) ↦ ground arith
    ]

-- A FIN that is picked alone, and that ngtcp2 does not frame in the packet that it writes (an
-- acknowledgement, for instance, with `*pdatalen` left at -1), is counted as flushed: the stream is
-- not picked again for any later packet.
pub packs-fin_lost :
    (k : ℕ) (s : Stream) (p : Candidate) (w : Written) (answers : ℕ → Written)
    → candidate s ≡ some p
    → p.datavcnt ≡ 0
    → is_positive w.n ≡ true
    → w.pdatalen ≡ negsuc 0
    → (packs k (account s p w) answers ≡ account s p w) × (candidate (account s p w) ≡ none)
packs-fin_lost k s p w answers e alone written unframed =
    let flushed = account-fin s p w e alone written (ap is_positive unframed) in
    let idle = candidate-flushed (account s p w) flushed in
    (packs-idle k (account s p w) answers idle, idle)
