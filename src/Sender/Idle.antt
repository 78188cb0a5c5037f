-- ===== src/Sender/Idle.antt =====
-- When quic_client_pick_send_stream of ext/quic/connection_client.c finds nothing to send.
use quic_ruby.Base.{
  ℕ, ◌≡◌, ◌↔◌, refl, sym, ap, ◌∙◌, ◌⊎◌, inl, inr, true, false, none, some, List, [], ◌∷◌, arith,
  length, take-all, length-take, Bool-cases, ◌==◌, ==_iff,
}
use quic_ruby.Ruby.Hash.{aref, values, Distinct}
use quic_ruby.Stream.{Stream}
use quic_ruby.Ngtcp2.{Ngtcp2}
use quic_ruby.Client.State.{Client}
use quic_ruby.Client.Picker.{candidate, pick_from, pick_send_stream}
use quic_ruby.Sender.Invariant.{IsSending}
use quic_ruby.Sender.Pick.{candidate-none}
use quic_ruby.Sender.Choice.{pick_from-none, aref-here}
use quic_ruby.Sender.Run.{Run, Run-Tracks}

-- Every accepted byte has been framed, and FIN is counted as flushed where the application has
-- finished.
abbrev pub IsDone : List ℕ → List ℕ → Stream → Type 0
IsDone accepted framed s = (framed ≡ accepted) × ((s.fin_sent ≡ false) ⊎ (s.fin_flushed ≡ true))

module _ {accepted framed : List ℕ} {s : Stream} (v : IsSending accepted framed s) where
  all_framed : s.sent_offset ≡ length accepted → framed ≡ accepted
  all_framed e = v.in_order ∙ take-all s.sent_offset accepted (omega (arith, e))

  all_sent : framed ≡ accepted → s.sent_offset ≡ length accepted
  all_sent e =
      omega (arith, ap length (sym v.in_order ∙ e), length-take s.sent_offset accepted, v.sent_le)

  candidate-IsDone : (candidate s ≡ none) ↔ IsDone accepted framed s
  candidate-IsDone = (
    λ e. elim ((candidate-none v).0 e) [
      | inl flushed ↦ (all_framed (v.flushed flushed).1, inr flushed)
      | inr (sent, writing) ↦ (all_framed sent, inl writing)
    ],
    λ (d : IsDone accepted framed s). elim d.1 [
      | inl writing ↦ (candidate-none v).1 (inr (all_sent d.0, writing))
      | inr flushed ↦ (candidate-none v).1 (inl flushed)
    ],
  )

-- Where no registered stream has anything to send, the picker finds nothing.
none-pick_from :
    (cell : ℕ → Stream) (h : List (ℕ × ℕ))
    → Distinct h
    → ((id r : ℕ) → aref id h ≡ some r → candidate (cell r) ≡ none)
    → pick_from cell (values h) ≡ none
unfolding pick_from values aref
none-pick_from cell [] d idle = refl
none-pick_from cell ((j, q) ∷ h) d idle =
    rw (pick_from, idle j q (aref-here j q h))
      (none-pick_from cell h d.1 (λ id r known. idle id r (later id r known)))
  where
    later : (id r : ℕ) → aref id h ≡ some r → aref id ((j, q) ∷ h) ≡ some r
    later id r known = elim (Bool-cases (j == id)) [
      | inl e ↦ absurd (cc (ap (λ k. aref k h) ((==_iff j id).0 e), d.0, known))
      | inr e ↦ rw e known
    ]

module _ {Conn : Type 0} {n : Ngtcp2 Conn} {a f : ℕ → List ℕ} {c : Client Conn}
    (run : Run n a f c) where
  -- In every run of a client in which ngtcp2 does in each step what it promises, the picker finds
  -- nothing exactly where every byte accepted for a registered stream has been framed, and FIN is
  -- counted as flushed (`fin_flushed`) for those that the application has finished.
  pub Run-idle :
      (pick_send_stream c.objects ≡ none)
      ↔ ((id r : ℕ) → aref id c.objects.streams ≡ some r → IsDone (a r) (f r) (c.objects.cell r))
  unfolding pick_send_stream
  Run-idle =
      let t = Run-Tracks n run in
      (
        λ e id r known.
            (candidate-IsDone (t.sending r)).0
              (pick_from-none c.objects.cell c.objects.streams e id r known),
        λ (done : (id r : ℕ)
              → aref id c.objects.streams ≡ some r
              → IsDone (a r) (f r) (c.objects.cell r)).
            none-pick_from c.objects.cell c.objects.streams t.distinct
              (λ id r known. (candidate-IsDone (t.sending r)).1 (done id r known)),
      )
