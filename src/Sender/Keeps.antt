-- ===== src/Sender/Keeps.antt =====
-- What the callbacks of ngtcp2 leave alone of a stream that was chosen before they ran.
use quic_ruby.Base.{ℕ, ◌≡◌, refl, sym, ap, ◌∙◌, List, arith, drop}
use quic_ruby.Stream.{Stream}
use quic_ruby.Ngtcp2.{Event}
use quic_ruby.Client.Objects.{Objects}
use quic_ruby.Client.Callbacks.{receive, acknowledge, mark_closed, mark_reset, callbacks}
use quic_ruby.Client.Frame.{IsFrame, Carries, callbacks-Carries}
use quic_ruby.Client.Picker.{Candidate}
use quic_ruby.Sender.Pick.{IsNext}

-- What the accounting of a packet relies on.
abbrev pub SameSender : Stream → Stream → Type 0
SameSender s t =
    (t.sent_offset ≡ s.sent_offset) × (t.fin_sent ≡ s.fin_sent) × (t.stream_id ≡ s.stream_id)

SameSender-IsFrame : IsFrame SameSender
unfolding receive acknowledge mark_closed mark_reset
SameSender-IsFrame = record {
  stays = λ s. (refl, refl, refl);
  joins = λ s t u h k. (k.0 ∙ h.0, k.1 ∙ h.1, k.2 ∙ h.2);
  receives = λ s surfaced fin bytes. (refl, refl, refl);
  acknowledges = λ s datalen. (refl, refl, refl);
  closes = λ s has_code code. (refl, refl, refl);
  resets = λ s code. (refl, refl, refl);
}

pub callbacks-SameSender : (o : Objects) (es : List Event) → Carries SameSender o (callbacks o es)
callbacks-SameSender o es = callbacks-Carries SameSender SameSender-IsFrame o es

pub IsNext-same :
    {accepted : List ℕ} {s t : Stream} {p : Candidate}
    → SameSender s t
    → IsNext accepted s p
    → IsNext accepted t p
IsNext-same {accepted} {s} {t} {p} h v = record {
  rest = v.rest;
  continues = v.continues ∙ ap (λ k. drop k accepted) (sym h.0);
  same_stream = v.same_stream ∙ sym h.2;
  fin_last = ground (arith, v.fin_last.0, v.fin_last.1);
  counted = v.counted;
}
