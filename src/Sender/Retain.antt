-- ===== src/Sender/Retain.antt =====
-- The chunks of `@pending_chunks` seen as the tail of all chunks that were ever pushed: ngtcp2 holds
-- pointers into them until they are acknowledged (ext/quic/connection_client.c).
pub mod Pushed
pub mod Run
pub mod Past
pub mod Kept
pub mod Pointer
use quic_ruby.Base.{
  ℕ, ◌+◌, ◌≤◌, ◌<◌, ◌≡◌, refl, sym, ap, ◌∙◌, subst, ◌⊎◌, inl, inr, Bool, false, true, List, [], ◌∷◌,
  ◌++◌, arith, length, flatten, flatten-append, flatten-snoc, long_limit, u64_mod, add64, leb, ltb,
  length-append, append_assoc, append-nil, Bool-cases, if◌then◌else◌,
}
use quic_ruby.Stream.{Stream, stream_new, append_chunk}
use quic_ruby.Ngtcp2.{Written}
use quic_ruby.Client.Objects.{Objects}
use quic_ruby.Client.Callbacks.{shift_acked, acknowledge, receive, mark_closed, mark_reset}
use quic_ruby.Client.Picker.{Candidate}
use quic_ruby.Client.Packets.{account}
use quic_ruby.Client.Frame.{IsFrame, Carries}
use quic_ruby.Client.Frame.Pump.{Carries-IsObjectFrame, IsObjectFrame}

-- The chunks written so far, cut where the queue begins: `shifted` bytes are behind the cut.
pub record IsTail (written : List (List ℕ)) (shifted : ℕ) (queue : List (List ℕ)) : Type 0 where
  pub dropped : List (List ℕ)
  pub splits : written ≡ dropped ++ queue
  pub counts : length (flatten dropped) ≡ shifted

-- The same of a stream, whose bytes number less than 2^63.
pub record Holds (written : List (List ℕ)) (s : Stream) : Type 0 where
  pub tail : IsTail written s.pending_shifted s.pending_chunks
  pub small : length (flatten written) < long_limit

-- A stream that goes on holding what it held.
abbrev pub GoesOn : Stream → Stream → Type 0
GoesOn s t = (written : List (List ℕ)) → Holds written s → Holds written t

IsTail-next :
    (written : List (List ℕ)) (shifted : ℕ) (head : List ℕ) (rest : List (List ℕ))
    → IsTail written shifted (head ∷ rest)
    → IsTail written (shifted + length head) rest
IsTail-next written shifted head rest t = record {
  dropped = t.dropped ++ head ∷ [];
  splits = t.splits ∙ sym (append_assoc t.dropped (head ∷ []) rest);
  counts =
      ap length (flatten-snoc t.dropped head)
      ∙ omega (arith, length-append (flatten t.dropped) head, t.counts);
}

-- The end of the first chunk does not wrap.
no_wrap :
    (written : List (List ℕ)) (shifted : ℕ) (head : List ℕ) (rest : List (List ℕ))
    → length (flatten written) < long_limit
    → IsTail written shifted (head ∷ rest)
    → add64 shifted (length head) ≡ shifted + length head
no_wrap written shifted head rest small t =
    let joined : flatten written ≡ flatten t.dropped ++ (head ++ flatten rest) =
      ap flatten t.splits ∙ flatten-append t.dropped (head ∷ rest) in
    omega (
      arith,
      ap length joined,
      length-append (flatten t.dropped) (head ++ flatten rest),
      length-append head (flatten rest),
      t.counts,
    )

-- What the loop of the acknowledgement leaves.
abbrev Shifts : List (List ℕ) → ℕ → ℕ → List (List ℕ) → Type 0
Shifts written acked shifted queue =
    IsTail written (shift_acked acked shifted queue).0 (shift_acked acked shifted queue).1

shift_acked-turn :
    (written : List (List ℕ)) (acked shifted : ℕ) (head : List ℕ) (rest : List (List ℕ))
    → IsTail written shifted (head ∷ rest)
    → Shifts written acked (add64 shifted (length head)) rest
    → Shifts written acked shifted (head ∷ rest)
unfolding shift_acked
shift_acked-turn written acked shifted head rest t later =
    elim (Bool-cases (leb (add64 shifted (length head)) acked)) [
      | inl whole ↦ rw (shift_acked, whole) later
      | inr part ↦ rw (shift_acked, part) t
    ]

shift_acked-IsTail :
    (written : List (List ℕ)) (acked shifted : ℕ) (queue : List (List ℕ))
    → length (flatten written) < long_limit
    → IsTail written shifted queue
    → Shifts written acked shifted queue
shift_acked-IsTail written acked shifted [] small t = unfold shift_acked in t
shift_acked-IsTail written acked shifted (head ∷ rest) small t =
    shift_acked-turn written acked shifted head rest t (
      subst (λ k. Shifts written acked k rest) (sym (no_wrap written shifted head rest small t))
        (shift_acked-IsTail written acked (shifted + length head) rest small
          (IsTail-next written shifted head rest t)))

acknowledge-GoesOn : (s : Stream) (datalen : ℕ) → GoesOn s (acknowledge s datalen)
unfolding acknowledge
acknowledge-GoesOn s datalen written h = record {
  tail = shift_acked-IsTail written _ s.pending_shifted s.pending_chunks h.small h.tail;
  small = h.small;
}

-- A step that leaves the queue as it is.
pub same_queue :
    (s t : Stream)
    → t.pending_shifted ≡ s.pending_shifted
    → t.pending_chunks ≡ s.pending_chunks
    → GoesOn s t
same_queue s t e q written h = record { tail = rw (e, q) h.tail; small = h.small }

pub GoesOn-IsFrame : IsFrame GoesOn
unfolding receive mark_closed mark_reset
GoesOn-IsFrame = record {
  stays = λ s written h. h;
  joins = λ s t u f g written h. g written (f written h);
  receives = λ s surfaced fin bytes. same_queue s _ refl refl;
  acknowledges = acknowledge-GoesOn;
  closes = λ s has_code code. same_queue s _ refl refl;
  resets = λ s code. same_queue s _ refl refl;
}

account-GoesOn : (s : Stream) (p : Candidate) (w : Written) → GoesOn s (account s p w)
unfolding account
account-GoesOn s p w = same_queue s (account s p w) (ground arith) (ground arith)

pub GoesOn-IsObjectFrame : IsObjectFrame (Carries GoesOn)
GoesOn-IsObjectFrame = Carries-IsObjectFrame GoesOn GoesOn-IsFrame account-GoesOn
