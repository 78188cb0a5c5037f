-- ===== src/Sender/Retain/Pointer.antt =====
-- A vector that the picker has handed to ngtcp2, later in the history of the client
-- (ext/quic/connection_client.c).
use quic_ruby.Base.{
  ℕ, ◌+◌, ◌<◌, ◌≡◌, refl, ap, ◌∙◌, some, List, ◌∷◌, ◌++◌, arith, length, drop, length-drop,
  append_assoc,
}
use quic_ruby.Ngtcp2.{Ngtcp2}
use quic_ruby.Client.State.{Client}
use quic_ruby.Client.Picker.{Candidate, candidate}
use quic_ruby.Sender.Run.{Run}
use quic_ruby.Sender.Retain.Past.{GoesOnFrom, GoesOnFrom-Longer}
use quic_ruby.Sender.Retain.Kept.{Run-kept, Run-handed}

-- The bytes of the vector lie in a chunk of the queue, from `offset` to the chunk's end.
pub record IsHeld (queue : List (List ℕ)) (p : Candidate) : Type 0 where
  pub skipped : List (List ℕ)
  pub chunk : List ℕ
  pub rest : List (List ℕ)
  pub offset : ℕ
  pub queued : queue ≡ skipped ++ chunk ∷ rest
  pub points : p.bytes ≡ drop offset chunk

module _ {Conn : Type 0} {n : Ngtcp2 Conn} {a f a' f' : ℕ → List ℕ} {c d : Client Conn}
    (run : Run n a f c) (later : Run n a' f' d) (r : ℕ) (below : r < c.objects.next)
    (still : r < d.objects.next) where
  -- Let the picker hand a vector to ngtcp2 in a run of a client, and let that run go on. As long as
  -- the bytes of the vector are not acknowledged whole, they lie in a chunk that was in
  -- `@pending_chunks` when they were handed out, and that still is. In each step ngtcp2 does what it
  -- promises.
  pub Run-pointer :
      (p : Candidate)
      → candidate (c.objects.cell r) ≡ some p
      → p.datavcnt ≡ 1
      → GoesOnFrom n (a, f, c, run) (a', f', d, later)
      → (d.objects.cell r).acked_offset < (c.objects.cell r).sent_offset + length p.bytes
      → (at_first : IsHeld (c.objects.cell r).pending_chunks p) × (at_last : IsHeld
          (d.objects.cell r).pending_chunks
          p)
        × (at_last.chunk ≡ at_first.chunk)
        × (at_last.offset ≡ at_first.offset)
  Run-pointer p e one goes_on unacked =
      let out = Run-handed run r below p e one in
      let (more, longer) = GoesOnFrom-Longer n r goes_on in
      let (skipped, kept) =
        Run-kept later r still out.front (out.rest ++ more) out.chunk
          (longer
            ∙ ap (λ w. w ++ more) out.pushed
            ∙ append_assoc out.front (out.chunk ∷ out.rest) more)
          (omega (
            arith,
            ap length out.points,
            length-drop out.offset out.chunk,
            out.within,
            out.next_unsent,
          )) in
      (
        record {
          skipped = out.queued.0;
          chunk = out.chunk;
          rest = out.rest;
          offset = out.offset;
          queued = out.queued.1;
          points = out.points;
        },
        record {
          skipped = skipped;
          chunk = out.chunk;
          rest = out.rest ++ more;
          offset = out.offset;
          queued = kept;
          points = out.points;
        },
        refl,
        refl,
      )
