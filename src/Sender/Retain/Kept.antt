-- ===== src/Sender/Retain/Kept.antt =====
-- The pointers that ngtcp2 holds: what the picker hands out lies in a chunk that is kept until it is
-- acknowledged (ext/quic/connection_client.c).
use quic_ruby.Base.{
  ℕ, suc, ◌+◌, ◌<◌, ◌≡◌, refl, sym, ap, ◌∙◌, subst, inl, inr, some, List, [], ◌∷◌, ◌++◌, arith,
  length, flatten, take, drop, length-drop, get_or, zero, length-append, append_assoc,
  flatten-append, sub64, Option-cases, Bool-cases,
}
use quic_ruby.Stream.{Stream}
use quic_ruby.Ngtcp2.{Ngtcp2}
use quic_ruby.Client.State.{Client}
use quic_ruby.Client.Picker.{Candidate, candidate, find_chunk}
use quic_ruby.Sender.Invariant.{IsSending}
use quic_ruby.Sender.Chunks.{Finds, find_chunk-some}
use quic_ruby.Sender.Run.{Run, Run-Tracks}
use quic_ruby.Sender.Retain.{IsTail}
use quic_ruby.Sender.Retain.Run.{chunks_written, Run-Retains}

-- What is behind a cut that ends before the end of a chunk.
chunk-behind :
    (dropped queue front rest : List (List ℕ)) (chunk : List ℕ)
    → dropped ++ queue ≡ front ++ chunk ∷ rest
    → length (flatten dropped) < length (flatten front) + length chunk
    → (skipped : List (List ℕ)) × (front ≡ dropped ++ skipped) × (queue ≡ skipped ++ chunk ∷ rest)
chunk-behind [] queue front rest chunk e h = (front, refl, e)
chunk-behind (d ∷ dropped) queue [] rest chunk e h =
    let same : d ≡ chunk = cc e in
    absurd (omega (arith, length-append d (flatten dropped), ap length same))
chunk-behind (d ∷ dropped) queue (x ∷ front) rest chunk e h =
    let same : d ≡ x = cc e in
    let tails : dropped ++ queue ≡ front ++ chunk ∷ rest = cc e in
    let (skipped, joined, left) = chunk-behind dropped queue front rest chunk tails (
      omega (
        arith,
        length-append d (flatten dropped),
        length-append x (flatten front),
        ap length same,
      )) in
    (skipped, cc (same, joined), left)

-- Where a vector that is handed to ngtcp2 points: into a chunk that was pushed, at the next unsent byte
-- of the stream.
pub record IsHandedOut (written : List (List ℕ)) (s : Stream) (p : Candidate) : Type 0 where
  pub front : List (List ℕ)
  pub chunk : List ℕ
  pub rest : List (List ℕ)
  pub offset : ℕ
  pub pushed : written ≡ front ++ chunk ∷ rest
  pub queued : (skipped : List (List ℕ)) × (s.pending_chunks ≡ skipped ++ chunk ∷ rest)
  pub next_unsent : s.sent_offset ≡ length (flatten front) + offset
  pub within : offset < length chunk
  pub points : p.bytes ≡ drop offset chunk

split-at :
    (i : ℕ) (chunks : List (List ℕ))
    → i < length chunks
    → chunks ≡ take i chunks ++ get_or chunks i [] ∷ drop (suc i) chunks
split-at i [] h = absurd (omega arith)
split-at zero (x ∷ chunks) h = refl
split-at (suc i) (x ∷ chunks) h = ap (λ t. x ∷ t) (split-at i chunks (omega arith))

vector-found :
    (s : Stream) (p : Candidate)
    → candidate s ≡ some p
    → p.datavcnt ≡ 1
    → (i : ℕ) × (offset : ℕ) × (find_chunk
          (sub64 s.sent_offset s.pending_shifted)
          s.pending_chunks
          0
        ≡ some (i, offset))
      × (p.bytes ≡ drop offset (get_or s.pending_chunks i []))
unfolding candidate
vector-found s p e one = elim (Bool-cases s.fin_flushed) [
  | inl done ↦ ground arith
  | inr more ↦
      elim (Option-cases (find_chunk (sub64 s.sent_offset s.pending_shifted) s.pending_chunks 0)) [
        | inl missing ↦ ground arith
        | inr ((i, offset), found) ↦ (i, offset, found, ground arith)
      ]
]

-- The byte that is found lies behind the chunks before its own.
found-position :
    (chunks : List (List ℕ)) (position i offset : ℕ)
    → Finds chunks position 0 i offset
    → position ≡ length (flatten (take i chunks)) + offset
found-position chunks position i offset found =
    let at_i : found.index ≡ i = omega (arith, found.counted) in
    let whole = split-at found.index chunks found.inside in
    subst (λ k. position ≡ length (flatten (take k chunks)) + offset) at_i
      (omega (
        arith,
        ap length (ap flatten whole ∙ flatten-append (take found.index chunks) _),
        length-append (flatten (take found.index chunks))
            (get_or chunks found.index [] ++ flatten (drop (suc found.index) chunks)),
        length-append (get_or chunks found.index []) (flatten (drop (suc found.index) chunks)),
        ap length found.splits,
        length-append (drop offset (get_or chunks found.index []))
            (flatten (drop (suc found.index) chunks)),
        length-drop offset (get_or chunks found.index []),
        length-drop position (flatten chunks),
        found.within,
      ))

found-IsHandedOut :
    {accepted framed : List ℕ} (written : List (List ℕ)) (s : Stream) (p : Candidate) (i offset : ℕ)
    → IsSending accepted framed s
    → IsTail written s.pending_shifted s.pending_chunks
    → find_chunk (sub64 s.sent_offset s.pending_shifted) s.pending_chunks 0 ≡ some (i, offset)
    → p.bytes ≡ drop offset (get_or s.pending_chunks i [])
    → IsHandedOut written s p
found-IsHandedOut written s p i offset sending tail e points = record {
  front = tail.dropped ++ take i s.pending_chunks;
  chunk = get_or s.pending_chunks i [];
  rest = drop (suc i) s.pending_chunks;
  offset = offset;
  pushed =
      tail.splits
      ∙ ap (λ t. tail.dropped ++ t) here
      ∙ sym (append_assoc tail.dropped (take i s.pending_chunks) _);
  queued = (take i s.pending_chunks, here);
  next_unsent = omega (
    arith,
    found-position s.pending_chunks _ i offset found,
    ap length (flatten-append tail.dropped (take i s.pending_chunks)),
    length-append (flatten tail.dropped) (flatten (take i s.pending_chunks)),
    tail.counts,
    sending.shifted_le,
    sending.acked_le,
    sending.sent_le,
    sending.small,
  );
  within = subst (λ k. offset < length (get_or s.pending_chunks k [])) at_i found.within;
  points = points;
}
  where
    found : Finds s.pending_chunks (sub64 s.sent_offset s.pending_shifted) 0 i offset
    found = find_chunk-some _ s.pending_chunks 0 i offset (omega arith) e

    at_i : found.index ≡ i
    at_i = omega (arith, found.counted)

    here :
        s.pending_chunks
        ≡ take i s.pending_chunks ++ get_or s.pending_chunks i [] ∷ drop (suc i) s.pending_chunks
    here = split-at i s.pending_chunks (subst (λ k. k < length s.pending_chunks) at_i found.inside)

module _ {Conn : Type 0} {n : Ngtcp2 Conn} {a f : ℕ → List ℕ} {c : Client Conn} (run : Run n a f c)
    (r : ℕ) (below : r < c.objects.next) where
  -- In every run of a client in which ngtcp2 does in each step what it promises, a chunk that was
  -- pushed to a stream and whose end lies behind the acknowledged offset is still in
  -- `@pending_chunks`, followed by the chunks pushed after it.
  pub Run-kept :
      (front rest : List (List ℕ)) (chunk : List ℕ)
      → chunks_written run r ≡ front ++ chunk ∷ rest
      → (c.objects.cell r).acked_offset < length (flatten front) + length chunk
      → (skipped : List (List ℕ)) × ((c.objects.cell r).pending_chunks ≡ skipped ++ chunk ∷ rest)
  Run-kept front rest chunk e h =
      let tail = ((Run-Retains n run).holds r below).tail in
      let sending = (Run-Tracks n run).sending r in
      let (skipped, joined, left) =
        chunk-behind tail.dropped (c.objects.cell r).pending_chunks front rest chunk
          (sym tail.splits ∙ e) (omega (arith, tail.counts, sending.shifted_le)) in
      (skipped, left)

  -- In every run of a client in which ngtcp2 does in each step what it promises, a vector that the
  -- picker hands to ngtcp2 for a stream points into a chunk that was pushed to it, at the next unsent
  -- byte of the stream, and that chunk is in `@pending_chunks`.
  pub Run-handed :
      (p : Candidate)
      → candidate (c.objects.cell r) ≡ some p
      → p.datavcnt ≡ 1
      → IsHandedOut (chunks_written run r) (c.objects.cell r) p
  Run-handed p e one =
      let (i, offset, found, points) = vector-found (c.objects.cell r) p e one in
      found-IsHandedOut (chunks_written run r) (c.objects.cell r) p i offset
        ((Run-Tracks n run).sending r) ((Run-Retains n run).holds r below).tail found points
